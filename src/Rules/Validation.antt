-- ===== src/Rules/Validation.antt =====
-- `valid_text` of crates/imail-core/src/search.rs, `valid_mail_address` of
-- crates/imail-protocol/src/composition.rs, and `MailRuleInput::validate` and `RuleAction::is_remote`
-- of crates/imail-core/src/rules.rs.
use i_mail.Base.{
  ℕ, Bool, true, false, not, ◌&&◌, ◌||◌, Option, none, some, List, [], ◌∷◌, any, all, length, ltb,
  leb, ◌==◌,
}
use i_mail.Base.Texts.{
  Text, codes, text_eq, is_blank, is_control, is_whitespace, utf16_len, byte_len, rsplit_once,
  split, starts_with, ends_with,
}
use i_mail.Rules.Types.{
  RuleCondition, sender, sender_domain, recipient, subject_contains, body_contains, mailbox_role,
  label, RuleAction, add_label, remove_label, mark_read, flag, archive, MailRuleInput, RuleError,
  invalid_name, invalid_size, invalid_condition, invalid_label, invalid_archive,
}

unfoldable pub valid_text : Text → ℕ → Bool
valid_text v max = not (is_blank v) && leb (utf16_len v) max && not (any is_control v)

abbrev pub is_empty : {A : Type 0} → List A → Bool
is_empty [] = true
is_empty (x ∷ xs) = false

abbrev pub is_address_part : Option (Text × Text) → Bool
is_address_part none = false
is_address_part (some (local, domain)) = not (is_empty local) && not (is_empty domain)

-- What an address may not hold: '<', '>', ',' and ';' besides controls and white space.
abbrev pub is_forbidden : ℕ → Bool
is_forbidden c = is_control c || is_whitespace c || c == 60 || c == 62 || c == 44 || c == 59

unfoldable pub valid_mail_address : Text → Bool
valid_mail_address a =
    is_address_part (rsplit_once 64 a) && leb (byte_len a) 320 && not (any is_forbidden a)

abbrev pub is_alphanumeric : ℕ → Bool
is_alphanumeric c = (leb 48 c && leb c 57) || (leb 65 c && leb c 90) || (leb 97 c && leb c 122)

abbrev pub is_domain_part : Text → Bool
is_domain_part part =
    not (is_empty part)
    && leb (byte_len part) 63
    && not (starts_with 45 part)
    && not (ends_with 45 part)
    && all (λ c. is_alphanumeric c || c == 45) part

abbrev pub is_domain : Text → Bool
is_domain v = valid_text v 253 && any (λ c. c == 46) v && all is_domain_part (split 46 v)

abbrev pub is_role : Text → Bool
is_role v =
    text_eq v (codes "inbox")
    || text_eq v (codes "sent")
    || text_eq v (codes "archive")
    || text_eq v (codes "drafts")
    || text_eq v (codes "trash")
    || text_eq v (codes "junk")
    || text_eq v (codes "custom")

abbrev pub is_valid_condition : RuleCondition → Bool
is_valid_condition (sender v) = valid_mail_address v
is_valid_condition (recipient v) = valid_mail_address v
is_valid_condition (sender_domain v) = is_domain v
is_valid_condition (subject_contains v) = valid_text v 200
is_valid_condition (body_contains v) = valid_text v 200
is_valid_condition (label v) = valid_text v 80
is_valid_condition (mailbox_role v) = is_role v
is_valid_condition _ = true

abbrev pub label_error : Text → Option RuleError
label_error v = elim (valid_text v 80) [ true ↦ none | false ↦ some invalid_label ]

-- The error of the action before the actions `rest`.
abbrev pub action_error : RuleAction → List RuleAction → Option RuleError
action_error (add_label v) rest = label_error v
action_error (remove_label v) rest = label_error v
action_error archive [] = none
action_error archive (_ ∷ _) = some invalid_archive
action_error _ rest = none

abbrev pub or_else : Option RuleError → Option RuleError → Option RuleError
or_else none e = e
or_else (some e) _ = some e

-- The loop over the actions: the first error.
abbrev pub actions_error : List RuleAction → Option RuleError
actions_error [] = none
actions_error (a ∷ rest) = or_else (action_error a rest) (actions_error rest)

abbrev pub in_range : ℕ → Bool
in_range n = leb 1 n && leb n 20

abbrev pub error_if : Bool → RuleError → Option RuleError
error_if true e = some e
error_if false e = none

-- The error that `validate` returns, or none.
unfoldable pub validate : MailRuleInput → Option RuleError
validate r = or_else (error_if (not (valid_text r.name 80) || ltb 10_000 r.priority) invalid_name) (
    or_else
      (error_if
        (ltb 100 (length r.account_ids)
          || any (λ id. not (valid_text id 200)) r.account_ids
          || not (in_range (length r.conditions))
          || not (in_range (length r.actions)))
        invalid_size)
      (or_else (error_if (any (λ c. not (is_valid_condition c)) r.conditions) invalid_condition)
        (actions_error r.actions)))

unfoldable pub is_remote : RuleAction → Bool
is_remote (mark_read _) = true
is_remote (flag _) = true
is_remote archive = true
is_remote _ = false
