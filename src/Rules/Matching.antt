-- ===== src/Rules/Matching.antt =====
-- The matching of crates/imail-core/src/rules.rs. `to_lowercase` is Rust's, by the tables of Unicode.
use i_mail.Base.{
  Bool, true, false, not, ◌&&◌, ◌||◌, Option, none, some, List, [], ◌∷◌, any, all, ltb, ◌==◌,
  if◌then◌else◌, is_some,
}
use i_mail.Base.Table.{select_where}
use i_mail.Base.Sorting.{sort_by}
use i_mail.Base.Texts.{
  Text, codes, text_eq, trim, contains, rsplit_once, eq_ignore_ascii_case, text_before,
}
use i_mail.Base.Json.{Value, string, object, as_str, or_default, get_member, any_in}
use i_mail.Rules.Types.{
  RuleCondition, sender, sender_domain, recipient, subject_contains, body_contains, has_attachments,
  unread, flagged, mailbox_role, label, RuleMatchMode, match_all, match_any, MailRuleInput,
  MailRule, MessageReadModel,
}
use i_mail.Rules.Validation.{validate, is_empty}

abbrev pub member_text : Option Value → Text
member_text none = []
member_text (some v) = or_default (as_str v)

abbrev pub address : Value → Text
address (string t) = t
address (object m) = member_text (get_member (codes "address") m)
address _ = []

abbrev pub domain_is : Text → Option (Text × Text) → Bool
domain_is v none = false
domain_is v (some (local, domain)) = eq_ignore_ascii_case domain v

abbrev pub bool_eq : Bool → Bool → Bool
bool_eq true b = b
bool_eq false b = not b

abbrev pub text_is : Text → Option Text → Bool
text_is v none = false
text_is v (some t) = text_eq t v

module _ (to_lowercase : Text → Text) where
  unfoldable pub condition_matches : RuleCondition → MessageReadModel → Bool
  condition_matches (sender v) m = eq_ignore_ascii_case (address m.from) (trim v)
  condition_matches (sender_domain v) m = domain_is v (rsplit_once 64 (address m.from))
  condition_matches (recipient v) m =
      any_in (λ a. eq_ignore_ascii_case (address a) (trim v)) m.to
      || any (λ a. eq_ignore_ascii_case a (trim v)) m.cc
  condition_matches (subject_contains v) m =
      contains (to_lowercase (trim v)) (to_lowercase m.subject)
  condition_matches (body_contains v) m = contains (to_lowercase (trim v)) (to_lowercase m.text)
  condition_matches (has_attachments v) m = bool_eq m.has_attachments v
  condition_matches (unread v) m = bool_eq m.unread v
  condition_matches (flagged v) m = bool_eq m.flagged v
  condition_matches (mailbox_role v) m = text_eq m.mailbox_role v
  condition_matches (label v) m = any_in (λ l. text_is v (as_str l)) m.labels

  abbrev pub mode_matches : RuleMatchMode → List RuleCondition → MessageReadModel → Bool
  mode_matches match_all cs m = all (λ c. condition_matches c m) cs
  mode_matches match_any cs m = any (λ c. condition_matches c m) cs

  unfoldable pub matches : MailRuleInput → MessageReadModel → Bool
  matches r m =
      if not (is_empty r.account_ids) && not (any (λ id. text_eq id m.account_id) r.account_ids)
      then false
      else if is_some (validate r)
      then false
      else mode_matches r.match_mode r.conditions m

  -- The order (priority, created_at, id).
  abbrev pub runs_before : MailRule → MailRule → Bool
  runs_before a b =
      ltb a.input.priority b.input.priority
      || (a.input.priority == b.input.priority
          && (text_before a.created_at b.created_at
              || (text_eq a.created_at b.created_at && text_before a.id b.id)))

  -- The loop over the ordered rules, with its break.
  abbrev pub collect : MessageReadModel → List MailRule → List MailRule
  collect m [] = []
  collect m (r ∷ rs) =
      let rest = collect m rs in
      if matches r.input m then r ∷ (if r.input.stop_processing then [] else rest) else rest

  unfoldable pub matching_rules : List MailRule → MessageReadModel → List MailRule
  matching_rules rules m =
      collect m (sort_by runs_before (select_where (λ r. r.input.enabled) rules))
