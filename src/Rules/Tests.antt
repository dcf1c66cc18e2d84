-- ===== src/Rules/Tests.antt =====
-- Rules on a concrete message.
use i_mail.Base.{suc, ◌≡◌, refl, true, false, none, [], ◌∷◌, All, Any, here, ◌⊎◌, length, any, ◌||◌}
use i_mail.Base.Texts.{Text, codes, is_blank, is_whitespace, is_control, text_eq, push_end}
use i_mail.Base.Json.{string, array, end, null}
use i_mail.Rules.Types.{
  sender, unread, mark_read, archive, match_all, MailRuleInput, MailRule, MessageReadModel,
}
use i_mail.Rules.Validation.{validate, valid_text, valid_mail_address, is_empty}
use i_mail.Rules.Matching.{matches, condition_matches, matching_rules}
use i_mail.Rules.Selection.{Selected, IsRun, IsStopped, matching_rules-IsRun, matching_rules-Any}
use i_mail.Rules.Soundness.{validate-archive, matches-Any}

abbrev to_lower : Text → Text
to_lower t = t

abbrev message : MessageReadModel
message = record {
  account_id = codes "a";
  mailbox_role = codes "inbox";
  from = string (codes "Ann@x.org");
  to = array end;
  cc = [];
  subject = codes "invoice 7";
  text = [];
  unread = true;
  flagged = false;
  has_attachments = false;
  labels = null;
}

abbrev billing : MailRuleInput
billing = record {
  name = codes "billing";
  enabled = true;
  priority = 5;
  account_ids = codes "a" ∷ [];
  match_mode = match_all;
  conditions = sender (codes "ann@x.org") ∷ unread true ∷ [];
  actions = mark_read true ∷ archive ∷ [];
  stop_processing = true;
}

abbrev rule : MailRule
rule = record {
  id = codes "r1";
  revision = 1;
  input = billing;
  created_at = codes "2026";
  updated_at = codes "2026";
}

abbrev late : MailRule
late = record {
  id = codes "r2";
  revision = 1;
  input = record billing { priority = 9 };
  created_at = codes "2025";
  updated_at = codes "2026";
}

billing-validate : validate billing ≡ none
unfolding validate valid_text valid_mail_address is_blank is_whitespace is_control
billing-validate = refl

billing-matches : matches to_lower billing message ≡ true
unfolding matches condition_matches validate valid_text valid_mail_address is_blank is_whitespace
    is_control push_end
billing-matches = refl

late-matches : matches to_lower late.input message ≡ true
unfolding matches condition_matches validate valid_text valid_mail_address is_blank is_whitespace
    is_control push_end
late-matches = refl

-- Only the first of the two rules acts: it stops the processing.
one_rule : matching_rules to_lower (late ∷ rule ∷ []) message ≡ rule ∷ []
unfolding matching_rules matches condition_matches validate valid_text valid_mail_address is_blank
    is_whitespace is_control push_end
one_rule = refl

validate-archive_example : suc 1 ≡ length billing.actions
validate-archive_example = validate-archive billing 1 billing-validate refl

matches-Any_example :
    (validate billing ≡ none)
    × ((is_empty billing.account_ids
          || any (λ id. text_eq id message.account_id) billing.account_ids)
        ≡ true)
    × Any (λ c. condition_matches to_lower c message ≡ true) billing.conditions
matches-Any_example = matches-Any to_lower billing message billing-matches

matching_rules-IsRun_example :
    All
      (Selected to_lower (λ r. r.revision ≡ 1) message)
      (matching_rules to_lower (late ∷ rule ∷ []) message)
    × IsRun to_lower (matching_rules to_lower (late ∷ rule ∷ []) message)
matching_rules-IsRun_example =
    matching_rules-IsRun to_lower (λ r. r.revision ≡ 1) (late ∷ rule ∷ []) message
      (refl, (refl, tt))

matching_rules-Any_example :
    Any
      (λ q. (q ≡ late) ⊎ IsStopped to_lower late q)
      (matching_rules to_lower (late ∷ rule ∷ []) message)
matching_rules-Any_example =
    matching_rules-Any to_lower (late ∷ rule ∷ []) message late (here refl) refl late-matches
