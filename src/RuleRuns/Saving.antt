-- ===== src/RuleRuns/Saving.antt =====
-- `list_mail_rules`, `save_mail_rule` and `delete_mail_rule` of
-- crates/imail-storage-sqlite/src/rules.rs.
use i_mail.Base.{
  ℕ, ◌+◌, Bool, not, ◌&&◌, ◌||◌, Option, none, some, List, [], ◌∷◌, ◌++◌, length, if◌then◌else◌,
  leb, ltb, all, is_some,
}
use i_mail.Base.Table.{update_where, delete_where, exists_where, find_where, count_where}
use i_mail.Base.Texts.{Text, text_eq}
use i_mail.Base.Result.{Result, ok, ◌>>◌, fail_if}
use i_mail.Rules.Types.{MailRule, MailRuleInput}
use i_mail.Rules.Validation.{validate}
use i_mail.RuleRuns.Types.{
  RuleStore, RuleRow, RunRow, PreviewRow, StoreError, account_not_owned, invalid_content_data,
  cancelled, is_pending, has_failed, owns,
}
use i_mail.RuleRuns.Matches.{load_rules}

unfoldable pub list_mail_rules : Text → RuleStore → List MailRule
list_mail_rules owner s = load_rules owner s

abbrev pub is_owned_account : Text → RuleStore → Text → Bool
is_owned_account owner s account = exists_where (owns owner account) s.accounts

abbrev pub has_rule_id : Text → MailRule → Bool
has_rule_id id r = text_eq r.id id

abbrev pub previous_rule : Option Text → List MailRule → Option MailRule
previous_rule none rules = none
previous_rule (some id) rules = find_where (has_rule_id id) rules

-- The saved rule: a new one, or the next revision of the previous one.
abbrev pub saved_rule : Text → MailRuleInput → Text → Option MailRule → MailRule
saved_rule id input stamp none = record {
  id = id;
  revision = 1;
  input = input;
  created_at = stamp;
  updated_at = stamp;
}
saved_rule id input stamp (some previous) = record {
  id = id;
  revision = previous.revision + 1;
  input = input;
  created_at = previous.created_at;
  updated_at = stamp;
}

abbrev pub id_or : Text → Option Text → Text
id_or fresh none = fresh
id_or fresh (some id) = id

abbrev pub revise_row : MailRule → RuleRow → RuleRow
revise_row rule x = record x {
  rule = record x.rule {
    revision = rule.revision;
    input = rule.input;
    updated_at = rule.updated_at;
  };
}

-- INSERT … ON CONFLICT(id) DO UPDATE
abbrev pub upsert_rule : Text → MailRule → List RuleRow → List RuleRow
upsert_rule owner rule rows =
    if exists_where (λ x. has_rule_id rule.id x.rule) rows
    then update_where (λ x. has_rule_id rule.id x.rule) (revise_row rule) rows
    else rows ++ record { user_id = owner; rule = rule } ∷ []

-- A run of the rule that has not started.
abbrev pub is_unstarted : Text → Text → RunRow → Bool
is_unstarted owner rule r =
    text_eq r.user_id owner
    && text_eq r.rule_id rule
    && (is_pending r.status || has_failed r.status)

abbrev pub cancel_run : ℕ → RunRow → RunRow
cancel_run now r = record r { status = cancelled; updated_at = now }

abbrev pub is_preview_of : Text → Text → PreviewRow → Bool
is_preview_of owner rule p = text_eq p.user_id owner && text_eq p.rule_id rule

-- The two statements that follow the change of a rule.
abbrev pub drop_work : Text → Text → ℕ → RuleStore → RuleStore
drop_work owner rule now s = record s {
  runs = update_where (is_unstarted owner rule) (cancel_run now) s.runs;
  previews = delete_where (is_preview_of owner rule) s.previews;
}

abbrev pub save_rule :
    Text
    → MailRule
    → List MailRule
    → Bool
    → ℕ
    → RuleStore
    → Result StoreError (Option MailRule × RuleStore)
save_rule owner rule existing is_new now s = do
  fail_if (is_new && leb 100 (length existing)) invalid_content_data
  ok (some rule, drop_work owner rule.id now (record s { rules = upsert_rule owner rule s.rules }))

-- `fresh` is `Uuid::new_v4()`, `to_rfc3339` chrono's. The revision is a `u32` that grows by one at each
-- save; its end at 2^32 is left out.
unfoldable pub save_mail_rule :
    (ℕ → Text)
    → Text
    → Text
    → Option Text
    → MailRuleInput
    → ℕ
    → RuleStore
    → Result StoreError (Option MailRule × RuleStore)
save_mail_rule to_rfc3339 fresh owner id input now s =
    let existing = load_rules owner s in
    let previous = previous_rule id existing in
    let rule = saved_rule (id_or fresh id) input (to_rfc3339 now) previous in
    do
      fail_if (is_some (validate input)) invalid_content_data
      fail_if (not (all (is_owned_account owner s) input.account_ids)) account_not_owned
      if is_some id && not (is_some previous)
          then ok (none, s)
          else save_rule owner rule existing (not (is_some previous)) now s

abbrev pub is_rule_row : Text → Text → RuleRow → Bool
is_rule_row owner id x = text_eq x.user_id owner && has_rule_id id x.rule

unfoldable pub delete_mail_rule : Text → Text → ℕ → RuleStore → Bool × RuleStore
delete_mail_rule owner id now s = (
  ltb 0 (count_where (is_rule_row owner id) s.rules),
  drop_work owner id now (record s { rules = delete_where (is_rule_row owner id) s.rules }),
)
