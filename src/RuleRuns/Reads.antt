-- ===== src/RuleRuns/Reads.antt =====
-- `mail_rule_runs` and `rule_message_muted` of crates/imail-storage-sqlite/src/rules.rs, with `RuleRun` of
-- crates/imail-core/src/rules.rs.
use i_mail.Base.{ℕ, ◌+◌, Bool, not, Option, List, map, length, take, ltb}
use i_mail.Base.Table.{select_where, exists_where}
use i_mail.Base.Sorting.{sort_by}
use i_mail.Base.Texts.{Text, text_eq}
use i_mail.Base.Result.{Result, ok, ◌>>◌, fail_if}
use i_mail.RuleRuns.Types.{
  RuleStore, RunRow, RunStatus, MessageRow, StoreError, account_not_owned, owns,
}
use i_mail.RuleRuns.Matches.{is_muted}

pub record RuleRun : Type 0 where
  pub id : Text
  pub rule_id : Text
  pub rule_name : Text
  pub revision : ℕ
  pub account_id : Text
  pub message_id : Text
  pub source : Text
  pub status : RunStatus
  pub completed_actions : ℕ
  pub total_actions : ℕ
  pub error_code : Option Text
  pub created_at : ℕ
  pub updated_at : ℕ

abbrev pub rule_run : RunRow → RuleRun
rule_run r = record {
  id = r.id;
  rule_id = r.rule_id;
  rule_name = r.rule_name;
  revision = r.revision;
  account_id = r.account_id;
  message_id = r.message_id;
  source = r.source;
  status = r.status;
  completed_actions = r.completed_actions + r.local_actions;
  total_actions = r.local_actions + length r.actions;
  error_code = r.error_code;
  created_at = r.created_at;
  updated_at = r.updated_at;
}

unfoldable pub mail_rule_runs : Text → RuleStore → List RuleRun
mail_rule_runs owner s = map rule_run (
    take 200 (
      sort_by (λ a b. ltb b.sequence a.sequence)
        (select_where (λ r. text_eq r.user_id owner) s.runs)))

unfoldable pub rule_message_muted : Text → MessageRow → RuleStore → Result StoreError Bool
rule_message_muted owner m s = do
  fail_if (not (exists_where (owns owner m.view.account_id) s.accounts)) account_not_owned
  ok (is_muted m s)
