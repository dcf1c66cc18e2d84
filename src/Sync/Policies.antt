-- ===== src/Sync/Policies.antt =====
-- The policies of crates/imail-storage-sqlite/src/sync_runtime.rs: update_policy and
-- resume_after_authorization.
use i_mail.Base.{
  ℕ, String, Bool, true, false, not, ◌&&◌, ◌||◌, Option, none, some, any, ◌==◌, str_eq,
}
use i_mail.Base.Table.{update_where, count_where, find_where}
use i_mail.Base.Texts.{codes, is_blank}
use i_mail.Sync.Types.{
  SyncJob, SyncStore, SyncPolicy, SyncPolicySettings, MailboxSyncState, connected, SyncState, idle,
  paused, cancelled, is_queued, Result, ok, err, ◌>>=◌, ◌>>◌, fail_if, invalid_input,
}
use i_mail.Sync.Finish.{needs_auth}

abbrev pub is_folder_mode : String → Bool
is_folder_mode m = str_eq m "inbox" || str_eq m "standard" || str_eq m "selected"

unfoldable pub policy_is_invalid : SyncPolicySettings → Bool
unfolding is_blank
policy_is_invalid p =
    not (is_folder_mode p.folder_mode) || any (λ m. is_blank (codes m)) p.selected_mailboxes

abbrev pub validate_policy : SyncPolicySettings → Result (Unit {0})
validate_policy p = fail_if (policy_is_invalid p) (invalid_input "policy")

abbrev pub is_policy_of : String → SyncPolicy → Bool
is_policy_of account p = str_eq p.account_id account

abbrev pub set_policy : SyncPolicySettings → ℕ → SyncPolicy → SyncPolicy
set_policy settings now p = record p {
  enabled = settings.enabled;
  folder_mode = settings.folder_mode;
  selected_mailboxes = settings.selected_mailboxes;
  notify_on_error = settings.notify_on_error;
  updated_at = now;
}

abbrev pub unpause : SyncState → SyncState
unpause paused = idle
unpause s = s

abbrev pub unpause_state : MailboxSyncState → MailboxSyncState
unpause_state m = record m { sync_state = unpause m.sync_state }

abbrev pub stop_state : MailboxSyncState → MailboxSyncState
stop_state m = record m { sync_state = paused; next_sync_at = none }

abbrev pub is_waiting_of : String → SyncJob → Bool
is_waiting_of account j = str_eq j.account_id account && is_queued j.status

abbrev pub cancel_job : ℕ → SyncJob → SyncJob
cancel_job now j = record j { status = cancelled; finished_at = some now }

abbrev pub is_state_of : String → MailboxSyncState → Bool
is_state_of account m = str_eq m.account_id account

abbrev pub switch : Bool → String → ℕ → SyncStore → SyncStore
switch true account now s = record s {
  states = update_where (is_state_of account) unpause_state s.states;
}
switch false account now s = record s {
  jobs = update_where (is_waiting_of account) (cancel_job now) s.jobs;
  states = update_where (is_state_of account) stop_state s.states;
}

abbrev pub or_missing : Option SyncPolicy → Result SyncPolicy
or_missing none = err (invalid_input "account policy missing")
or_missing (some p) = ok p

unfoldable pub update_policy :
    String → SyncPolicySettings → ℕ → SyncStore → Result (SyncPolicy × SyncStore)
update_policy account settings now s = do
  validate_policy settings
  fail_if (not (count_where (is_policy_of account) s.policies == 1))
      (invalid_input "account policy missing")
  let written = record s {
    policies = update_where (is_policy_of account) (set_policy settings now) s.policies;
  }
  let switched = switch settings.enabled account now written
  policy ← or_missing (find_where (is_policy_of account) switched.policies)
  ok (policy, switched)

abbrev pub resume_state : ℕ → MailboxSyncState → MailboxSyncState
resume_state now m = record m {
  connection_status = connected;
  sync_state = idle;
  next_sync_at = some now;
  consecutive_failures = 0;
  last_error_code = none;
  last_error_message = none;
}

unfoldable pub resume_after_authorization : String → ℕ → SyncStore → ℕ × SyncStore
resume_after_authorization account now s = (
  count_where (needs_auth account) s.states,
  record s { states = update_where (needs_auth account) (resume_state now) s.states },
)
