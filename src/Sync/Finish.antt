-- ===== src/Sync/Finish.antt =====
-- How a worker's job starts and ends in crates/imail-storage-sqlite/src/sync_runtime.rs: mark_started,
-- complete, fail and cancel. The job that a method takes is the worker's copy of the row that it has
-- claimed. A method that returns an error has rolled its transaction back. The times that the
-- methods compute are in chrono's range.
use i_mail.Base.{
  ℕ, ◌+◌, ◌*◌, max, String, Bool, true, false, not, ◌&&◌, Option, none, some, List, ltb, ◌==◌,
  str_eq,
}
use i_mail.Base.Table.{update_where, delete_where, exists_where, first_where}
use i_mail.Base.Texts.{like_prefix}
use i_mail.Sync.Types.{
  SyncJob, SyncStore, SyncCompletion, SyncFailure, MailboxSyncState, AccountRow, ConnectionStatus,
  connected, unreachable, auth_required, SyncState, idle, working, backoff, paused, Payload,
  started, completed, errored, Result, ok, ◌>>=◌, ◌>>◌, fail_if, invalid_input, succeeded, failed,
  cancelled,
}
use i_mail.Sync.Queue.{insert_job, new_job}
use i_mail.Sync.Leases.{insert_event, new_state, release, require_lease, upsert_state}

abbrev pub start_state : SyncJob → ℕ → MailboxSyncState → MailboxSyncState
start_state job now m = record m {
  mailbox_role = job.mailbox_role;
  last_attempt_at = some now;
  sync_state = working;
  last_error_code = none;
  last_error_message = none;
}

unfoldable pub mark_started : SyncJob → String → ℕ → SyncStore → Result SyncStore
unfolding require_lease insert_event upsert_state
mark_started job mailbox now s = do
  _ ← require_lease job s
  s' ←
      upsert_state
        (new_state job.account_id mailbox job.mailbox_role (some now) 0 connected working)
        (start_state job now) s
  insert_event job (started mailbox job.mailbox_role job.reason) now s'

abbrev pub succeed : SyncCompletion → ℕ → SyncJob → SyncJob
succeed result now j = record j {
  status = succeeded;
  finished_at = some now;
  locked_by = none;
  locked_until = none;
  synced_count = some result.synced;
  new_count = some result.created;
  updated_count = some result.updated;
  deleted_count = some result.deleted;
  error_code = none;
  error_message = none;
  rerun_requested = false;
}

abbrev pub synced_state : SyncJob → SyncCompletion → ℕ → ℕ → MailboxSyncState → MailboxSyncState
synced_state job result next now m = record m {
  mailbox_role = job.mailbox_role;
  uid_validity = result.uid_validity;
  last_seen_uid = result.last_seen_uid;
  highest_modseq = result.highest_modseq;
  last_attempt_at = some now;
  last_success_at = some now;
  next_sync_at = some next;
  consecutive_failures = 0;
  connection_status = connected;
  sync_state = idle;
  last_error_code = none;
  last_error_message = none;
}

-- The states of an account that stood for its roles before their mailboxes were known.
abbrev pub is_role_state : String → String → MailboxSyncState → Bool
is_role_state account mailbox m =
    str_eq m.account_id account && like_prefix "@role:" m.mailbox && not (str_eq m.mailbox mailbox)

abbrev pub is_auth_required : ConnectionStatus → Bool
is_auth_required auth_required = true
is_auth_required _ = false

abbrev pub needs_auth : String → MailboxSyncState → Bool
needs_auth account m = str_eq m.account_id account && is_auth_required m.connection_status

-- ORDER BY last_attempt_at DESC, where NULL comes last.
abbrev pub later_attempt : Option ℕ → Option ℕ → Bool
later_attempt none b = false
later_attempt (some a) none = true
later_attempt (some a) (some b) = ltb b a

abbrev pub attempted_before : MailboxSyncState → MailboxSyncState → Bool
attempted_before a b = later_attempt a.last_attempt_at b.last_attempt_at

abbrev pub error_of : Option MailboxSyncState → Option String
error_of none = none
error_of (some m) = m.last_error_message

abbrev pub refresh_account : String → List MailboxSyncState → AccountRow → AccountRow
refresh_account account states a = record a {
  connected = not (exists_where (needs_auth account) states);
  last_error = error_of (first_where attempted_before (needs_auth account) states);
}

-- A sync that succeeds shows that the account is connected, unless a mailbox waits for authorization.
abbrev pub update_account : String → SyncStore → SyncStore
update_account account s = record s {
  accounts = update_where (λ a. str_eq a.id account) (refresh_account account s.states) s.accounts;
}

-- `fresh` is `Uuid::new_v4()`.
abbrev pub queue_rerun : String → SyncJob → ℕ → Bool → SyncStore → Result SyncStore
queue_rerun fresh job now false s = ok s
queue_rerun fresh job now true s =
    insert_job
      (new_job fresh job.account_id job.mailbox job.mailbox_role "recovery" (max job.priority 50)
        now now)
      s

abbrev pub minutes : ℕ → ℕ
minutes m = m * 60_000

abbrev pub completed_event : SyncJob → SyncCompletion → Payload
completed_event job result =
    completed result.mailbox job.mailbox_role result.synced result.created result.updated
      result.deleted result.message_changes

abbrev pub drop_role_states : String → String → SyncStore → SyncStore
drop_role_states account mailbox s = record s {
  states = delete_where (is_role_state account mailbox) s.states;
}

unfoldable pub complete : String → SyncJob → SyncCompletion → ℕ → ℕ → SyncStore → Result SyncStore
unfolding require_lease insert_event upsert_state release insert_job
complete fresh job result reconciliation_minutes now s = do
  fail_if (reconciliation_minutes == 0) (invalid_input "completion")
  rerun ← require_lease job s
  released ← release job (succeed result now) s
  let change = synced_state job result (now + minutes reconciliation_minutes) now
  upserted ←
      upsert_state
        (change
          (new_state job.account_id result.mailbox job.mailbox_role (some now) 0 connected idle))
        change released
  let refreshed =
      update_account job.account_id (drop_role_states job.account_id result.mailbox upserted)
  logged ← insert_event job (completed_event job result) now refreshed
  queue_rerun fresh job now rerun logged

abbrev pub give_up : SyncFailure → ℕ → SyncJob → SyncJob
give_up failure now j = record j {
  status = failed;
  finished_at = some now;
  locked_by = none;
  locked_until = none;
  error_code = some failure.code;
  error_message = some failure.message;
}

abbrev pub failure_connection : Bool → ConnectionStatus
failure_connection true = auth_required
failure_connection false = unreachable

abbrev pub failure_state : Bool → SyncState
failure_state true = paused
failure_state false = backoff

abbrev pub retry_at : Option ℕ → ℕ → Option ℕ
retry_at none now = none
retry_at (some m) now = some (now + minutes m)

abbrev pub failed_state : SyncFailure → ℕ → MailboxSyncState → MailboxSyncState
failed_state failure now m = record m {
  last_attempt_at = some now;
  next_sync_at = retry_at failure.retry_minutes now;
  consecutive_failures = m.consecutive_failures + 1;
  connection_status = failure_connection failure.auth_required;
  sync_state = failure_state failure.auth_required;
  last_error_code = some failure.code;
  last_error_message = some failure.message;
}

abbrev pub failed_event : SyncJob → SyncFailure → ℕ → Payload
failed_event job failure now =
    errored failure.mailbox job.mailbox_role failure.code failure.message
      (retry_at failure.retry_minutes now)

abbrev pub account_error : String → String → SyncStore → SyncStore
account_error account message s = record s {
  accounts =
      update_where (λ a. str_eq a.id account)
        (λ a. record a { connected = false; last_error = some message }) s.accounts;
}

unfoldable pub fail : SyncJob → SyncFailure → ℕ → SyncStore → Result SyncStore
unfolding insert_event upsert_state release
fail job failure now s = do
  released ← release job (give_up failure now) s
  let new = new_state job.account_id failure.mailbox job.mailbox_role none 0 connected idle
  upserted ← upsert_state (failed_state failure now new) (failed_state failure now) released
  logged ← insert_event job (failed_event job failure now) now upserted
  ok (account_error job.account_id failure.message logged)

abbrev pub abandon : ℕ → SyncJob → SyncJob
abandon now j = record j {
  status = cancelled;
  finished_at = some now;
  locked_by = none;
  locked_until = none;
  error_code = none;
  error_message = none;
}

abbrev pub pause_state : MailboxSyncState → MailboxSyncState
pause_state m = record m { sync_state = paused; next_sync_at = none }

unfoldable pub cancel : SyncJob → String → ℕ → SyncStore → Result SyncStore
unfolding upsert_state release
cancel job mailbox now s = do
  released ← release job (abandon now) s
  upsert_state (new_state job.account_id mailbox job.mailbox_role none 0 connected paused)
      pause_state released
