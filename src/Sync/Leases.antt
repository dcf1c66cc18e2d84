-- ===== src/Sync/Leases.antt =====
-- The statements that the methods on a leased job share in
-- crates/imail-storage-sqlite/src/sync_runtime.rs: require_lease, insert_event, the upsert of a mailbox
-- state, and the UPDATE of the leased row.
use i_mail.Base.{
  ℕ, String, Bool, not, ◌&&◌, ◌||◌, Option, none, some, [], ◌∷◌, ◌++◌, ◌==◌, if◌then◌else◌, str_eq,
}
use i_mail.Base.Table.{update_where, count_where, find_where, exists_where}
use i_mail.Sync.Types.{
  SyncJob, SyncStore, SyncEvent, MailboxSyncState, ConnectionStatus, SyncState, Payload, Result, ok,
  err, ◌>>◌, fail_if, lease_lost, sqlite,
}
use i_mail.Sync.Queue.{holds_lease}

abbrev pub or_lease_lost : Option SyncJob → Result Bool
or_lease_lost none = err lease_lost
or_lease_lost (some j) = ok j.rerun_requested

abbrev pub is_leased : SyncJob → SyncJob → Bool
is_leased job = holds_lease job.id job.locked_by

unfoldable pub require_lease : SyncJob → SyncStore → Result Bool
require_lease job s = or_lease_lost (find_where (is_leased job) s.jobs)

abbrev pub account_exists : String → SyncStore → Bool
account_exists account s = exists_where (λ a. str_eq a.id account) s.accounts

abbrev pub event : SyncJob → Payload → ℕ → SyncEvent
event job payload now = record {
  account_id = job.account_id;
  job_id = job.id;
  payload = payload;
  created_at = now;
}

-- The event's account and job are foreign keys.
unfoldable pub insert_event : SyncJob → Payload → ℕ → SyncStore → Result SyncStore
insert_event job payload now s = do
  fail_if
      (not (account_exists job.account_id s) || not (exists_where (λ j. str_eq j.id job.id) s.jobs))
      sqlite
  ok (record s { events = s.events ++ event job payload now ∷ [] })

abbrev pub is_state : String → String → MailboxSyncState → Bool
is_state account mailbox m = str_eq m.account_id account && str_eq m.mailbox mailbox

-- INSERT … ON CONFLICT(account_id,mailbox) DO UPDATE: the new row's account is a foreign key.
unfoldable pub upsert_state :
    MailboxSyncState → (MailboxSyncState → MailboxSyncState) → SyncStore → Result SyncStore
upsert_state new change s =
    let hit = is_state new.account_id new.mailbox in
    if exists_where hit s.states
    then ok (record s { states = update_where hit change s.states })
    else (do
      fail_if (not (account_exists new.account_id s)) sqlite
      ok (record s { states = s.states ++ new ∷ [] }))

-- A row with the columns that every INSERT names, and the defaults of the others.
abbrev pub new_state :
    String → String → String → Option ℕ → ℕ → ConnectionStatus → SyncState → MailboxSyncState
new_state account mailbox role attempt failures connection state = record {
  account_id = account;
  mailbox = mailbox;
  mailbox_role = role;
  uid_validity = none;
  last_seen_uid = 0;
  highest_modseq = none;
  last_attempt_at = attempt;
  last_success_at = none;
  next_sync_at = none;
  consecutive_failures = failures;
  connection_status = connection;
  sync_state = state;
  last_error_code = none;
  last_error_message = none;
}

-- The UPDATE of the leased row; any other number of rows than one rolls back.
unfoldable pub release : SyncJob → (SyncJob → SyncJob) → SyncStore → Result SyncStore
release job change s = do
  fail_if (not (count_where (is_leased job) s.jobs == 1)) lease_lost
  ok (record s { jobs = update_where (is_leased job) change s.jobs })
