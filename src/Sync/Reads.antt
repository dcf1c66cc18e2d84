-- ===== src/Sync/Reads.antt =====
-- The reads of crates/imail-storage-sqlite/src/sync_runtime.rs over jobs, states and policies, and the
-- heartbeats of the workers in the table `sync_worker_heartbeats`.
use i_mail.Base.{
  ℕ, ◌+◌, ◌*◌, String, Bool, not, ◌&&◌, ◌||◌, Option, none, some, List, [], ◌∷◌, ◌++◌, ltb, ◌==◌,
  if◌then◌else◌, str_eq, take, text_lt, map,
}
use i_mail.Base.Table.{
  update_where, delete_where, select_where, exists_where, find_where, first_where, count_where,
}
use i_mail.Base.Sorting.{sort_by}
use i_mail.Base.Texts.{like_prefix}
use i_mail.Sync.Types.{
  SyncJob, SyncStore, MailboxSyncState, SyncPolicy, Result, ok, ◌>>◌, fail_if, invalid_input,
  is_queued,
}
use i_mail.Sync.Finish.{later_attempt}
use i_mail.Sync.Leases.{is_state, account_exists}

-- The rows from the last one inserted to the first.
abbrev pub newest_rows : List SyncJob → List SyncJob
newest_rows [] = []
newest_rows (j ∷ js) = newest_rows js ++ j ∷ []

abbrev pub is_job_of : String → SyncJob → Bool
is_job_of account j = str_eq j.account_id account

abbrev pub is_newer : SyncJob → SyncJob → Bool
is_newer a b = ltb b.created_at a.created_at

abbrev pub is_bad_page : String → ℕ → Bool
is_bad_page account limit = str_eq account "" || limit == 0 || ltb 500 limit

unfoldable pub account_jobs : String → ℕ → SyncStore → Result (List SyncJob)
account_jobs account limit s = do
  fail_if (is_bad_page account limit) (invalid_input "account jobs")
  ok (take limit (sort_by is_newer (select_where (is_job_of account) (newest_rows s.jobs))))

unfoldable pub account_mailbox_states : String → SyncStore → Result (List MailboxSyncState)
account_mailbox_states account s = do
  fail_if (str_eq account "") (invalid_input "account states")
  ok (
      sort_by (λ a b. text_lt a.mailbox b.mailbox)
        (select_where (λ m. str_eq m.account_id account) s.states))

unfoldable pub mailbox_state : String → String → SyncStore → Option MailboxSyncState
mailbox_state account mailbox s = find_where (is_state account mailbox) s.states

abbrev pub is_target_mailbox : Option String → String → MailboxSyncState → Bool
is_target_mailbox none role m = str_eq m.mailbox_role role
is_target_mailbox (some mailbox) role m = str_eq m.mailbox mailbox

abbrev pub is_placeholder : MailboxSyncState → Bool
is_placeholder m = like_prefix "@role:" m.mailbox

-- ORDER BY CASE WHEN mailbox LIKE '@role:%' THEN 1 ELSE 0 END, last_success_at DESC
abbrev pub is_better_state : MailboxSyncState → MailboxSyncState → Bool
is_better_state a b =
    (not (is_placeholder a) && is_placeholder b)
    || (not (is_placeholder a && not (is_placeholder b))
        && later_attempt a.last_success_at b.last_success_at)

unfoldable pub mailbox_state_for_target :
    String → Option String → String → SyncStore → Option MailboxSyncState
mailbox_state_for_target account mailbox role s =
    first_where is_better_state
      (λ m. str_eq m.account_id account && is_target_mailbox mailbox role m) s.states

unfoldable pub enabled_sync_account_ids : SyncStore → List String
enabled_sync_account_ids s = sort_by text_lt (
    map SyncPolicy.account_id
      (select_where (λ p. p.enabled && account_exists p.account_id s) s.policies))

-- A row of `sync_worker_heartbeats`.
pub record SyncWorker : Type 0 where
  pub worker_id : String
  pub process_id : ℕ
  pub host_name : String
  pub started_at : ℕ
  pub heartbeat_at : ℕ

pub record SyncWorkerHealth : Type 0 where
  pub workers : List SyncWorker
  pub queued_jobs : ℕ
  pub oldest_queued_at : Option ℕ

abbrev pub worker_stale_ms : ℕ
worker_stale_ms = 60 * 1_000

abbrev pub is_worker : String → SyncWorker → Bool
is_worker worker_id w = str_eq w.worker_id worker_id

abbrev pub beat : ℕ → SyncWorker → SyncWorker
beat now w = record w { heartbeat_at = now }

-- heartbeat_at < now - WORKER_STALE_SECONDS, without the subtraction.
abbrev pub is_stale : ℕ → SyncWorker → Bool
is_stale now w = ltb (w.heartbeat_at + worker_stale_ms) now

-- INSERT … ON CONFLICT(worker_id) DO UPDATE
abbrev pub upsert_worker : SyncWorker → List SyncWorker → List SyncWorker
upsert_worker new workers =
    if exists_where (is_worker new.worker_id) workers
    then update_where (is_worker new.worker_id) (beat new.heartbeat_at) workers
    else workers ++ new ∷ []

-- The argument holds the identifier, the process, the host, the start and the time of the call.
unfoldable pub heartbeat : SyncWorker → List SyncWorker → List SyncWorker
heartbeat new workers = delete_where (is_stale new.heartbeat_at) (upsert_worker new workers)

unfoldable pub remove_heartbeat : String → List SyncWorker → List SyncWorker
remove_heartbeat worker_id workers = delete_where (is_worker worker_id) workers

abbrev pub created_at_of : Option SyncJob → Option ℕ
created_at_of none = none
created_at_of (some j) = some j.created_at

unfoldable pub worker_health : ℕ → List SyncWorker → SyncStore → SyncWorkerHealth
worker_health now workers s = record {
  workers =
      sort_by (λ a b. ltb b.heartbeat_at a.heartbeat_at)
        (select_where (λ w. not (is_stale now w)) workers);
  queued_jobs = count_where (λ j. is_queued j.status) s.jobs;
  oldest_queued_at =
      created_at_of
        (first_where (λ a b. ltb a.created_at b.created_at) (λ j. is_queued j.status) s.jobs);
}
