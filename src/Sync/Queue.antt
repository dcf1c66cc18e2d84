-- ===== src/Sync/Queue.antt =====
-- The job queue of crates/imail-storage-sqlite/src/sync_runtime.rs: enqueue, claim and renewal of a
-- lease. A method that returns an error has rolled its transaction back.
use i_mail.Base.{
  ℕ, ◌+◌, max, min, String, Bool, true, false, not, ◌&&◌, ◌||◌, Option, none, some, List, [], ◌∷◌,
  ◌++◌, ltb, leb, ◌==◌, if◌then◌else◌, sql_eq, str_eq,
}
use i_mail.Base.Table.{update_where, count_where, find_where, exists_where, first_where}
use i_mail.Base.Texts.{codes, is_blank}
use i_mail.Sync.Types.{
  SyncJob, SyncStore, SyncEnqueue, Result, ok, err, ◌>>=◌, ◌>>◌, fail_if, sqlite, invalid_input,
  queued, running, is_queued, is_running, active_target,
}

abbrev pub is_reason : String → Bool
is_reason r = str_eq r "scheduled" || str_eq r "startup" || str_eq r "manual" || str_eq r "recovery"

abbrev pub enqueue_is_invalid : SyncEnqueue → Bool
enqueue_is_invalid input =
    str_eq input.account_id "" || not (is_reason input.reason) || str_eq input.mailbox_role ""

abbrev pub validate_enqueue : SyncEnqueue → Result (Unit {0})
validate_enqueue input = fail_if (enqueue_is_invalid input) (invalid_input "enqueue")

abbrev pub new_job : String → String → Option String → String → String → ℕ → ℕ → ℕ → SyncJob
new_job id account mailbox role reason priority not_before now = record {
  id = id;
  account_id = account;
  mailbox = mailbox;
  mailbox_role = role;
  reason = reason;
  status = queued;
  priority = priority;
  not_before = not_before;
  locked_by = none;
  locked_until = none;
  attempts = 0;
  created_at = now;
  started_at = none;
  finished_at = none;
  synced_count = none;
  new_count = none;
  updated_count = none;
  deleted_count = none;
  error_code = none;
  error_message = none;
  rerun_requested = false;
}

abbrev pub has_id : String → SyncJob → Bool
has_id id j = str_eq j.id id

-- INSERT INTO sync_jobs of a queued job, under the constraints of the schema: the account exists,
-- the identifier is new, and no active job has the target.
abbrev pub breaks_schema : SyncJob → SyncStore → Bool
breaks_schema j s =
    not (exists_where (λ a. str_eq a.id j.account_id) s.accounts)
    || exists_where (has_id j.id) s.jobs
    || exists_where (active_target j.account_id j.mailbox j.mailbox_role) s.jobs

unfoldable pub insert_job : SyncJob → SyncStore → Result SyncStore
insert_job j s = do fail_if (breaks_schema j s) sqlite; ok (record s { jobs = s.jobs ++ j ∷ [] })

-- SELECT … FROM sync_jobs WHERE id=?1
abbrev pub job_by_id : String → SyncStore → Option SyncJob
job_by_id id s = find_where (has_id id) s.jobs

abbrev pub or_sqlite : {A : Type 0} → Option A → Result A
or_sqlite none = err sqlite
or_sqlite (some a) = ok a

abbrev pub request_rerun : ℕ → SyncJob → SyncJob
request_rerun priority j = record j { rerun_requested = true; priority = max j.priority priority }

abbrev pub hasten : ℕ → ℕ → SyncJob → SyncJob
hasten priority not_before j = record j {
  priority = max j.priority priority;
  not_before = min j.not_before not_before;
}

-- The UPDATE of an active job that the request coincides with.
abbrev pub coincide : SyncEnqueue → ℕ → SyncJob → SyncStore → SyncStore
coincide input not_before j s = record s {
  jobs =
      if is_running j.status
      then update_where (has_id j.id) (request_rerun input.priority) s.jobs
      else update_where (has_id j.id) (hasten input.priority not_before) s.jobs;
}

abbrev pub created_before : SyncJob → SyncJob → Bool
created_before a b = ltb a.created_at b.created_at

abbrev pub get_or : Option ℕ → ℕ → ℕ
get_or none d = d
get_or (some n) d = n

-- `fresh` is `Uuid::new_v4()`.
abbrev pub enqueue_job :
    String → SyncEnqueue → ℕ → Option SyncJob → SyncStore → Result (String × SyncStore)
enqueue_job fresh input now (some j) s = ok (j.id, coincide input (get_or input.not_before now) j s)
enqueue_job fresh input now none s = do
  s' ←
      insert_job
        (new_job fresh input.account_id input.mailbox input.mailbox_role input.reason input.priority
          (get_or input.not_before now) now)
        s
  ok (fresh, s')

unfoldable pub enqueue : String → SyncEnqueue → ℕ → SyncStore → Result (SyncJob × SyncStore)
unfolding insert_job
enqueue fresh input now s = do
  validate_enqueue input
  (id, s') ←
      enqueue_job fresh input now
        (first_where created_before
          (active_target input.account_id input.mailbox input.mailbox_role) s.jobs)
        s
  job ← or_sqlite (job_by_id id s')
  ok (job, s')

-- `Duration::from_std` of chrono, which holds at most i64::MAX milliseconds.
abbrev pub chrono_duration : ℕ → Result ℕ
chrono_duration lease = do
  fail_if (ltb 9_223_372_036_854_775_807 lease) (invalid_input "lease")
  ok lease

abbrev pub lease_expired : ℕ → SyncJob → Bool
lease_expired now j =
    is_running j.status && elim j.locked_until [ none ↦ false | some until ↦ leb until now ]

abbrev pub requeue : SyncJob → SyncJob
requeue j = record j { status = queued; locked_by = none; locked_until = none }

abbrev pub recover_jobs : ℕ → List SyncJob → List SyncJob
recover_jobs now jobs = update_where (lease_expired now) requeue jobs

-- ORDER BY priority DESC,created_at ASC
abbrev pub claim_before : SyncJob → SyncJob → Bool
claim_before a b =
    ltb b.priority a.priority || (a.priority == b.priority && ltb a.created_at b.created_at)

abbrev pub is_ready : ℕ → SyncJob → Bool
is_ready now j = is_queued j.status && leb j.not_before now

abbrev coalesce : Option ℕ → ℕ → Option ℕ
coalesce none n = some n
coalesce (some t) n = some t

abbrev pub lock : String → ℕ → ℕ → SyncJob → SyncJob
lock worker_id until now j = record j {
  status = running;
  locked_by = some worker_id;
  locked_until = some until;
  attempts = j.attempts + 1;
  started_at = coalesce j.started_at now;
}

abbrev pub claim_job : String → ℕ → ℕ → Option SyncJob → SyncStore → Option SyncJob × SyncStore
claim_job worker_id until now none s = (none, s)
claim_job worker_id until now (some j) s =
    let s' = record s { jobs = update_where (has_id j.id) (lock worker_id until now) s.jobs } in
    (job_by_id j.id s', s')

unfoldable pub claim_next : String → ℕ → ℕ → SyncStore → Result (Option SyncJob × SyncStore)
unfolding is_blank
claim_next worker_id lease now s = do
  fail_if (is_blank (codes worker_id) || lease == 0) (invalid_input "worker_id/lease")
  duration ← chrono_duration lease
  let jobs = recover_jobs now s.jobs
  ok (
      claim_job worker_id (now + duration) now (first_where claim_before (is_ready now) jobs)
        (record s { jobs = jobs }))

-- WHERE id=?2 AND status='running' AND locked_by=?3
abbrev pub holds_lease : String → Option String → SyncJob → Bool
holds_lease id worker j = has_id id j && is_running j.status && sql_eq j.locked_by worker

unfoldable pub renew_lease : String → String → ℕ → ℕ → SyncStore → Result (Bool × SyncStore)
renew_lease job_id worker_id lease now s = do
  duration ← chrono_duration lease
  let hit = holds_lease job_id (some worker_id)
  ok (
    count_where hit s.jobs == 1,
    record s {
      jobs = update_where hit (λ j. record j { locked_until = some (now + duration) }) s.jobs;
    },
  )
