-- ===== src/Sync/Steps.antt =====
-- The calls that the scheduler and the workers make on the sync store, as one step function: a run
-- is a list of calls in the order in which their transactions commit.
use i_mail.Base.{ℕ, String, List, [], ◌∷◌}
use i_mail.Sync.Types.{
  SyncJob, SyncStore, SyncEnqueue, SyncCompletion, SyncFailure, SyncPolicySettings, Result, ok, err,
}
use i_mail.Sync.Queue.{enqueue, claim_next, renew_lease}
use i_mail.Sync.Finish.{mark_started, complete, fail, cancel}
use i_mail.Sync.Policies.{update_policy, resume_after_authorization}

pub data Call : Type 0 where
  request : (fresh : String) → (input : SyncEnqueue) → (now : ℕ) → Call
  claim : (worker_id : String) → (lease now : ℕ) → Call
  renew : (job_id worker_id : String) → (lease now : ℕ) → Call
  start : (job : SyncJob) → (mailbox : String) → (now : ℕ) → Call
  finish : (fresh : String) → (job : SyncJob) → (result : SyncCompletion) → (minutes now : ℕ) → Call
  give_up_on : (job : SyncJob) → (failure : SyncFailure) → (now : ℕ) → Call
  abort : (job : SyncJob) → (mailbox : String) → (now : ℕ) → Call
  configure : (account : String) → (settings : SyncPolicySettings) → (now : ℕ) → Call
  resume : (account : String) → (now : ℕ) → Call

-- The store after a call that may fail: an error has rolled the transaction back.
abbrev pub commit : Result SyncStore → SyncStore → SyncStore
commit (ok s') s = s'
commit (err e) s = s

abbrev pub second : {A : Type 0} → Result (A × SyncStore) → Result SyncStore
second (ok (a, s)) = ok s
second (err e) = err e

abbrev pub step : Call → SyncStore → SyncStore
step (request fresh input now) s = commit (second (enqueue fresh input now s)) s
step (claim worker_id lease now) s = commit (second (claim_next worker_id lease now s)) s
step (renew job_id worker_id lease now) s =
    commit (second (renew_lease job_id worker_id lease now s)) s
step (start job mailbox now) s = commit (mark_started job mailbox now s) s
step (finish fresh job result minutes now) s = commit (complete fresh job result minutes now s) s
step (give_up_on job failure now) s = commit (fail job failure now s) s
step (abort job mailbox now) s = commit (cancel job mailbox now s) s
step (configure account settings now) s = commit (second (update_policy account settings now s)) s
step (resume account now) s = (resume_after_authorization account now s).1

abbrev pub run : List Call → SyncStore → SyncStore
run [] s = s
run (c ∷ cs) s = run cs (step c s)
