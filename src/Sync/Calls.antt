-- ===== src/Sync/Calls.antt =====
-- The constraints of `sync_jobs` under a claim, a change of a policy, and a run of calls.
use i_mail.Base.{
  ◌∙◌, ◌==◌, Any, All-map, eq_iff, subst, All-refl, ℕ, String, ◌≡◌, refl, sym, true, false, Bool,
  inl, inr, Bool-cases, ◌&&◌, ◌||◌, not, Option, none, some, str_eq, List, [], ◌∷◌, arith,
  &&-eq-true, ◌+◌,
}
use i_mail.Base.Texts.{is_blank, codes}
use i_mail.Base.Table.{find_where, update_where, first_where, count_where}
use i_mail.Base.Selection.{first_where-All, first_where-Any}
use i_mail.Base.Unique.{IsUnique, IsOnly, All-only, update_where-cong}
use i_mail.Sync.Types.{
  SyncJob, SyncStore, SyncPolicy, SyncPolicySettings, Result, ok, err, is_active, is_running,
  is_queued, JobStatus, queued,
}
use i_mail.Sync.Queue.{
  has_id, lock, recover_jobs, is_ready, claim_before, claim_job, claim_next, holds_lease,
  renew_lease, chrono_duration,
}
use i_mail.Sync.Finish.{succeed, give_up, abandon}
use i_mail.Sync.Leases.{is_leased}
use i_mail.Sync.Policies.{
  update_policy, resume_after_authorization, switch, is_waiting_of, cancel_job, policy_is_invalid,
  is_policy_of, or_missing, set_policy,
}
use i_mail.Sync.Unique.{key, clash, IsLockedRight, IsValid}
use i_mail.Sync.Steps.{
  Call, request, claim, renew, start, finish, give_up_on, abort, configure, resume, step, run,
  commit, second,
}
use i_mail.Sync.Returns.{
  Returns, Returns-bind, Returns-any, Returns-guard, Leaves, mark_started-Leaves, complete-Leaves,
  fail-Leaves, cancel-Leaves,
}
use i_mail.Sync.Invariant.{
  IsValid-update, insert_job-IsValid, enqueue-IsValid, recover_jobs-IsValid, queued-is_active,
}

ready-is_queued :
    (now : ℕ) (id : String) (x : SyncJob)
    → (has_id id x && is_ready now x) ≡ true
    → is_queued x.status ≡ true
ready-is_queued now id x h =
    (&&-eq-true (is_queued x.status) _ (&&-eq-true (has_id id x) (is_ready now x) h).1).0

pub holds_lease-running :
    (id : String) (worker : Option String) (x : SyncJob)
    → holds_lease id worker x ≡ true
    → is_running x.status ≡ true
holds_lease-running id worker x h = ground (arith, h)

queued-stopped : (st : JobStatus) → is_queued st ≡ true → is_running st ≡ false
queued-stopped queued h = refl
queued-stopped _ h = cc

new_locked :
    (j : SyncJob) → j.status ≡ queued → j.locked_by ≡ none → j.locked_until ≡ none → IsLockedRight j
new_locked j e b u = rw (e, b, u) (refl, refl)

waiting-locked :
    (account : String) (now : ℕ) (x : SyncJob)
    → is_waiting_of account x ≡ true
    → IsLockedRight x
    → IsLockedRight (cancel_job now x)
waiting-locked account now x t l =
    let q = (&&-eq-true (str_eq x.account_id account) (is_queued x.status) t).1 in
    let e = queued-stopped x.status q in (sym e ∙ l.0, sym e ∙ l.1)

-- The update of the row that was selected by its test, by the identifier of the row.
by_id :
    (q : SyncJob → Bool) (j x : SyncJob)
    → q j ≡ true
    → (has_id j.id x ≡ true → x ≡ j)
    → has_id j.id x ≡ (has_id j.id x && q x)
by_id q j x t h = elim (Bool-cases (has_id j.id x)) [
  | inl e ↦ rw (e, h e, t) refl
  | inr e ↦ rw e refl
]

pub has_id-IsOnly : (j : SyncJob) → IsOnly clash (has_id j.id) j
has_id-IsOnly j y t = ground (arith, t, eq_iff y.id j.id, eq_iff j.id y.id)

pub lock-by_id :
    (q : SyncJob → Bool) (f : SyncJob → SyncJob) (j : SyncJob) (jobs : List SyncJob)
    → q j ≡ true
    → IsUnique clash jobs
    → Any (λ y. y ≡ j) jobs
    → update_where (has_id j.id) f jobs ≡ update_where (λ x. has_id j.id x && q x) f jobs
lock-by_id q f j jobs t u m =
    update_where-cong (has_id j.id) (λ x. has_id j.id x && q x) f jobs
      (All-map (λ x. has_id j.id x ≡ true → x ≡ j) (λ x. has_id j.id x ≡ (has_id j.id x && q x))
        (λ x h. by_id q j x t h) jobs (All-only clash (has_id j.id) j jobs (has_id-IsOnly j) u m))

pub claim_job-IsValid :
    (worker_id : String) (until now : ℕ) (s : SyncStore) (o : Option SyncJob)
    → first_where claim_before (is_ready now) s.jobs ≡ o
    → IsValid s.jobs
    → IsValid (claim_job worker_id until now o s).1.jobs
claim_job-IsValid worker_id until now s none e h = h
claim_job-IsValid worker_id until now s (some j) e h =
    let ready =
      first_where-All (λ x. x ≡ x) (is_ready now) claim_before s.jobs j (All-refl s.jobs) e in
    let m = first_where-Any claim_before (is_ready now) s.jobs j e in
    subst IsValid
      (sym (lock-by_id (is_ready now) (lock worker_id until now) j s.jobs ready.1 h.0 m))
      (IsValid-update (λ x. has_id j.id x && is_ready now x) (lock worker_id until now) s.jobs
        (λ x t. (refl, λ _. queued-is_active x.status (ready-is_queued now j.id x t)))
        (λ x t l. (refl, refl)) h)

pub claim_next-IsValid :
    (worker_id : String) (lease now : ℕ) (s : SyncStore)
    → IsValid s.jobs
    → Returns (λ r. IsValid r.1.jobs) (claim_next worker_id lease now s)
unfolding claim_next
claim_next-IsValid worker_id lease now s h =
    let Kept = λ (r : Option SyncJob × SyncStore). IsValid r.1.jobs in
    Returns-guard Kept (is_blank (codes worker_id) || lease == 0) _ _ (λ _.
      Returns-bind (λ _. Unit {0}) Kept (chrono_duration lease) _ (Returns-any _)
        (λ d _.
          claim_job-IsValid worker_id (now + d) now (record s { jobs = recover_jobs now s.jobs })
            (first_where claim_before (is_ready now) (recover_jobs now s.jobs)) refl
            (recover_jobs-IsValid now s.jobs h)))

renew_lease-IsValid :
    (job_id worker_id : String) (lease now : ℕ) (s : SyncStore)
    → IsValid s.jobs
    → Returns (λ r. IsValid r.1.jobs) (renew_lease job_id worker_id lease now s)
unfolding renew_lease
renew_lease-IsValid job_id worker_id lease now s h =
    Returns-bind (λ _. Unit {0}) (λ r. IsValid r.1.jobs) (chrono_duration lease) _ (Returns-any _)
      (λ d _.
        IsValid-update (holds_lease job_id (some worker_id)) _ s.jobs (λ x t. (refl, λ a. a))
          (λ x t l. (l.0, holds_lease-running job_id (some worker_id) x t)) h)

-- What ends a lease leaves the row inactive and unlocked.
ends-IsValid :
    (job : SyncJob) (f : SyncJob → SyncJob) (jobs : List SyncJob)
    → ((x : SyncJob) → (key (f x) ≡ key x) × (is_active (f x).status ≡ false))
    → ((x : SyncJob) → IsLockedRight (f x))
    → IsValid jobs
    → IsValid (update_where (is_leased job) f jobs)
ends-IsValid job f jobs k l h =
    IsValid-update (is_leased job) f jobs
      (λ x t. ((k x).0, λ a. (let e : ◌≡◌ {A = Bool} true false = sym a ∙ (k x).1 in cc)))
      (λ x t _. l x) h

switch-IsValid :
    (enabled : Bool) (account : String) (now : ℕ) (s : SyncStore)
    → IsValid s.jobs
    → IsValid (switch enabled account now s).jobs
switch-IsValid true account now s h = h
switch-IsValid false account now s h =
    IsValid-update (is_waiting_of account) (cancel_job now) s.jobs (λ x t. (refl, λ a. cc))
      (λ x t l. waiting-locked account now x t l) h

update_policy-IsValid :
    (account : String) (settings : SyncPolicySettings) (now : ℕ) (s : SyncStore)
    → IsValid s.jobs
    → Returns (λ r. IsValid r.1.jobs) (update_policy account settings now s)
unfolding update_policy
update_policy-IsValid account settings now s h =
    let Kept = λ (r : SyncPolicy × SyncStore). IsValid r.1.jobs in
    Returns-guard Kept (policy_is_invalid settings) _ _ (λ _.
      Returns-guard Kept (not (count_where (is_policy_of account) s.policies == 1)) _ _ (λ _.
        let written = record s {
          policies = update_where (is_policy_of account) (set_policy settings now) s.policies;
        } in
        let switched = switch settings.enabled account now written in
        let found = or_missing (find_where (is_policy_of account) switched.policies) in
        Returns-bind (λ _. Unit {0}) Kept found (λ p. ok (p, switched)) (Returns-any found)
          (λ p _. switch-IsValid settings.enabled account now written h)))

commit-IsValid :
    (m : Result SyncStore) (s : SyncStore)
    → Leaves IsValid m
    → IsValid s.jobs
    → IsValid (commit m s).jobs
commit-IsValid (ok a) s h k = h
commit-IsValid (err e) s h k = k

second-IsValid :
    {A : Type 0} (m : Result (A × SyncStore))
    → Returns (λ r. IsValid r.1.jobs) m
    → Leaves IsValid (second m)
second-IsValid (ok (a, b)) h = h
second-IsValid (err e) h = tt

pub step-IsValid : (c : Call) (s : SyncStore) → IsValid s.jobs → IsValid (step c s).jobs
unfolding resume_after_authorization
step-IsValid (request fresh input now) s h =
    commit-IsValid _ s (second-IsValid _ (enqueue-IsValid fresh input now s h)) h
step-IsValid (claim worker_id lease now) s h =
    commit-IsValid _ s (second-IsValid _ (claim_next-IsValid worker_id lease now s h)) h
step-IsValid (renew job_id worker_id lease now) s h =
    commit-IsValid _ s (second-IsValid _ (renew_lease-IsValid job_id worker_id lease now s h)) h
step-IsValid (start job mailbox now) s h =
    commit-IsValid _ s (mark_started-Leaves IsValid job mailbox now s h) h
step-IsValid (finish fresh job result minutes now) s h =
    commit-IsValid _ s
      (complete-Leaves IsValid (λ j s' e b u k. insert_job-IsValid j s' (new_locked j e b u) k)
        fresh job result minutes now s
        (ends-IsValid job (succeed result now) s.jobs (λ x. (refl, refl)) (λ x. (refl, refl)) h))
      h
step-IsValid (give_up_on job failure now) s h =
    commit-IsValid _ s
      (fail-Leaves IsValid job failure now s
        (ends-IsValid job (give_up failure now) s.jobs (λ x. (refl, refl)) (λ x. (refl, refl)) h))
      h
step-IsValid (abort job mailbox now) s h =
    commit-IsValid _ s
      (cancel-Leaves IsValid job mailbox now s
        (ends-IsValid job (abandon now) s.jobs (λ x. (refl, refl)) (λ x. (refl, refl)) h))
      h
step-IsValid (configure account settings now) s h =
    commit-IsValid _ s (second-IsValid _ (update_policy-IsValid account settings now s h)) h
step-IsValid (resume account now) s h = h

-- Where no two rows of `sync_jobs` clash and each row is locked exactly while it runs, this is so
-- after any run of calls: identifiers stay distinct, a target has at most one job that is queued or
-- running, and a lease stands on the running rows alone.
pub run_jobs-IsValid : (cs : List Call) (s : SyncStore) → IsValid s.jobs → IsValid (run cs s).jobs
run_jobs-IsValid [] s h = h
run_jobs-IsValid (c ∷ cs) s h = run_jobs-IsValid cs (step c s) (step-IsValid c s h)
