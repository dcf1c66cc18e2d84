-- ===== src/Sync/Ended.antt =====
-- The rows of one identifier in `sync_jobs` that are over, under a run of calls.
use i_mail.Base.{
  ℕ, ◌+◌, String, ◌≡◌, refl, subst, true, false, Bool, not, ◌||◌, Option, none, some, str_eq,
  str_eq_sound, List, [], ◌∷◌, All-Any, All-refl, contradict, arith, ◌==◌,
}
use i_mail.Base.Texts.{is_blank, codes}
use i_mail.Base.Table.{update_where, find_where, count_where, first_where}
use i_mail.Base.Selection.{first_where-Any, first_where-All}
use i_mail.Sync.Types.{
  SyncJob, SyncStore, SyncPolicy, SyncPolicySettings, Result, ok, err, is_active,
}
use i_mail.Sync.Queue.{
  has_id, lock, recover_jobs, lease_expired, requeue, is_ready, claim_before, claim_job, claim_next,
  chrono_duration, renew_lease, holds_lease,
}
use i_mail.Sync.Finish.{succeed, give_up, abandon}
use i_mail.Sync.Leases.{is_leased}
use i_mail.Sync.Policies.{
  update_policy, resume_after_authorization, switch, is_waiting_of, cancel_job, policy_is_invalid,
  is_policy_of, or_missing, set_policy,
}
use i_mail.Sync.Steps.{
  Call, request, claim, renew, start, finish, give_up_on, abort, configure, resume, step, run,
  commit, second,
}
use i_mail.Sync.Returns.{
  Returns, Returns-bind, Returns-any, Returns-guard, Leaves, mark_started-Leaves, complete-Leaves,
  fail-Leaves, cancel-Leaves,
}
use i_mail.Sync.Over.{
  IsOver, IsStill, IsOver-update, IsOver-active, insert_job-IsOver, enqueue-IsOver,
}

module _ (id : String) where
  recover_jobs-IsOver :
      (now : ℕ) (jobs : List SyncJob) → (IsOver id) jobs → (IsOver id) (recover_jobs now jobs)
  recover_jobs-IsOver now jobs h =
      IsOver-active id (lease_expired now) requeue jobs (λ x. refl) (λ x t. expired-active now x t)
        h
    where
      expired-active :
          (now : ℕ) (x : SyncJob) → lease_expired now x ≡ true → is_active x.status ≡ true
      expired-active now x t = ground (arith, t)

  claim_job-IsOver :
      (worker : String) (until now : ℕ) (s : SyncStore) (o : Option SyncJob)
      → first_where claim_before (is_ready now) s.jobs ≡ o
      → (IsOver id) s.jobs
      → (IsOver id) (claim_job worker until now o s).1.jobs
  claim_job-IsOver worker until now s none e h = h
  claim_job-IsOver worker until now s (some j) e h =
      let ready =
        (first_where-All (λ x. x ≡ x) (is_ready now) claim_before s.jobs j (All-refl s.jobs) e).1 in
      let still =
        All-Any (IsStill id) s.jobs j h.0
          (first_where-Any claim_before (is_ready now) s.jobs j e) in
      IsOver-update id (has_id j.id) (lock worker until now) s.jobs (λ x. refl)
        (λ x t k i.
          contradict (is_active j.status) (ready-active now j ready)
            (still (subst (λ v. str_eq v id ≡ true) (str_eq_sound x.id j.id t) i)))
        h
    where
      ready-active : (now : ℕ) (x : SyncJob) → is_ready now x ≡ true → is_active x.status ≡ true
      ready-active now x t = ground (arith, t)

  claim_next-IsOver :
      (worker : String) (lease now : ℕ) (s : SyncStore)
      → (IsOver id) s.jobs
      → Returns (λ r. (IsOver id) r.1.jobs) (claim_next worker lease now s)
  unfolding claim_next
  claim_next-IsOver worker lease now s h =
      let Kept = λ (r : Option SyncJob × SyncStore). (IsOver id) r.1.jobs in
      Returns-guard Kept (is_blank (codes worker) || lease == 0) _ _ (λ _.
        Returns-bind (λ _. Unit {0}) Kept (chrono_duration lease) _ (Returns-any _)
          (λ d _.
            claim_job-IsOver worker (now + d) now (record s { jobs = recover_jobs now s.jobs })
              (first_where claim_before (is_ready now) (recover_jobs now s.jobs)) refl
              (recover_jobs-IsOver now s.jobs h)))

  renew_lease-IsOver :
      (job_id worker : String) (lease now : ℕ) (s : SyncStore)
      → (IsOver id) s.jobs
      → Returns (λ r. (IsOver id) r.1.jobs) (renew_lease job_id worker lease now s)
  unfolding renew_lease
  renew_lease-IsOver job_id worker lease now s h =
      Returns-bind (λ _. Unit {0}) (λ r. (IsOver id) r.1.jobs) (chrono_duration lease) _
        (Returns-any _)
        (λ d _.
          IsOver-update id (holds_lease job_id (some worker)) _ s.jobs (λ x. refl) (λ x t k. k) h)

  -- What ends a lease.
  ends-IsOver :
      (job : SyncJob) (f : SyncJob → SyncJob) (jobs : List SyncJob)
      → ((x : SyncJob) → (f x).id ≡ x.id)
      → ((x : SyncJob) → is_active (f x).status ≡ false)
      → (IsOver id) jobs
      → (IsOver id) (update_where (is_leased job) f jobs)
  ends-IsOver job f jobs k l h = IsOver-update id (is_leased job) f jobs k (λ x t s i. l x) h

  switch-IsOver :
      (enabled : Bool) (account : String) (now : ℕ) (s : SyncStore)
      → (IsOver id) s.jobs
      → (IsOver id) (switch enabled account now s).jobs
  switch-IsOver true account now s h = h
  switch-IsOver false account now s h =
      IsOver-update id (is_waiting_of account) (cancel_job now) s.jobs (λ x. refl) (λ x t k i. refl)
        h

  update_policy-IsOver :
      (account : String) (settings : SyncPolicySettings) (now : ℕ) (s : SyncStore)
      → (IsOver id) s.jobs
      → Returns (λ r. (IsOver id) r.1.jobs) (update_policy account settings now s)
  unfolding update_policy
  update_policy-IsOver account settings now s h =
      let Kept = λ (r : SyncPolicy × SyncStore). (IsOver id) r.1.jobs in
      Returns-guard Kept (policy_is_invalid settings) _ _ (λ _.
        Returns-guard Kept (not (count_where (is_policy_of account) s.policies == 1)) _ _ (λ _.
          let written = record s {
            policies = update_where (is_policy_of account) (set_policy settings now) s.policies;
          } in
          let switched = switch settings.enabled account now written in
          let found = or_missing (find_where (is_policy_of account) switched.policies) in
          Returns-bind (λ _. Unit {0}) Kept found (λ p. ok (p, switched)) (Returns-any found)
            (λ p _. switch-IsOver settings.enabled account now written h)))

  commit-IsOver :
      (m : Result SyncStore) (s : SyncStore)
      → Leaves (IsOver id) m
      → (IsOver id) s.jobs
      → (IsOver id) (commit m s).jobs
  commit-IsOver (ok a) s h k = h
  commit-IsOver (err e) s h k = k

  second-IsOver :
      {A : Type 0} (m : Result (A × SyncStore))
      → Returns (λ r. (IsOver id) r.1.jobs) m
      → Leaves (IsOver id) (second m)
  second-IsOver (ok (a, b)) h = h
  second-IsOver (err e) h = tt

  pub step-IsOver : (c : Call) (s : SyncStore) → (IsOver id) s.jobs → (IsOver id) (step c s).jobs
  unfolding resume_after_authorization
  step-IsOver (request fresh input now) s h =
      commit-IsOver _ s (second-IsOver _ (enqueue-IsOver id fresh input now s h)) h
  step-IsOver (claim worker lease now) s h =
      commit-IsOver _ s (second-IsOver _ (claim_next-IsOver worker lease now s h)) h
  step-IsOver (renew job_id worker lease now) s h =
      commit-IsOver _ s (second-IsOver _ (renew_lease-IsOver job_id worker lease now s h)) h
  step-IsOver (start job mailbox now) s h =
      commit-IsOver _ s (mark_started-Leaves (IsOver id) job mailbox now s h) h
  step-IsOver (finish fresh job result minutes now) s h =
      commit-IsOver _ s
        (complete-Leaves (IsOver id) (λ j s' e b u k. insert_job-IsOver id j s' k) fresh job result
          minutes now s (ends-IsOver job (succeed result now) s.jobs (λ x. refl) (λ x. refl) h))
        h
  step-IsOver (give_up_on job failure now) s h =
      commit-IsOver _ s
        (fail-Leaves (IsOver id) job failure now s
          (ends-IsOver job (give_up failure now) s.jobs (λ x. refl) (λ x. refl) h))
        h
  step-IsOver (abort job mailbox now) s h =
      commit-IsOver _ s
        (cancel-Leaves (IsOver id) job mailbox now s
          (ends-IsOver job (abandon now) s.jobs (λ x. refl) (λ x. refl) h))
        h
  step-IsOver (configure account settings now) s h =
      commit-IsOver _ s (second-IsOver _ (update_policy-IsOver account settings now s h)) h
  step-IsOver (resume account now) s h = h

  pub run-IsOver :
      (cs : List Call) (s : SyncStore) → (IsOver id) s.jobs → (IsOver id) (run cs s).jobs
  run-IsOver [] s h = h
  run-IsOver (c ∷ cs) s h = run-IsOver cs (step c s) (step-IsOver c s h)
