-- ===== src/Sync/Requests.antt =====
-- What `enqueue` of crates/imail-storage-sqlite/src/sync_runtime.rs makes of a request for a sync.
use i_mail.Base.{
  Any, here, there, subst, ℕ, ◌≤◌, String, ◌≡◌, refl, sym, true, false, Bool, inl, inr, Bool-cases,
  ◌∙◌, Option, Option-cases, none, some, List, [], ◌∷◌, ◌++◌, All, arith, str_eq, eq_refl, All-refl,
}
use i_mail.Base.Table.{
  update_where, find_where, first_where, exists_where, find_where-append, exists_where-false,
}
use i_mail.Base.Selection.{first_where-All, first_where-Any, first_where-none}
use i_mail.Base.Unique.{IsOnly, find-one, Any-update}
use i_mail.Sync.Types.{
  SyncJob, SyncStore, SyncEnqueue, Result, ok, err, ◌>>=◌, is_running, active_target, or_empty,
}
use i_mail.Sync.Queue.{
  has_id, insert_job, enqueue, enqueue_job, request_rerun, hasten, job_by_id, or_sqlite, get_or,
  created_before, enqueue_is_invalid, new_job,
}
use i_mail.Sync.Unique.{clash, IsValid}
use i_mail.Sync.Invariant.{coincide-IsValid}
use i_mail.Sync.Calls.{has_id-IsOnly}

-- An active job of the request's target that stands in the table, with at least the request's
-- priority; where a worker runs it already, it will be run again.
abbrev pub Serves : SyncEnqueue → SyncJob → SyncStore → Type 0
Serves input j s =
    (active_target input.account_id input.mailbox input.mailbox_role j ≡ true)
    × Any (λ y. y ≡ j) s.jobs
    × (input.priority ≤ j.priority)
    × (is_running j.status ≡ true → j.rerun_requested ≡ true)

abbrev pub IsServed : SyncEnqueue → Result (SyncJob × SyncStore) → Type 0
IsServed input (ok (j, s)) = Serves input j s
IsServed input (err e) = ⊥

exists_where-none :
    (p : SyncJob → Bool) (xs : List SyncJob) → All (λ x. p x ≡ false) xs → exists_where p xs ≡ false
exists_where-none p [] h = refl
exists_where-none p (x ∷ xs) h = rw h.0 (exists_where-none p xs h.1)

Any-last : (j : SyncJob) (xs : List SyncJob) → Any (λ y. y ≡ j) (xs ++ j ∷ [])
Any-last j [] = here refl
Any-last j (x ∷ xs) = there (Any-last j xs)

module _ (fresh : String) (input : SyncEnqueue) (now : ℕ) (s : SyncStore) where
  abbrev target : SyncJob → Bool
  target = active_target input.account_id input.mailbox input.mailbox_role

  abbrev at : ℕ
  at = get_or input.not_before now

  abbrev added : SyncJob
  added =
      new_job fresh input.account_id input.mailbox input.mailbox_role input.reason input.priority at
        now

  -- The rest of `enqueue` after its guard, on the job that the first query finds.
  abbrev finish_request : Option SyncJob → Result (SyncJob × SyncStore)
  unfolding insert_job
  finish_request o = do
    (id, s') ← enqueue_job fresh input now o s
    job ← or_sqlite (job_by_id id s')
    ok (job, s')

  added-target : target added ≡ true
  added-target =
      rw (eq_refl input.account_id, eq_refl (or_empty input.mailbox), eq_refl input.mailbox_role)
        refl

  none-IsServed :
      exists_where (λ a. str_eq a.id input.account_id) s.accounts ≡ true
      → exists_where (has_id fresh) s.jobs ≡ false
      → All (λ x. target x ≡ false) s.jobs
      → IsServed input (finish_request none)
  unfolding insert_job
  none-IsServed a n h =
      let free : exists_where target s.jobs ≡ false = exists_where-none target s.jobs h in
      let found : find_where (has_id fresh) (s.jobs ++ added ∷ []) ≡ some added =
        find_where-append (has_id fresh) s.jobs added (exists_where-false (has_id fresh) s.jobs n)
          (eq_refl fresh) in
      rw (a, n, free, found) (added-target, Any-last added s.jobs, omega arith, λ r. cc)

  module _ (j : SyncJob) (f : SyncJob → SyncJob)
      (valid : IsValid (update_where (has_id j.id) f s.jobs)) (same : (f j).id ≡ j.id)
      (m : Any (λ y. y ≡ j) s.jobs) where
    changed-found :
        job_by_id j.id (record s { jobs = update_where (has_id j.id) f s.jobs }) ≡ some (f j)
    changed-found =
        find-one clash (has_id j.id) (f j) (update_where (has_id j.id) f s.jobs)
          (rw same (eq_refl j.id))
          (subst (λ i. IsOnly clash (has_id i) (f j)) same (has_id-IsOnly (f j))) valid.0
          (Any-update (has_id j.id) f j s.jobs (eq_refl j.id) m)

  -- The same target and an active job, whatever else the update of the job changes.
  coincide-IsServed :
      (j : SyncJob)
      → IsValid s.jobs
      → Any (λ y. y ≡ j) s.jobs
      → target j ≡ true
      → IsServed input (finish_request (some j))
  unfolding insert_job
  coincide-IsServed j v m t =
      let valid = coincide-IsValid input at j s v in
      elim (Bool-cases (is_running j.status)) [
        | inl e ↦
            let f = request_rerun input.priority in
            let moved = Any-update (has_id j.id) f j s.jobs (eq_refl j.id) m in
            rw (e, changed-found j f (rw e at valid) refl m) (t, moved, ground arith, λ r. refl)
        | inr e ↦
            let f = hasten input.priority at in
            let moved = Any-update (has_id j.id) f j s.jobs (eq_refl j.id) m in
            rw (e, changed-found j f (rw e at valid) refl m)
              (t, moved, ground arith, λ r. (let k : ◌≡◌ {A = Bool} true false = sym r ∙ e in cc))
      ]

-- Where `sync_jobs` meets its constraints, the request is valid, the account exists and the fresh
-- identifier is new, `enqueue` returns a job of the table with the request's account, mailbox and
-- role that is queued or running and has at least the request's priority; where that job is
-- running, it is marked to be run again. So no request is lost, and none breaks the unique index.
pub enqueue-IsServed :
    (fresh : String) (input : SyncEnqueue) (now : ℕ) (s : SyncStore)
    → IsValid s.jobs
    → enqueue_is_invalid input ≡ false
    → exists_where (λ a. str_eq a.id input.account_id) s.accounts ≡ true
    → exists_where (has_id fresh) s.jobs ≡ false
    → IsServed input (enqueue fresh input now s)
unfolding enqueue
enqueue-IsServed fresh input now s v i a n =
    let target = active_target input.account_id input.mailbox input.mailbox_role in
    rw i (elim (Option-cases (first_where created_before target s.jobs)) [
      | inl e ↦
          rw e
            (none-IsServed fresh input now s a n (first_where-none created_before target s.jobs e))
      | inr (j, e) ↦ rw e (
          coincide-IsServed fresh input now s j v (first_where-Any created_before target s.jobs j e)
            (first_where-All (λ x. x ≡ x) target created_before s.jobs j (All-refl s.jobs) e).1)
    ])
