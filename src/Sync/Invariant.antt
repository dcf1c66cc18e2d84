-- ===== src/Sync/Invariant.antt =====
-- The constraints of `sync_jobs` under every call: which rows a statement changes and how.
use i_mail.Base.{
  ℕ, String, ◌≡◌, refl, true, false, Bool, inl, inr, Bool-cases, ◌||◌, not, Option, none, some,
  str_eq, List, [], ◌∷◌, All, All-append, arith, &&-eq-true,
}
use i_mail.Base.Table.{
  update_where, exists_where, first_where, exists_where-false, All-update_where,
}
use i_mail.Base.Unique.{IsUnique-update, IsUnique-append}
use i_mail.Sync.Types.{
  SyncJob, SyncStore, SyncEnqueue, ok, is_active, is_running, is_queued, JobStatus, queued, running,
  active_target, sqlite,
}
use i_mail.Sync.Queue.{
  has_id, insert_job, breaks_schema, enqueue, enqueue_job, request_rerun, hasten, coincide,
  job_by_id, or_sqlite, lease_expired, requeue, recover_jobs, get_or, created_before,
  enqueue_is_invalid,
}
use i_mail.Sync.Unique.{clash, IsLockedRight, IsValid, KeepsKey, KeepsKey-IsCalm}
use i_mail.Sync.Returns.{Returns, Returns-bind, Returns-any, Returns-guard, Leaves}

pub IsValid-update :
    (p : SyncJob → Bool) (f : SyncJob → SyncJob) (jobs : List SyncJob)
    → KeepsKey p f
    → ((x : SyncJob) → p x ≡ true → IsLockedRight x → IsLockedRight (f x))
    → IsValid jobs
    → IsValid (update_where p f jobs)
IsValid-update p f jobs k l h = (
  IsUnique-update clash p f jobs (KeepsKey-IsCalm p f k) h.0,
  All-update_where IsLockedRight p f l jobs h.1,
)

All-free :
    (j : SyncJob) (xs : List SyncJob)
    → All (λ x. has_id j.id x ≡ false) xs
    → All (λ x. active_target j.account_id j.mailbox j.mailbox_role x ≡ false) xs
    → All (λ x. clash x j ≡ false) xs
All-free j [] h k = tt
All-free j (x ∷ xs) h k =
    ((let a = h.0 in let b = k.0 in ground (arith, a, b)), All-free j xs h.1 k.1)

or-false : (a b : Bool) → (a || b) ≡ false → (a ≡ false) × (b ≡ false)
or-false true b h = cc
or-false false b h = (refl, h)

-- The schema lets a row in only where it breaks no constraint.
pub insert_job-IsValid :
    (j : SyncJob) (s : SyncStore)
    → IsLockedRight j
    → IsValid s.jobs
    → Leaves IsValid (insert_job j s)
unfolding insert_job
insert_job-IsValid j s l h =
    Returns-guard (λ s'. IsValid s'.jobs) (breaks_schema j s) sqlite (ok _)
      (λ e.
        let a =
          or-false
            (not (exists_where (λ a. str_eq a.id j.account_id) s.accounts)
              || exists_where (has_id j.id) s.jobs)
            (exists_where (active_target j.account_id j.mailbox j.mailbox_role) s.jobs) e in
        let b =
          or-false (not (exists_where (λ a. str_eq a.id j.account_id) s.accounts))
            (exists_where (has_id j.id) s.jobs) a.0 in
        (
          IsUnique-append clash s.jobs j h.0 (
              All-free j s.jobs (exists_where-false (has_id j.id) s.jobs b.1) (
                exists_where-false (active_target j.account_id j.mailbox j.mailbox_role) s.jobs
                  a.1)),
          All-append IsLockedRight s.jobs (j ∷ []) h.1 (l, tt),
        ))

pub coincide-IsValid :
    (input : SyncEnqueue) (at : ℕ) (j : SyncJob) (s : SyncStore)
    → IsValid s.jobs
    → IsValid (coincide input at j s).jobs
coincide-IsValid input at j s h = elim (Bool-cases (is_running j.status)) [
  | inl e ↦ rw e (
      IsValid-update (has_id j.id) (request_rerun input.priority) s.jobs (λ x t. (refl, λ a. a))
        (λ x t l. l) h)
  | inr e ↦ rw e (
      IsValid-update (has_id j.id) (hasten input.priority at) s.jobs (λ x t. (refl, λ a. a))
        (λ x t l. l) h)
]

enqueue_job-IsValid :
    (fresh : String) (input : SyncEnqueue) (now : ℕ) (o : Option SyncJob) (s : SyncStore)
    → IsValid s.jobs
    → Returns (λ r. IsValid r.1.jobs) (enqueue_job fresh input now o s)
enqueue_job-IsValid fresh input now (some j) s h =
    coincide-IsValid input (get_or input.not_before now) j s h
enqueue_job-IsValid fresh input now none s h =
    Returns-bind (λ s'. IsValid s'.jobs) (λ r. IsValid r.1.jobs) (insert_job _ s) _
      (insert_job-IsValid _ s (refl, refl) h) (λ s' k. k)

pub enqueue-IsValid :
    (fresh : String) (input : SyncEnqueue) (now : ℕ) (s : SyncStore)
    → IsValid s.jobs
    → Returns (λ r. IsValid r.1.jobs) (enqueue fresh input now s)
unfolding enqueue
enqueue-IsValid fresh input now s h =
    Returns-guard (λ r. IsValid r.1.jobs) (enqueue_is_invalid input) _ _
      (λ _.
        Returns-bind (λ r. IsValid r.1.jobs) (λ r. IsValid r.1.jobs)
          (enqueue_job fresh input now
            (first_where created_before
              (active_target input.account_id input.mailbox input.mailbox_role) s.jobs)
            s)
          _ (enqueue_job-IsValid fresh input now _ s h)
          (λ r k.
            Returns-bind (λ _. Unit {0}) (λ r. IsValid r.1.jobs) (or_sqlite (job_by_id r.0 r.1)) _
              (Returns-any _) (λ j _. k)))

lease_expired-running :
    (now : ℕ) (j : SyncJob) → lease_expired now j ≡ true → is_running j.status ≡ true
lease_expired-running now j h = (&&-eq-true (is_running j.status) _ h).0

pub running-is_active : (st : JobStatus) → is_running st ≡ true → is_active st ≡ true
running-is_active running h = refl
running-is_active _ h = cc

pub queued-is_active : (st : JobStatus) → is_queued st ≡ true → is_active st ≡ true
queued-is_active queued h = refl
queued-is_active _ h = cc

pub recover_jobs-IsValid :
    (now : ℕ) (jobs : List SyncJob) → IsValid jobs → IsValid (recover_jobs now jobs)
recover_jobs-IsValid now jobs h =
    IsValid-update (lease_expired now) requeue jobs
      (λ x t. (refl, λ _. running-is_active x.status (lease_expired-running now x t)))
      (λ x t l. (refl, refl)) h
