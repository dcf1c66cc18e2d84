-- ===== src/Sync/Claims.antt =====
-- Which job `claim_next` of crates/imail-storage-sqlite/src/sync_runtime.rs hands to a worker.
use i_mail.Base.{
  Any, ℕ, ◌+◌, ◌≤◌, String, ◌≡◌, refl, true, false, inl, inr, ◌⊎◌, Option, none, some, List, All,
  All-map, All-refl, arith, eq_refl, ltb, leb, ◌==◌, if◌then◌else◌, contradict, Bool-cases, leb→le,
  subst, sym,
}
use i_mail.Base.Texts.{is_blank, codes}
use i_mail.Base.Table.{update_where, find_where, first_where, All-updated, Any-updated}
use i_mail.Base.Selection.{first_where-Any, first_where-All, first_where-none, first_where-best}
use i_mail.Base.Unique.{find-one, Any-update, Any-map}
use i_mail.Sync.Types.{
  SyncJob, SyncStore, Result, ok, err, JobStatus, queued, running, succeeded, failed, cancelled,
}
use i_mail.Sync.Queue.{
  has_id, lock, recover_jobs, lease_expired, requeue, is_ready, claim_before, claim_job, claim_next,
}
use i_mail.Sync.Unique.{clash, IsValid}
use i_mail.Sync.Invariant.{recover_jobs-IsValid}
use i_mail.Sync.Calls.{has_id-IsOnly, claim_job-IsValid}

-- The job waits, or a worker's lease on it is over.
abbrev pub IsFree : ℕ → SyncJob → Type 0
IsFree now x =
    (x.status ≡ queued)
    ⊎ ((x.status ≡ running) × ((until : ℕ) × (x.locked_until ≡ some until) × (until ≤ now)))

abbrev pub IsClaimable : ℕ → SyncJob → Type 0
IsClaimable now x = (x.not_before ≤ now) × IsFree now x

-- A higher priority comes first, and of one priority the earlier creation.
abbrev pub IsBest : SyncJob → SyncJob → Type 0
IsBest j x = (x.priority ≤ j.priority) × (x.priority ≡ j.priority → j.created_at ≤ x.created_at)

-- The row before the claim that the job `j` was.
abbrev pub WasClaimable : ℕ → SyncJob → SyncJob → Type 0
WasClaimable now j x = (x.id ≡ j.id) × (j.attempts ≡ x.attempts + 1) × IsClaimable now x

abbrev pub IsClaim : String → ℕ → ℕ → List SyncJob → Result (Option SyncJob × SyncStore) → Type 0
IsClaim worker until now jobs (ok (none, s)) = All (λ x. ¬ IsClaimable now x) jobs
IsClaim worker until now jobs (ok (some j, s)) =
    (j.status ≡ running)
    × (j.locked_by ≡ some worker)
    × (j.locked_until ≡ some until)
    × Any (λ y. y ≡ j) s.jobs
    × Any (WasClaimable now j) jobs
    × All (λ x. IsClaimable now x → IsBest j x) jobs
IsClaim worker until now jobs (err e) = ⊥

IsBest-refl : (a : SyncJob) → IsBest a a
IsBest-refl a = (omega arith, λ e. omega arith)

IsBest-trans : (a b c : SyncJob) → IsBest a b → IsBest b c → IsBest a c
IsBest-trans a b c h k = (omega (arith, h.0, k.0), λ e. ground (arith, h.0, k.0, h.1, k.1, e))

IsBest-before : (a b : SyncJob) → claim_before a b ≡ true → IsBest a b
IsBest-before a b h = (ground (arith, h), λ e. ground (arith, h, e))

IsBest-not_before : (a b : SyncJob) → claim_before a b ≡ false → IsBest b a
IsBest-not_before a b h = (ground (arith, h), λ e. ground (arith, h, e))

-- A row after the expired leases are taken back.
abbrev recovered : ℕ → SyncJob → SyncJob
recovered now x = if lease_expired now x then requeue x else x

recovered-IsBest : (now : ℕ) (j x : SyncJob) → IsBest j (recovered now x) → IsBest j x
recovered-IsBest now j x h = ground (arith, h)

claimable-is_ready :
    (now : ℕ) (x : SyncJob) → IsClaimable now x → is_ready now (recovered now x) ≡ true
claimable-is_ready now x (t, inl q) = ground (arith, t, q)
claimable-is_ready now x (t, inr (r, (u, l, p))) = ground (arith, t, r, l, p)

ready-IsFree :
    (now : ℕ) (x : SyncJob) (st : JobStatus) (until : Option ℕ)
    → x.status ≡ st
    → x.locked_until ≡ until
    → is_ready now (recovered now x) ≡ true
    → IsFree now x
ready-IsFree now x queued until e f h = inl e
ready-IsFree now x running none e f h = ground (arith, e, f, h)
ready-IsFree now x running (some t) e f h = elim (Bool-cases (leb t now)) [
  | inl l ↦ inr (e, (t, f, leb→le t now l))
  | inr l ↦ ground (arith, e, f, h, l)
]
ready-IsFree now x succeeded until e f h = ground (arith, e, h)
ready-IsFree now x failed until e f h = ground (arith, e, h)
ready-IsFree now x cancelled until e f h = ground (arith, e, h)

ready-IsClaimable :
    (now : ℕ) (x : SyncJob) → is_ready now (recovered now x) ≡ true → IsClaimable now x
ready-IsClaimable now x h =
    (ground (arith, h), ready-IsFree now x x.status x.locked_until refl refl h)

-- The row that was selected, before the expired leases were taken back.
recovered-WasClaimable :
    (worker : String) (until now : ℕ) (j x : SyncJob)
    → is_ready now j ≡ true
    → recovered now x ≡ j
    → WasClaimable now (lock worker until now j) x
recovered-WasClaimable worker until now j x r e = (
  ground (arith, e),
  ground (arith, e),
  ready-IsClaimable now x (subst (λ z. is_ready now z ≡ true) (sym e) r),
)

module _ (worker : String) (until now : ℕ) (jobs : List SyncJob) where
  -- The claim over the table in which the expired leases have been taken back.
  claim_job-IsClaim :
      (s : SyncStore) (o : Option SyncJob)
      → s.jobs ≡ recover_jobs now jobs
      → first_where claim_before (is_ready now) s.jobs ≡ o
      → IsValid s.jobs
      → IsClaim worker until now jobs (ok (claim_job worker until now o s))
  claim_job-IsClaim s none q e v =
      All-map _ _ (λ x f c. contradict _ (claimable-is_ready now x c) f) jobs
        (All-updated (λ x. is_ready now x ≡ false) (lease_expired now) requeue jobs
          (subst (All (λ x. is_ready now x ≡ false)) q
            (first_where-none claim_before (is_ready now) s.jobs e)))
  claim_job-IsClaim s (some j) q e v =
      let f = lock worker until now in
      let m = first_where-Any claim_before (is_ready now) s.jobs j e in
      let ready =
        (first_where-All (λ x. x ≡ x) (is_ready now) claim_before s.jobs j (All-refl s.jobs) e).1 in
      let best =
        first_where-best claim_before (is_ready now) IsBest IsBest-refl IsBest-trans IsBest-before
          IsBest-not_before s.jobs j e in
      let valid = claim_job-IsValid worker until now s (some j) e v in
      let moved = Any-update (has_id j.id) f j s.jobs (eq_refl j.id) m in
      let found : find_where (has_id j.id) (update_where (has_id j.id) f s.jobs) ≡ some (f j) =
        find-one clash (has_id j.id) (f j) (update_where (has_id j.id) f s.jobs) (eq_refl j.id)
          (has_id-IsOnly (f j)) valid.0 moved in
      rw found (
        refl,
        refl,
        refl,
        moved,
        Any-map _ _ (λ x k. recovered-WasClaimable worker until now j x ready k) jobs
            (Any-updated (lease_expired now) requeue j jobs (subst (Any (λ z. z ≡ j)) q m)),
        All-map _ _ (λ x k c. recovered-IsBest now j x (k (claimable-is_ready now x c))) jobs
            (All-updated (λ x. is_ready now x ≡ true → IsBest j x) (lease_expired now) requeue jobs
              (subst (All (λ x. is_ready now x ≡ true → IsBest j x)) q best)),
      )

-- Where `sync_jobs` meets its constraints, the worker's name is not blank, the lease is positive and
-- in chrono's range, `claim_next` returns. It returns no job only where no job of the table was
-- claimable: queued, or running with a lease that ends by now, and not to start later than now. A job
-- that it returns is in the new table, running under this worker's lease until the lease's end; it
-- was claimable before, with one attempt less; and no claimable job had a higher priority, nor the
-- same priority and an earlier creation.
pub claim_next-IsClaim :
    (worker : String) (lease now : ℕ) (s : SyncStore)
    → IsValid s.jobs
    → is_blank (codes worker) ≡ false
    → (lease == 0) ≡ false
    → ltb 9_223_372_036_854_775_807 lease ≡ false
    → IsClaim worker (now + lease) now s.jobs (claim_next worker lease now s)
unfolding claim_next
claim_next-IsClaim worker lease now s v b z l =
    rw (b, z, l)
      (claim_job-IsClaim worker (now + lease) now s.jobs
        (record s { jobs = recover_jobs now s.jobs })
        (first_where claim_before (is_ready now) (recover_jobs now s.jobs)) refl refl
        (recover_jobs-IsValid now s.jobs v))
