-- ===== src/Sync/Finished.antt =====
-- The ends of a job in crates/imail-storage-sqlite/src/sync_runtime.rs: `complete`, `fail`, `cancel`.
use i_mail.Base.{
  subst, sym, ◌∙◌, ℕ, String, ◌≡◌, ◌≢◌, refl, true, false, Bool, inl, inr, Bool-cases, Option-cases,
  not, none, List, [], ◌∷◌, All, All-map, All-refl, Any, arith, ◌==◌, &&-eq-true, contradict,
  str_eq, str_eq_sound,
}
use i_mail.Base.Table.{
  update_where, find_where, count_where-none, find_where-none, find_where-All, All-update_map,
}
use i_mail.Base.Unique.{IsUnique, All-only, Any-update_where, Any-map, find_where-Any}
use i_mail.Sync.Types.{
  SyncJob, SyncStore, SyncCompletion, SyncFailure, Result, ok, err, is_active, is_running,
  JobStatus, lease_lost, invalid_input,
}
use i_mail.Sync.Queue.{has_id}
use i_mail.Sync.Finish.{succeed, give_up, abandon, complete, fail, cancel}
use i_mail.Sync.Leases.{is_leased, release, require_lease}
use i_mail.Sync.Unique.{clash, IsValid}
use i_mail.Sync.Steps.{Call, run}
use i_mail.Sync.Calls.{has_id-IsOnly, holds_lease-running}
use i_mail.Sync.Over.{IsOver, IsStill, insert_job-IsOver}
use i_mail.Sync.Ended.{run-IsOver}
use i_mail.Sync.Returns.{Leaves, complete-Leaves, fail-Leaves, cancel-Leaves}

-- The three ways in which a worker ends a job.
pub data Ending : Type 0 where
  done : (fresh : String) → (result : SyncCompletion) → (minutes now : ℕ) → Ending
  broken : (failure : SyncFailure) → (now : ℕ) → Ending
  aborted : (mailbox : String) → (now : ℕ) → Ending

abbrev pub end : Ending → SyncJob → SyncStore → Result SyncStore
end (done fresh result minutes now) job s = complete fresh job result minutes now s
end (broken failure now) job s = fail job failure now s
end (aborted mailbox now) job s = cancel job mailbox now s

-- A completion names the minutes until the next sync.
abbrev pub has_interval : Ending → Bool
has_interval (done fresh result minutes now) = not (minutes == 0)
has_interval _ = true

abbrev pub Unleased : SyncJob → List SyncJob → Type 0
Unleased job = All (λ x. is_leased job x ≡ false)

leased-has_id : (job x : SyncJob) → is_leased job x ≡ true → has_id job.id x ≡ true
leased-has_id job x t = (&&-eq-true (has_id job.id x) _ (&&-eq-true _ _ t).0).0

running-is_active : (st : JobStatus) → is_running st ≡ true → is_active st ≡ true
running-is_active st h = ground (arith, h)

find_where-nothing :
    (p : SyncJob → Bool) (xs : List SyncJob) → All (λ x. p x ≡ false) xs → find_where p xs ≡ none
find_where-nothing p [] h = refl
find_where-nothing p (x ∷ xs) h = rw (h.0, find_where-nothing p xs h.1) refl

Unleased-end :
    (e : Ending) (job : SyncJob) (s : SyncStore)
    → has_interval e ≡ true
    → Unleased job s.jobs
    → end e job s ≡ err lease_lost
unfolding complete fail cancel release require_lease
Unleased-end (done fresh result minutes now) job s i h = elim (Bool-cases (minutes == 0)) [
  | inl z ↦ (let k : ◌≡◌ {A = Bool} false true = rw z at i in cc)
  | inr z ↦ rw (z, find_where-nothing (is_leased job) s.jobs h) refl
]
Unleased-end (broken failure now) job s i h = rw (count_where-none (is_leased job) s.jobs h) refl
Unleased-end (aborted mailbox now) job s i h = rw (count_where-none (is_leased job) s.jobs h) refl

-- Where the identifier's row is the leased one, the end of the lease leaves the identifier over.
ended-IsOver :
    (job : SyncJob) (f : SyncJob → SyncJob) (jobs : List SyncJob) (x : SyncJob)
    → ((y : SyncJob) → (f y).id ≡ y.id)
    → ((y : SyncJob) → is_active (f y).status ≡ false)
    → IsUnique clash jobs
    → Any (λ y. y ≡ x) jobs
    → is_leased job x ≡ true
    → IsOver job.id (update_where (is_leased job) f jobs)
ended-IsOver job f jobs x k l u m t =
    let named = leased-has_id job x t in
    let only = All-only clash (has_id x.id) x jobs (has_id-IsOnly x) u m in
    let same = str_eq_sound x.id job.id named in
    (
      All-update_map (λ y. has_id x.id y ≡ true → y ≡ x) (IsStill job.id) (is_leased job) f
          (λ y h g i. l y)
          (λ y h g i. contradict (is_leased job x) t (
            subst (λ v. is_leased job v ≡ false)
              (g (subst (λ v. str_eq y.id v ≡ true) (sym same) i)) h))
          jobs only,
      Any-update_where (λ y. has_id job.id y ≡ true) (is_leased job) f
          (λ y h. subst (λ v. str_eq v job.id ≡ true) (sym (k y)) h) jobs
          (Any-map (λ y. y ≡ x) (λ y. has_id job.id y ≡ true)
            (λ y h. subst (λ v. has_id job.id v ≡ true) (sym h) named) jobs m),
    )

end-IsOver :
    (e : Ending) (job : SyncJob) (s : SyncStore) (x : SyncJob)
    → IsUnique clash s.jobs
    → Any (λ y. y ≡ x) s.jobs
    → is_leased job x ≡ true
    → Leaves (IsOver job.id) (end e job s)
end-IsOver (done fresh result minutes now) job s x u m t =
    complete-Leaves (IsOver job.id) (λ j s' q b w h. insert_job-IsOver job.id j s' h) fresh job
      result minutes now s
      (ended-IsOver job (succeed result now) s.jobs x (λ y. refl) (λ y. refl) u m t)
end-IsOver (broken failure now) job s x u m t =
    fail-Leaves (IsOver job.id) job failure now s
      (ended-IsOver job (give_up failure now) s.jobs x (λ y. refl) (λ y. refl) u m t)
end-IsOver (aborted mailbox now) job s x u m t =
    cancel-Leaves (IsOver job.id) job mailbox now s
      (ended-IsOver job (abandon now) s.jobs x (λ y. refl) (λ y. refl) u m t)

ok-IsOver :
    (job : SyncJob) (m : Result SyncStore) (s' : SyncStore)
    → m ≡ ok s'
    → Leaves (IsOver job.id) m
    → IsOver job.id s'.jobs
ok-IsOver job m s' e h = subst (Leaves (IsOver job.id)) e h

-- A completion without minutes is refused as well.
refused :
    (e : Ending) (job : SyncJob) (s s' : SyncStore) → Unleased job s.jobs → end e job s ≢ ok s'
unfolding complete
refused e job s s' h k = elim (Bool-cases (has_interval e)) [
  | inl i ↦
      (let z : ◌≡◌ {A = Result SyncStore} (err lease_lost) (ok s') =
          sym (Unleased-end e job s i h) ∙ k in
        cc)
  | inr i ↦ no_interval e i k
]
  where
    no_interval : (e : Ending) → has_interval e ≡ false → end e job s ≡ ok s' → ⊥
    no_interval (done fresh result minutes now) i k = elim (Bool-cases (minutes == 0)) [
      | inl z ↦
          (let n : ◌≡◌ {A = Result SyncStore} (err (invalid_input "completion")) (ok s') =
              rw z at k in
            cc)
      | inr z ↦ (let n : ◌≡◌ {A = Bool} true false = rw z at i in cc)
    ]
    no_interval (broken failure now) i k = cc
    no_interval (aborted mailbox now) i k = cc

ended :
    (e : Ending) (job : SyncJob) (s s' : SyncStore)
    → IsUnique clash s.jobs
    → end e job s ≡ ok s'
    → IsOver job.id s'.jobs
ended e job s s' u h = elim (Option-cases (find_where (is_leased job) s.jobs)) [
  | inl n ↦ absurd (refused e job s s' (find_where-none (is_leased job) s.jobs n) h)
  | inr (x, f) ↦
      let t = (find_where-All (λ y. y ≡ y) (is_leased job) s.jobs (All-refl s.jobs) f).1 in
      ok-IsOver job (end e job s) s' h
        (end-IsOver e job s x u (find_where-Any (is_leased job) s.jobs x f) t)
]

over-Unleased : (job : SyncJob) (jobs : List SyncJob) → IsOver job.id jobs → Unleased job jobs
over-Unleased job jobs h = All-map _ _ (λ x k. still x k) jobs h.0
  where
    still : (x : SyncJob) → IsStill job.id x → is_leased job x ≡ false
    still x k = elim (Bool-cases (is_leased job x)) [
      | inl t ↦
          contradict (is_active x.status)
            (running-is_active x.status (holds_lease-running job.id job.locked_by x t))
            (k (leased-has_id job x t))
      | inr t ↦ t
    ]

-- Where a worker's `complete`, `fail` or `cancel` of a job has returned in a table that meets its
-- constraints, every later one of any kind for that job (a `complete` with a positive interval) is
-- refused with the error of a lost lease, whatever copy of the row it holds and whatever calls come in
-- between.
pub end_once :
    (e e' : Ending) (job job' : SyncJob) (s s' : SyncStore) (cs : List Call)
    → IsValid s.jobs
    → end e job s ≡ ok s'
    → job'.id ≡ job.id
    → has_interval e' ≡ true
    → end e' job' (run cs s') ≡ err lease_lost
end_once e e' job job' s s' cs v h q i =
    let over = run-IsOver job.id cs s' (ended e job s s' v.0 h) in
    Unleased-end e' job' (run cs s') i
      (over-Unleased job' (run cs s').jobs (subst (λ id. IsOver id (run cs s').jobs) (sym q) over))
