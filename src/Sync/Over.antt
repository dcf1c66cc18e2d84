-- ===== src/Sync/Over.antt =====
-- The rows of one identifier in `sync_jobs` that are over, under the updates and inserts of
-- crates/imail-storage-sqlite/src/sync_runtime.rs.
use i_mail.Base.{
  ℕ, String, ◌≡◌, refl, sym, subst, true, false, Bool, inl, inr, Bool-cases, not, ◌||◌, Option,
  none, some, str_eq, str_eq_sound, List, [], ◌∷◌, All, All-append, Any, contradict, arith,
}
use i_mail.Base.Table.{update_where, exists_where, first_where, All-update_where, Any-exists_where}
use i_mail.Base.Unique.{Any-update_where, Any-append}
use i_mail.Sync.Types.{
  SyncJob, SyncStore, SyncEnqueue, ok, is_active, is_running, sqlite, active_target,
}
use i_mail.Sync.Queue.{
  has_id, insert_job, breaks_schema, enqueue, enqueue_job, coincide, request_rerun, hasten, get_or,
  job_by_id, or_sqlite, enqueue_is_invalid, created_before,
}
use i_mail.Sync.Returns.{Returns, Returns-bind, Returns-any, Returns-guard, Leaves}

module _ (id : String) where
  abbrev pub IsStill : SyncJob → Type 0
  IsStill x = has_id id x ≡ true → is_active x.status ≡ false

  -- A row of the identifier is there, and each such row is over.
  abbrev pub IsOver : List SyncJob → Type 0
  IsOver jobs = All IsStill jobs × Any (λ x. has_id id x ≡ true) jobs

  -- An update that keeps identifiers and makes no row of this identifier active.
  pub IsOver-update :
      (p : SyncJob → Bool) (f : SyncJob → SyncJob) (jobs : List SyncJob)
      → ((x : SyncJob) → (f x).id ≡ x.id)
      → ((x : SyncJob) → p x ≡ true → IsStill x → IsStill (f x))
      → IsOver jobs
      → IsOver (update_where p f jobs)
  IsOver-update p f jobs k l h = (
    All-update_where IsStill p f l jobs h.0,
    Any-update_where (λ x. has_id id x ≡ true) p f
        (λ x t. subst (λ v. str_eq v id ≡ true) (sym (k x)) t) jobs h.1,
  )

  -- Where the rows that the update changes are active.
  pub IsOver-active :
      (p : SyncJob → Bool) (f : SyncJob → SyncJob) (jobs : List SyncJob)
      → ((x : SyncJob) → (f x).id ≡ x.id)
      → ((x : SyncJob) → p x ≡ true → is_active x.status ≡ true)
      → IsOver jobs
      → IsOver (update_where p f jobs)
  IsOver-active p f jobs k l h =
      IsOver-update p f jobs k
        (λ x t s i.
          contradict (is_active x.status) (l x t) (s (subst (λ v. str_eq v id ≡ true) (k x) i)))
        h

  pub insert_job-IsOver :
      (j : SyncJob) (s : SyncStore) → IsOver s.jobs → Leaves IsOver (insert_job j s)
  unfolding insert_job
  insert_job-IsOver j s h =
      Returns-guard (λ s'. IsOver s'.jobs) (breaks_schema j s) sqlite (ok _)
        (λ e. (
          All-append IsStill s.jobs (j ∷ []) h.0 (
            λ t.
                contradict (exists_where (has_id j.id) s.jobs)
                  (subst (λ v. exists_where (has_id v) s.jobs ≡ true) (sym (str_eq_sound j.id id t))
                    (Any-exists_where (has_id id) s.jobs h.1))
                  (middle (not (exists_where (λ a. str_eq a.id j.account_id) s.accounts))
                    (exists_where (has_id j.id) s.jobs) _ e),
            tt,
          ),
          Any-append (λ x. has_id id x ≡ true) s.jobs (j ∷ []) h.1,
        ))
    where
      middle : (a b c : Bool) → (a || b || c) ≡ false → b ≡ false
      middle a b c h = ground (arith, h)

  coincide-IsOver :
      (input : SyncEnqueue) (t : ℕ) (j : SyncJob) (s : SyncStore)
      → IsOver s.jobs
      → IsOver (coincide input t j s).jobs
  coincide-IsOver input t j s h = elim (Bool-cases (is_running j.status)) [
    | inl e ↦ rw e (
        IsOver-update (has_id j.id) (request_rerun input.priority) s.jobs (λ x. refl) (λ x u k. k)
          h)
    | inr e ↦
        rw e
          (IsOver-update (has_id j.id) (hasten input.priority t) s.jobs (λ x. refl) (λ x u k. k) h)
  ]

  enqueue_job-IsOver :
      (fresh : String) (input : SyncEnqueue) (now : ℕ) (o : Option SyncJob) (s : SyncStore)
      → IsOver s.jobs
      → Returns (λ r. IsOver r.1.jobs) (enqueue_job fresh input now o s)
  enqueue_job-IsOver fresh input now none s h =
      Returns-bind (λ s'. IsOver s'.jobs) (λ r. IsOver r.1.jobs) (insert_job _ s) _
        (insert_job-IsOver _ s h) (λ s' k. k)
  enqueue_job-IsOver fresh input now (some j) s h =
      coincide-IsOver input (get_or input.not_before now) j s h

  pub enqueue-IsOver :
      (fresh : String) (input : SyncEnqueue) (now : ℕ) (s : SyncStore)
      → IsOver s.jobs
      → Returns (λ r. IsOver r.1.jobs) (enqueue fresh input now s)
  unfolding enqueue
  enqueue-IsOver fresh input now s h =
      let target = active_target input.account_id input.mailbox input.mailbox_role in
      Returns-guard (λ r. IsOver r.1.jobs) (enqueue_is_invalid input) _ _
        (λ _.
          Returns-bind (λ r. IsOver r.1.jobs) (λ r. IsOver r.1.jobs)
            (enqueue_job fresh input now (first_where created_before target s.jobs) s) _
            (enqueue_job-IsOver fresh input now (first_where created_before target s.jobs) s h)
            (λ r k.
              Returns-bind (λ _. Unit {0}) (λ r. IsOver r.1.jobs) (or_sqlite (job_by_id r.0 r.1)) _
                (Returns-any _) (λ j _. k)))
