-- ===== src/Sync/Returns.antt =====
-- What a method leaves in the job table where it returns, step by step through its body.
use i_mail.Base.{
  ℕ, String, List, ◌≡◌, refl, true, false, Bool, inl, inr, Bool-cases, none, not, ◌||◌, str_eq,
  ◌==◌,
}
use i_mail.Base.Table.{update_where, exists_where, count_where}
use i_mail.Sync.Types.{
  SyncJob, SyncStore, SyncCompletion, SyncFailure, MailboxSyncState, SyncRuntimeError, Result, ok,
  err, ◌>>=◌, ◌>>◌, fail_if, Payload, lease_lost, sqlite, queued,
}
use i_mail.Sync.Queue.{insert_job}
use i_mail.Sync.Finish.{
  mark_started, complete, fail, cancel, succeed, give_up, abandon, queue_rerun,
}
use i_mail.Sync.Leases.{
  is_leased, upsert_state, is_state, insert_event, release, require_lease, account_exists,
}

abbrev pub Returns : {A : Type 0} → (A → Type 0) → Result A → Type 0
Returns P (ok a) = P a
Returns P (err e) = Unit

pub Returns-bind :
    {A B : Type 0} (P : A → Type 0) (Q : B → Type 0) (m : Result A) (f : A → Result B)
    → Returns P m
    → ((a : A) → P a → Returns Q (f a))
    → Returns Q (m >>= f)
Returns-bind P Q (ok a) f h k = k a h
Returns-bind P Q (err e) f h k = tt

pub Returns-any : {A : Type 0} (m : Result A) → Returns (λ a. Unit {0}) m
Returns-any (ok a) = tt
Returns-any (err e) = tt

-- After a guard, its test is known to have failed.
pub Returns-guard :
    {B : Type 0} (Q : B → Type 0) (b : Bool) (e : SyncRuntimeError) (m : Result B)
    → (b ≡ false → Returns Q m)
    → Returns Q (fail_if b e >> m)
Returns-guard Q true e m h = tt
Returns-guard Q false e m h = h refl

module _ (P : List SyncJob → Type 0) where
  abbrev pub Leaves : Result SyncStore → Type 0
  Leaves = Returns (λ s. P s.jobs)

  pub upsert_state-Leaves :
      (new : MailboxSyncState) (change : MailboxSyncState → MailboxSyncState) (s : SyncStore)
      → P s.jobs
      → Leaves (upsert_state new change s)
  unfolding upsert_state
  upsert_state-Leaves new change s h =
      elim (Bool-cases (exists_where (is_state new.account_id new.mailbox) s.states)) [
        | inl e ↦ rw e h
        | inr e ↦ rw e (elim (Bool-cases (account_exists new.account_id s)) [
          | inl a ↦ rw a h
          | inr a ↦ rw a tt
        ])
      ]

  pub insert_event-Leaves :
      (job : SyncJob) (payload : Payload) (now : ℕ) (s : SyncStore)
      → P s.jobs
      → Leaves (insert_event job payload now s)
  unfolding insert_event
  insert_event-Leaves job payload now s h =
      Returns-guard (λ s'. P s'.jobs)
        (not (account_exists job.account_id s)
          || not (exists_where (λ j. str_eq j.id job.id) s.jobs))
        sqlite (ok _) (λ _. h)

  pub release-Leaves :
      (job : SyncJob) (change : SyncJob → SyncJob) (s : SyncStore)
      → P (update_where (is_leased job) change s.jobs)
      → Leaves (release job change s)
  unfolding release
  release-Leaves job change s h =
      Returns-guard (λ s'. P s'.jobs) (not (count_where (is_leased job) s.jobs == 1)) lease_lost
        (ok _) (λ _. h)

  pub mark_started-Leaves :
      (job : SyncJob) (mailbox : String) (now : ℕ) (s : SyncStore)
      → P s.jobs
      → Leaves (mark_started job mailbox now s)
  unfolding mark_started
  mark_started-Leaves job mailbox now s h =
      Returns-bind (λ _. Unit {0}) (λ s'. P s'.jobs) (require_lease job s) _ (Returns-any _)
        (λ _ _.
          Returns-bind (λ s'. P s'.jobs) (λ s'. P s'.jobs) (upsert_state _ _ s) _
            (upsert_state-Leaves _ _ s h) (λ s' k. insert_event-Leaves job _ now s' k))

  pub fail-Leaves :
      (job : SyncJob) (failure : SyncFailure) (now : ℕ) (s : SyncStore)
      → P (update_where (is_leased job) (give_up failure now) s.jobs)
      → Leaves (fail job failure now s)
  unfolding fail
  fail-Leaves job failure now s h =
      Returns-bind (λ s'. P s'.jobs) (λ s'. P s'.jobs) (release job (give_up failure now) s) _
        (release-Leaves job (give_up failure now) s h)
        (λ r a.
          Returns-bind (λ s'. P s'.jobs) (λ s'. P s'.jobs) (upsert_state _ _ r) _
            (upsert_state-Leaves _ _ r a)
            (λ u b.
              Returns-bind (λ s'. P s'.jobs) (λ s'. P s'.jobs) (insert_event job _ now u) _
                (insert_event-Leaves job _ now u b) (λ l c. c)))

  pub cancel-Leaves :
      (job : SyncJob) (mailbox : String) (now : ℕ) (s : SyncStore)
      → P (update_where (is_leased job) (abandon now) s.jobs)
      → Leaves (cancel job mailbox now s)
  unfolding cancel
  cancel-Leaves job mailbox now s h =
      Returns-bind (λ s'. P s'.jobs) (λ s'. P s'.jobs) (release job (abandon now) s) _
        (release-Leaves job (abandon now) s h) (λ r a. upsert_state-Leaves _ _ r a)

  -- Where a queued row that the schema lets in keeps the property.
  module _
      (insert : (j : SyncJob) (s : SyncStore)
        → j.status ≡ queued
        → j.locked_by ≡ none
        → j.locked_until ≡ none
        → P s.jobs
        → Leaves (insert_job j s)) where
    queue_rerun-Leaves :
        (fresh : String) (job : SyncJob) (now : ℕ) (rerun : Bool) (s : SyncStore)
        → P s.jobs
        → Leaves (queue_rerun fresh job now rerun s)
    queue_rerun-Leaves fresh job now false s h = h
    queue_rerun-Leaves fresh job now true s h = insert _ s refl refl refl h

    pub complete-Leaves :
        (fresh : String) (job : SyncJob) (result : SyncCompletion) (m now : ℕ) (s : SyncStore)
        → P (update_where (is_leased job) (succeed result now) s.jobs)
        → Leaves (complete fresh job result m now s)
    unfolding complete
    complete-Leaves fresh job result m now s h =
        Returns-guard (λ s'. P s'.jobs) (m == 0) _ _
          (λ _.
            Returns-bind (λ _. Unit {0}) (λ s'. P s'.jobs) (require_lease job s) _ (Returns-any _)
              (λ rerun _.
                Returns-bind (λ s'. P s'.jobs) (λ s'. P s'.jobs)
                  (release job (succeed result now) s) _
                  (release-Leaves job (succeed result now) s h)
                  (λ r a.
                    Returns-bind (λ s'. P s'.jobs) (λ s'. P s'.jobs) (upsert_state _ _ r) _
                      (upsert_state-Leaves _ _ r a)
                      (λ u b.
                        Returns-bind (λ s'. P s'.jobs) (λ s'. P s'.jobs) (insert_event job _ now _)
                          _ (insert_event-Leaves job _ now _ b)
                          (λ l c. queue_rerun-Leaves fresh job now rerun l c)))))
