-- ===== src/Sync/Configured.antt =====
-- What a change of an account's policy leaves.
use i_mail.Base.{
  ℕ, String, ◌≡◌, refl, sym, subst, true, false, Bool, inl, inr, Bool-cases, Option-cases, none,
  some, List, [], ◌∷◌, All, All-refl, Any, ◌≢◌, ◌==◌, str_eq, str_eq_sound, eq_refl, contradict,
}
use mathlib.Core.Option.{some-injective}
use i_mail.Base.Table.{
  update_where, find_where, count_where, count_where-none, find_where-none, find_where-All,
  update_where-All,
}
use i_mail.Base.Unique.{Any-update, Any-map}
use i_mail.Sync.Types.{
  SyncJob, SyncStore, SyncPolicy, SyncPolicySettings, MailboxSyncState, SyncState, idle, working,
  backoff, paused, queued, cancelled, Result, ok, err,
}
use i_mail.Sync.Policies.{
  update_policy, switch, is_waiting_of, cancel_job, policy_is_invalid, is_policy_of, set_policy,
  is_state_of, stop_state, unpause, unpause_state,
}

-- The policy that the table holds for the account has the settings, and the time of the change.
pub record HasSettings (account : String) (settings : SyncPolicySettings) (now : ℕ) (p : SyncPolicy)
    : Type 0 where
  pub owner : p.account_id ≡ account
  pub enabled : p.enabled ≡ settings.enabled
  pub folder_mode : p.folder_mode ≡ settings.folder_mode
  pub selected_mailboxes : p.selected_mailboxes ≡ settings.selected_mailboxes
  pub notify_on_error : p.notify_on_error ≡ settings.notify_on_error
  pub updated_at : p.updated_at ≡ now

-- Nothing of the account waits to be synced.
abbrev pub IsPaused : String → MailboxSyncState → Type 0
IsPaused account m = m.account_id ≡ account → (m.sync_state ≡ paused) × (m.next_sync_at ≡ none)

abbrev pub IsCancelled : SyncJob → ℕ → SyncJob → Type 0
IsCancelled x now y = (y.id ≡ x.id) × (y.status ≡ cancelled) × (y.finished_at ≡ some now)

-- Of the rows `jobs` before.
pub record IsStopped (account : String) (now : ℕ) (jobs : List SyncJob) (s : SyncStore)
    : Type 0 where
  pub none_queued : All (λ j. j.account_id ≡ account → j.status ≢ queued) s.jobs
  pub withdrawn :
      (x : SyncJob)
      → Any (λ y. y ≡ x) jobs
      → x.account_id ≡ account
      → x.status ≡ queued
      → Any (IsCancelled x now) s.jobs
  pub idle : All (IsPaused account) s.states

pub record IsResumed (account : String) (jobs : List SyncJob) (s : SyncStore) : Type 0 where
  pub same_jobs : s.jobs ≡ jobs
  pub none_paused : All (λ m. m.account_id ≡ account → m.sync_state ≢ paused) s.states

abbrev pub IsConfigured :
    String → SyncPolicySettings → ℕ → List SyncJob → Result (SyncPolicy × SyncStore) → Type 0
IsConfigured account settings now jobs (ok (p, s)) =
    HasSettings account settings now p
    × (find_where (is_policy_of account) s.policies ≡ some p)
    × (settings.enabled ≡ false → IsStopped account now jobs s)
    × (settings.enabled ≡ true → IsResumed account jobs s)
IsConfigured account settings now jobs (err e) = ⊥

find_where-update :
    (p : SyncPolicy → Bool) (f : SyncPolicy → SyncPolicy) (xs : List SyncPolicy) (x : SyncPolicy)
    → ((y : SyncPolicy) → p (f y) ≡ p y)
    → find_where p xs ≡ some x
    → find_where p (update_where p f xs) ≡ some (f x)
find_where-update p f [] x k e = cc
find_where-update p f (y ∷ ys) x k e = elim (Bool-cases (p y)) [
  | inl t ↦
      (let i : y ≡ x = some-injective y x (rw t at e) in
        rw (t, k y, t) (subst (λ z. some (f y) ≡ some (f z)) i refl))
  | inr t ↦ rw (t, t) (find_where-update p f ys x k (rw t at e))
]

counted-found :
    (p : SyncPolicy → Bool) (xs : List SyncPolicy)
    → (count_where p xs == 1) ≡ true
    → (x : SyncPolicy) × (find_where p xs ≡ some x)
counted-found p xs h = elim (Option-cases (find_where p xs)) [
  | inl e ↦
      (let k : ◌≡◌ {A = Bool} false true =
          rw (count_where-none p xs (find_where-none p xs e)) at h in
        cc)
  | inr r ↦ r
]

same : (a b : String) → a ≡ b → str_eq a b ≡ true
same a b e = rw e (eq_refl b)

other_account : {A : Type 0} (a b : String) → str_eq a b ≡ false → a ≡ b → A
other_account a b f e = contradict (str_eq a b) (same a b e) f

waiting_account :
    (account : String) (x : SyncJob)
    → x.account_id ≡ account
    → x.status ≡ queued
    → is_waiting_of account x ≡ true
waiting_account account x e q = rw (same x.account_id account e, q) refl

switch-IsStopped :
    (account : String) (now : ℕ) (s : SyncStore)
    → IsStopped account now s.jobs (switch false account now s)
switch-IsStopped account now s = record {
  none_queued =
      update_where-All (λ j. j.account_id ≡ account → j.status ≢ queued) (is_waiting_of account)
        (cancel_job now) (λ j t e q. cc)
        (λ j t e q. contradict (is_waiting_of account j) (waiting_account account j e q) t) s.jobs;
  withdrawn = λ x m e q.
      Any-map _ (IsCancelled x now) (λ y k. subst (IsCancelled x now) (sym k) (refl, refl, refl))
        (update_where (is_waiting_of account) (cancel_job now) s.jobs)
        (Any-update (is_waiting_of account) (cancel_job now) x s.jobs
          (waiting_account account x e q) m);
  idle =
      update_where-All (IsPaused account) (is_state_of account) stop_state (λ m t e. (refl, refl))
        (λ m t e. other_account m.account_id account t e) s.states;
}

unpause-not_paused : (st : SyncState) → unpause st ≢ paused
unpause-not_paused idle e = cc
unpause-not_paused working e = cc
unpause-not_paused backoff e = cc
unpause-not_paused paused e = cc

switch-IsResumed :
    (account : String) (now : ℕ) (s : SyncStore)
    → IsResumed account s.jobs (switch true account now s)
switch-IsResumed account now s = record {
  same_jobs = refl;
  none_paused =
      update_where-All (λ m. m.account_id ≡ account → m.sync_state ≢ paused) (is_state_of account)
        unpause_state (λ m t e. unpause-not_paused m.sync_state)
        (λ m t e. other_account m.account_id account t e) s.states;
}

switched_policies :
    (b : Bool) (account : String) (now : ℕ) (s : SyncStore)
    → (switch b account now s).policies ≡ s.policies
switched_policies true account now s = refl
switched_policies false account now s = refl

found-HasSettings :
    (account : String) (settings : SyncPolicySettings) (now : ℕ) (x : SyncPolicy)
    → is_policy_of account x ≡ true
    → HasSettings account settings now (set_policy settings now x)
found-HasSettings account settings now x t = record {
  owner = str_eq_sound x.account_id account t;
  enabled = refl;
  folder_mode = refl;
  selected_mailboxes = refl;
  notify_on_error = refl;
  updated_at = refl;
}

-- Where the settings are valid and the account has one policy, `update_policy` returns the policy
-- that the table then holds for the account, with each of the settings and the time of the call. Where
-- the settings disable it, no job of the account is queued any more, each job of it that was is
-- cancelled, and each of its mailbox states is paused without a next sync; where they enable it, the
-- jobs are as before and none of its mailbox states is paused.
pub update_policy-IsConfigured :
    (account : String) (settings : SyncPolicySettings) (now : ℕ) (s : SyncStore)
    → policy_is_invalid settings ≡ false
    → (count_where (is_policy_of account) s.policies == 1) ≡ true
    → IsConfigured account settings now s.jobs (update_policy account settings now s)
unfolding update_policy
update_policy-IsConfigured account settings now s v c =
    let p = is_policy_of account in
    let f = set_policy settings now in
    let (x, e) = counted-found p s.policies c in
    let hit = (find_where-All (λ y. y ≡ y) p s.policies (All-refl s.policies) e).1 in
    let written = record s { policies = update_where p f s.policies } in
    let kept = switched_policies settings.enabled account now written in
    let found : find_where p (switch settings.enabled account now written).policies ≡ some (f x) =
      subst (λ ps. find_where p ps ≡ some (f x)) (sym kept)
        (find_where-update p f s.policies x (λ y. refl) e) in
    rw (v, c, found)
      (
        found-HasSettings account settings now x hit,
        found,
        λ off.
            subst (λ b. IsStopped account now s.jobs (switch b account now written)) (sym off)
              (switch-IsStopped account now written),
        λ on.
            subst (λ b. IsResumed account s.jobs (switch b account now written)) (sym on)
              (switch-IsResumed account now written),
      )
