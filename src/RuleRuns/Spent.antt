-- ===== src/RuleRuns/Spent.antt =====
-- An archive action that was handed out, through the updates of a run's row in
-- crates/imail-storage-sqlite/src/rules.rs.
use i_mail.Base.{
  ℕ, suc, ◌≡◌, refl, subst, inl, inr, Bool, true, false, not, ◌&&◌, ◌||◌, List, [], ◌∷◌, ◌++◌,
  get_elem?, ltb, ◌==◌, All, All-append, Any, Bool-cases, contradict, &&-eq-true, arith,
}
use i_mail.Base.Table.{update_where, All-update_where}
use i_mail.Base.Unique.{Any-update_where, Any-append}
use i_mail.Base.Texts.{Text, text_eq}
use i_mail.RuleRuns.Types.{RunRow, RunStatus, is_pending, has_failed}
use i_mail.RuleRuns.Actions.{is_archive, next_action, interrupt}

-- A run that can be picked, now or after a retry.
abbrev pub waits : RunStatus → Bool
waits st = is_pending st || has_failed st

-- Action `k` of a run with `c` completed actions is behind, or is the next one and does not wait.
abbrev pub spent_by : ℕ → ℕ → RunStatus → Bool
spent_by k c st = ltb k c || (k == c && not (waits st))

abbrev pub has_archive : ℕ → RunRow → Bool
has_archive k r = is_archive (get_elem? r.actions k)

abbrev pub is_spent : ℕ → RunRow → Bool
is_spent k r = spent_by k r.completed_actions r.status

-- The run `i` is there, and its action `k` is an archive that is spent.
pub record IsSpent (i : Text) (k : ℕ) (runs : List RunRow) : Type 0 where
  pub exists : Any (λ r. text_eq r.id i ≡ true) runs
  pub archives : All (λ r. text_eq r.id i ≡ true → has_archive k r ≡ true) runs
  pub spent : All (λ r. text_eq r.id i ≡ true → is_spent k r ≡ true) runs

pub spent_by-status :
    (k c : ℕ) (st st' : RunStatus)
    → spent_by k c st ≡ true
    → (k ≡ c → waits st ≡ false → waits st' ≡ false)
    → spent_by k c st' ≡ true
spent_by-status k c st st' h f = elim (Bool-cases (ltb k c)) [
  | inl e ↦ rw e refl
  | inr e ↦
      let parts = &&-eq-true (k == c) (not (waits st)) (rw e at h) in
      let same : k ≡ c = ground (arith, parts.0) in
      let still : waits st ≡ false = ground (arith, parts.1) in rw (e, parts.0, f same still) refl
]

pub spent_by-next :
    (k c : ℕ) (st st' : RunStatus) → spent_by k c st ≡ true → spent_by k (suc c) st' ≡ true
spent_by-next k c st st' h = elim (Bool-cases (ltb k c)) [
  | inl e ↦ (let n : ltb k (suc c) ≡ true = ground (arith, e) in rw n refl)
  | inr e ↦
      let parts = &&-eq-true (k == c) (not (waits st)) (rw e at h) in
      let n : ltb k (suc c) ≡ true = ground (arith, parts.0) in rw n refl
]

-- A spent action of a run that waits is behind.
pub spent_by-behind :
    (k c : ℕ) (st : RunStatus) → spent_by k c st ≡ true → waits st ≡ true → ltb k c ≡ true
spent_by-behind k c st h w = ground (arith, h, w)

pub interrupt-spent :
    (now k : ℕ) (r : RunRow)
    → has_archive k r ≡ true
    → is_spent k r ≡ true
    → is_spent k (interrupt now r) ≡ true
interrupt-spent now k r a h =
    spent_by-status k r.completed_actions r.status (interrupt now r).status h (λ e w.
      let n : is_archive (next_action r) ≡ true =
        subst (λ j. is_archive (get_elem? r.actions j) ≡ true) e a in
      rw n refl)

-- `IsSpent` through an UPDATE that keeps the identifiers and the actions.
module _ (i : Text) (k : ℕ) (p : RunRow → Bool) (f : RunRow → RunRow)
    (id_kept : (r : RunRow) → (f r).id ≡ r.id)
    (actions_kept : (r : RunRow) → (f r).actions ≡ r.actions) where
  pub IsSpent-update :
      (runs : List RunRow)
      → All
          (λ r.
            p r ≡ true
            → text_eq r.id i ≡ true
            → has_archive k r ≡ true
            → is_spent k r ≡ true
            → is_spent k (f r) ≡ true)
          runs
      → IsSpent i k runs
      → IsSpent i k (update_where p f runs)
  IsSpent-update runs h s =
      let archives =
        All-update_where (λ r. text_eq r.id i ≡ true → has_archive k r ≡ true) p f
          (λ r t g e. rw (actions_kept r) (g (rw (id_kept r) at e))) runs s.archives in
      record {
        exists =
            Any-update_where (λ r. text_eq r.id i ≡ true) p f (λ r e. rw (id_kept r) e) runs
              s.exists;
        archives = archives;
        spent = spent-All runs h s.archives s.spent;
      }
    where
      spent-All :
          (xs : List RunRow)
          → All
              (λ r.
                p r ≡ true
                → text_eq r.id i ≡ true
                → has_archive k r ≡ true
                → is_spent k r ≡ true
                → is_spent k (f r) ≡ true)
              xs
          → All (λ r. text_eq r.id i ≡ true → has_archive k r ≡ true) xs
          → All (λ r. text_eq r.id i ≡ true → is_spent k r ≡ true) xs
          → All (λ r. text_eq r.id i ≡ true → is_spent k r ≡ true) (update_where p f xs)
      spent-All [] h a s = tt
      spent-All (r ∷ rs) h a s = elim (Bool-cases (p r)) [
        | inl t ↦ rw t (
          λ e. (let e' : text_eq r.id i ≡ true = rw (id_kept r) at e in h.0 t e' (a.0 e') (s.0 e')),
          spent-All rs h.1 a.1 s.1,
        )
        | inr t ↦ rw t (s.0, spent-All rs h.1 a.1 s.1)
      ]

-- A row with another identifier does not matter.
pub IsSpent-append :
    (i : Text) (k : ℕ) (runs : List RunRow) (r : RunRow)
    → (text_eq r.id i ≡ false)
    → IsSpent i k runs
    → IsSpent i k (runs ++ r ∷ [])
IsSpent-append i k runs r n s = record {
  exists = Any-append (λ x. text_eq x.id i ≡ true) runs (r ∷ []) s.exists;
  archives =
      All-append (λ x. text_eq x.id i ≡ true → has_archive k x ≡ true) runs (r ∷ []) s.archives
        (λ e. contradict (text_eq r.id i) e n, tt);
  spent =
      All-append (λ x. text_eq x.id i ≡ true → is_spent k x ≡ true) runs (r ∷ []) s.spent
        (λ e. contradict (text_eq r.id i) e n, tt);
}
