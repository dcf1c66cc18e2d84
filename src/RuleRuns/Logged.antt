-- ===== src/RuleRuns/Logged.antt =====
-- The table of runs in crates/imail-storage-sqlite/src/rules.rs beside the works that were handed out.
use i_mail.Base.{
  ◌≡◌, inl, inr, Bool, true, false, some, List, [], ◌∷◌, ◌++◌, get_elem?, All, All-append, All-map,
  Any, here, there, Bool-cases, contradict,
}
use i_mail.Base.Table.{update_where, All-update_where}
use i_mail.Base.Unique.{
  IsUnique, IsUnique-update, IsUnique-append, IsOnly, Any-update_where, Any-append,
}
use i_mail.Base.Texts.{Text, text_eq, text_eq_sound, text_eq_refl}
use i_mail.RuleRuns.Types.{RunRow, RuleWork, has_run_id}

abbrev pub same_run_id : RunRow → RunRow → Bool
same_run_id r x = text_eq x.id r.id

-- The run of the work is there, and has its action at its index.
pub record IsIssued (runs : List RunRow) (w : RuleWork) : Type 0 where
  pub exists : Any (λ r. text_eq r.id w.id ≡ true) runs
  pub action :
      All (λ r. text_eq r.id w.id ≡ true → get_elem? r.actions w.index ≡ some w.action) runs

pub record IsLogged (runs : List RunRow) (ws : List RuleWork) : Type 0 where
  pub unique : IsUnique same_run_id runs
  pub issued : All (IsIssued runs) ws

pub has_run_id-IsOnly : (r : RunRow) → IsOnly same_run_id (has_run_id r.id) r
has_run_id-IsOnly r y e =
    let same : y.id ≡ r.id = text_eq_sound y.id r.id e in (e, rw same (text_eq_refl r.id))

module _ (p : RunRow → Bool) (f : RunRow → RunRow) (id_kept : (r : RunRow) → (f r).id ≡ r.id)
    (actions_kept : (r : RunRow) → (f r).actions ≡ r.actions) where
  pub IsIssued-update :
      (runs : List RunRow) (w : RuleWork) → IsIssued runs w → IsIssued (update_where p f runs) w
  IsIssued-update runs w h = record {
    exists =
        Any-update_where (λ r. text_eq r.id w.id ≡ true) p f (λ r e. rw (id_kept r) e) runs
          h.exists;
    action =
        All-update_where
          (λ r. text_eq r.id w.id ≡ true → get_elem? r.actions w.index ≡ some w.action) p f
          (λ r t g e. rw (actions_kept r) (g (rw (id_kept r) at e))) runs h.action;
  }

  pub IsLogged-update :
      (runs : List RunRow) (ws : List RuleWork)
      → IsLogged runs ws
      → IsLogged (update_where p f runs) ws
  IsLogged-update runs ws h = record {
    unique =
        IsUnique-update same_run_id p f runs
          (λ x y e. (λ k. rw (id_kept x) k, λ k. rw (id_kept x) k)) h.unique;
    issued =
        All-map (IsIssued runs) (IsIssued (update_where p f runs)) (IsIssued-update runs) ws
          h.issued;
  }

pub apart :
    (i : Text) (r : RunRow) (xs : List RunRow)
    → text_eq r.id i ≡ true
    → All (λ x. has_run_id r.id x ≡ false) xs
    → Any (λ x. text_eq x.id i ≡ true) xs
    → ⊥
apart i r [] e a m = elim m [ ]
apart i r (x ∷ xs) e a (here g) =
    let one : x.id ≡ i = text_eq_sound x.id i g in
    let two : r.id ≡ i = text_eq_sound r.id i e in
    let both : text_eq x.id r.id ≡ true = rw (one, two) (text_eq_refl i) in
    contradict (text_eq x.id r.id) both a.0
apart i r (x ∷ xs) e a (there m) = apart i r xs e a.1 m

-- A row whose identifier no other row has.
pub IsLogged-append :
    (runs : List RunRow) (r : RunRow) (ws : List RuleWork)
    → All (λ x. has_run_id r.id x ≡ false) runs
    → IsLogged runs ws
    → IsLogged (runs ++ r ∷ []) ws
IsLogged-append runs r ws n h = record {
  unique = IsUnique-append same_run_id runs r h.unique (
      All-map (λ x. has_run_id r.id x ≡ false) (λ x. same_run_id x r ≡ false)
        (λ x e. not_same x.id r.id e) runs n);
  issued = All-map (IsIssued runs) (IsIssued (runs ++ r ∷ [])) issued ws h.issued;
}
  where
    not_same : (s t : Text) → text_eq s t ≡ false → text_eq t s ≡ false
    not_same s t e = elim (Bool-cases (text_eq t s)) [
      | inl y ↦
          (let same : t ≡ s = text_eq_sound t s y in
            contradict (text_eq s t) (rw same (text_eq_refl s)) e)
      | inr y ↦ y
    ]

    issued : (w : RuleWork) → IsIssued runs w → IsIssued (runs ++ r ∷ []) w
    issued w i = record {
      exists = Any-append (λ x. text_eq x.id w.id ≡ true) runs (r ∷ []) i.exists;
      action =
          All-append (λ x. text_eq x.id w.id ≡ true → get_elem? x.actions w.index ≡ some w.action)
            runs (r ∷ []) i.action (λ e. elim (apart w.id r runs e n i.exists) [ ], tt);
    }
