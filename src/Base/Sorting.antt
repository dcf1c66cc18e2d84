-- ===== src/Base/Sorting.antt =====
-- ORDER BY and `sort_by`: a stable insertion sort, and what its result is.
use mathlib.Core.Path.{◌≡◌, refl, sym, ◌∙◌, subst}
use mathlib.Core.Logic.{inl, inr}
use mathlib.Core.Bool.{Bool, true, false}
use mathlib.Core.List.{List, [], ◌∷◌}
use native.Mathlib.Omega.{arith}
use i_mail.Base.Tests.{if◌then◌else◌, Bool-cases}
use i_mail.Base.Lists.{All, All-map, Any, here, there}
use i_mail.Base.Texts.{Text, text_before, text_eq, text_eq_sound}

module _ {ℓ} {A : Type ℓ} where
  -- Before the first row that `before` puts strictly after `x`.
  abbrev pub insert_sorted : (A → A → Bool) → A → List A → List A
  insert_sorted before x [] = x ∷ []
  insert_sorted before x (y ∷ ys) =
      let later = y ∷ insert_sorted before x ys in if before y x then later else x ∷ y ∷ ys

  abbrev pub sort_by : (A → A → Bool) → List A → List A
  sort_by before [] = []
  sort_by before (x ∷ xs) = insert_sorted before x (sort_by before xs)

module _ {ℓ} {A : Type ℓ} (before : A → A → Bool) where
  module _ {κ} (P : A → Type κ) where
    insert_sorted-All : (x : A) (xs : List A) → P x → All P xs → All P (insert_sorted before x xs)
    insert_sorted-All x [] p h = (p, tt)
    insert_sorted-All x (y ∷ ys) p h = elim (Bool-cases (before y x)) [
      | inl e ↦ rw e (h.0, insert_sorted-All x ys p h.1)
      | inr e ↦ rw e (p, h)
    ]

    pub sort_by-All : (xs : List A) → All P xs → All P (sort_by before xs)
    sort_by-All [] h = tt
    sort_by-All (x ∷ xs) h = insert_sorted-All x (sort_by before xs) h.0 (sort_by-All xs h.1)

    insert_sorted-here : (x : A) (xs : List A) → P x → Any P (insert_sorted before x xs)
    insert_sorted-here x [] p = here p
    insert_sorted-here x (y ∷ ys) p = elim (Bool-cases (before y x)) [
      | inl e ↦ rw e (there (insert_sorted-here x ys p))
      | inr e ↦ rw e (here p)
    ]

    insert_sorted-there : (x : A) (xs : List A) → Any P xs → Any P (insert_sorted before x xs)
    insert_sorted-there x [] m = elim m [ ]
    insert_sorted-there x (y ∷ ys) (here p) = elim (Bool-cases (before y x)) [
      | inl e ↦ rw e (here p)
      | inr e ↦ rw e (there (here p))
    ]
    insert_sorted-there x (y ∷ ys) (there m) = elim (Bool-cases (before y x)) [
      | inl e ↦ rw e (there (insert_sorted-there x ys m))
      | inr e ↦ rw e (there (there m))
    ]

    pub sort_by-Any : (xs : List A) → Any P xs → Any P (sort_by before xs)
    sort_by-Any [] m = elim m [ ]
    sort_by-Any (x ∷ xs) (here p) = insert_sorted-here x (sort_by before xs) p
    sort_by-Any (x ∷ xs) (there m) = insert_sorted-there x (sort_by before xs) (sort_by-Any xs m)

  -- No row comes strictly before an earlier one.
  abbrev pub IsSorted : List A → Type 0
  IsSorted [] = Unit
  IsSorted (x ∷ xs) = All (λ y. before y x ≡ false) xs × IsSorted xs

  module _ (asym : (a b : A) → before a b ≡ true → before b a ≡ false)
      (trans : (a b c : A) → before b a ≡ false → before c b ≡ false → before c a ≡ false) where
    insert_sorted-IsSorted :
        (x : A) (xs : List A) → IsSorted xs → IsSorted (insert_sorted before x xs)
    insert_sorted-IsSorted x [] h = (tt, tt)
    insert_sorted-IsSorted x (y ∷ ys) h = elim (Bool-cases (before y x)) [
      | inl e ↦ rw e (
        insert_sorted-All (λ z. before z y ≡ false) x ys (asym y x e) h.0,
        insert_sorted-IsSorted x ys h.1,
      )
      | inr e ↦ rw e (
        (
          e,
          All-map (λ z. before z y ≡ false) (λ z. before z x ≡ false) (λ z k. trans x y z e k) ys
              h.0,
        ),
        h,
      )
    ]

    pub sort_by-IsSorted : (xs : List A) → IsSorted (sort_by before xs)
    sort_by-IsSorted [] = tt
    sort_by-IsSorted (x ∷ xs) = insert_sorted-IsSorted x (sort_by before xs) (sort_by-IsSorted xs)

-- The order of texts is one that sorting can use.
pub text_before_irrefl : (s : Text) → text_before s s ≡ false
text_before_irrefl [] = refl
text_before_irrefl (a ∷ s) = ground (arith, text_before_irrefl s)

pub text_before_asym : (s t : Text) → text_before s t ≡ true → text_before t s ≡ false
text_before_asym [] [] h = refl
text_before_asym [] (b ∷ t) h = refl
text_before_asym (a ∷ s) [] h = cc
text_before_asym (a ∷ s) (b ∷ t) h = ground (arith, h, text_before_asym s t)

pub text_eq-sym : (s t : Text) → text_eq s t ≡ text_eq t s
text_eq-sym [] [] = refl
text_eq-sym [] (b ∷ t) = refl
text_eq-sym (a ∷ s) [] = refl
text_eq-sym (a ∷ s) (b ∷ t) = ground (arith, text_eq-sym s t)

pub text_before_trans :
    (s t u : Text) → text_before t s ≡ false → text_before u t ≡ false → text_before u s ≡ false
text_before_trans [] [] u h k = k
text_before_trans [] (b ∷ t) [] h k = refl
text_before_trans [] (b ∷ t) (c ∷ u) h k = refl
text_before_trans (a ∷ s) [] u h k = cc
text_before_trans (a ∷ s) (b ∷ t) [] h k = cc
text_before_trans (a ∷ s) (b ∷ t) (c ∷ u) h k = ground (arith, h, k, text_before_trans s t u)

-- Texts that neither comes before the other are equal.
pub text_before-eq :
    (s t : Text) → text_before s t ≡ false → text_before t s ≡ false → text_eq s t ≡ true
text_before-eq [] [] h k = refl
text_before-eq [] (b ∷ t) h k = cc
text_before-eq (a ∷ s) [] h k = cc
text_before-eq (a ∷ s) (b ∷ t) h k = ground (arith, h, k, text_before-eq s t)

pub equal_not_before : (s t : Text) → text_eq s t ≡ true → text_before s t ≡ false
equal_not_before s t e =
    subst (λ u. text_before s u ≡ false) (text_eq_sound s t e) (text_before_irrefl s)

-- A text that comes between two equal ones is equal to both.
pub equal_between :
    (s t u : Text)
    → text_eq u s ≡ true
    → text_before t s ≡ false
    → text_before u t ≡ false
    → (text_eq t s ≡ true) × (text_eq u t ≡ true)
equal_between s t u e h k =
    let same = text_eq_sound u s e in
    let first = text_before-eq t s h (subst (λ v. text_before v t ≡ false) same k) in
    (first, subst (λ v. text_eq v t ≡ true) (sym same) (sym (text_eq-sym t s) ∙ first))
