-- ===== src/Base/Selection.antt =====
-- SELECT … ORDER BY … LIMIT 1: which row it finds.
use Prim.Native.Nat.{ℕ, ◌≤◌}
use mathlib.Core.Path.{◌≡◌, refl, subst, sym, ◌∙◌}
use mathlib.Core.Logic.{inl, inr}
use mathlib.Core.Bool.{Bool, true, false}
use mathlib.Core.Option.{Option, none, some, some-injective}
use mathlib.Core.List.{List, [], ◌∷◌}
use native.Mathlib.Omega.{arith}
use native.Mathlib.Omega.{arith}
use i_mail.Base.Tests.{Bool-cases}
use i_mail.Base.Lists.{All, All-map, Any, here, there}
use i_mail.Base.Table.{earlier, first_where}

-- The choice of `earlier` is one of the two rows.
pub earlier_of {ℓ κ} :
    {A : Type ℓ} (Q : A → Type κ) (before : A → A → Bool) (y : A) (o : Option A)
    → Q y
    → ((z : A) → o ≡ some z → Q z)
    → Q (earlier before y o)
earlier_of Q before y none q k = q
earlier_of Q before y (some z) q k = elim (Bool-cases (before z y)) [
  | inl b ↦ rw b (k z refl)
  | inr b ↦ rw b q
]

module _ {ℓ κ} {A : Type ℓ} (P : A → Type κ) (p : A → Bool) (before : A → A → Bool) where
  pub first_where-All :
      (xs : List A) (x : A) → All P xs → first_where before p xs ≡ some x → P x × (p x ≡ true)
  first_where-All [] x h e = cc
  first_where-All (y ∷ ys) x h e = elim (Bool-cases (p y)) [
    | inr t ↦ first_where-All ys x h.1 (rw t at e)
    | inl t ↦
        subst (λ z. P z × (p z ≡ true))
          (some-injective (earlier before y (first_where before p ys)) x (rw t at e))
          (earlier_of (λ z. P z × (p z ≡ true)) before y (first_where before p ys) (h.0, t)
            (λ z n. first_where-All ys z h.1 n))
  ]

module _ {ℓ} {A : Type ℓ} (before : A → A → Bool) (p : A → Bool) where
  pub first_where-none : (xs : List A) → first_where before p xs ≡ none → All (λ x. p x ≡ false) xs
  first_where-none [] h = tt
  first_where-none (x ∷ xs) h = elim (Bool-cases (p x)) [
    | inl e ↦
        (let k : ◌≡◌ {A = Option A} (some (earlier before x (first_where before p xs))) none =
            rw e at h in
          cc)
    | inr e ↦ (e, first_where-none xs (rw e at h))
  ]

  pub first_where-Any :
      (xs : List A) (x : A) → first_where before p xs ≡ some x → Any (λ y. y ≡ x) xs
  first_where-Any [] x e = cc
  first_where-Any (y ∷ ys) x e = elim (Bool-cases (p y)) [
    | inr t ↦ there (first_where-Any ys x (rw t at e))
    | inl t ↦
        subst (λ z. Any (λ v. v ≡ z) (y ∷ ys))
          (some-injective (earlier before y (first_where before p ys)) x (rw t at e))
          (earlier_of (λ z. Any (λ v. v ≡ z) (y ∷ ys)) before y (first_where before p ys)
            (here refl) (λ z n. there (first_where-Any ys z n)))
  ]

  -- The row that is selected is related to every other row of the selection, in a preorder that the
  -- order of the selection respects.
  module _ (R : A → A → Type 0) (R_refl : (a : A) → R a a)
      (R_trans : (a b c : A) → R a b → R b c → R a c) (le : (a b : A) → before a b ≡ true → R a b)
      (ge : (a b : A) → before a b ≡ false → R b a) where
    earlier-BestIn :
        (y : A) (xs : List A) (o : Option A)
        → o ≡ first_where before p xs
        → ((z : A) → o ≡ some z → All (λ v. p v ≡ true → R z v) xs)
        → All (λ v. p v ≡ true → R (earlier before y o) v) (y ∷ xs)
    earlier-BestIn y xs none n k = (
      λ q. R_refl y,
      All-map (λ x. p x ≡ false) (λ v. p v ≡ true → R y v)
          (λ x e f. (let k : ◌≡◌ {A = Bool} true false = sym f ∙ e in cc)) xs
          (first_where-none xs (sym n)),
    )
    earlier-BestIn y xs (some z) n k =
        let Best = λ (w : A). All (λ v. p v ≡ true → R w v) (y ∷ xs) in
        elim (Bool-cases (before z y)) [
          | inl b ↦
              (let e : earlier before y (some z) ≡ z = rw b in
                subst Best (sym e) (λ q. le z y b, k z refl))
          | inr b ↦
              (let e : earlier before y (some z) ≡ y = rw b in
                subst Best (sym e) (
                  λ q. R_refl y,
                  All-map (λ v. p v ≡ true → R z v) (λ v. p v ≡ true → R y v)
                      (λ x h f. R_trans y z x (ge z y b) (h f)) xs (k z refl),
                ))
        ]

    pub first_where-best :
        (xs : List A) (x : A) → first_where before p xs ≡ some x → All (λ z. p z ≡ true → R x z) xs
    first_where-best [] x e = tt
    first_where-best (y ∷ ys) x e = elim (Bool-cases (p y)) [
      | inr t ↦ (
        λ q. (let k : ◌≡◌ {A = Bool} true false = sym q ∙ t in cc),
        first_where-best ys x (rw t at e),
      )
      | inl t ↦
          subst (λ w. All (λ z. p z ≡ true → R w z) (y ∷ ys))
            (some-injective (earlier before y (first_where before p ys)) x (rw t at e))
            (earlier-BestIn y ys (first_where before p ys) refl (λ z n. first_where-best ys z n))
    ]

  -- A key that the order respects is least at the row that is selected.
  pub first_where-least :
      (key : A → ℕ)
      → ((a b : A) → before a b ≡ true → key a ≤ key b)
      → ((a b : A) → before a b ≡ false → key b ≤ key a)
      → (xs : List A) (x : A) → first_where before p xs ≡ some x
      → All (λ z. p z ≡ true → key x ≤ key z) xs
  first_where-least key le ge xs x e =
      first_where-best (λ a b. key a ≤ key b) (λ a. omega arith) (λ a b c h k. omega (arith, h, k))
        le ge xs x e
