-- ===== src/Base/Unique.antt =====
-- Tables under a uniqueness constraint: `clash` tells two rows that the schema does not allow beside
-- each other.
use Prim.Native.Nat.{suc}
use mathlib.Core.Path.{◌≡◌, refl, subst, sym, ap, ◌∙◌}
use mathlib.Core.Logic.{inl, inr}
use mathlib.Core.Bool.{Bool, true, false}
use mathlib.Core.Option.{some, some-injective}
use mathlib.Core.List.{List, [], ◌∷◌, ◌++◌}
use i_mail.Base.Tests.{if◌then◌else◌, Bool-cases}
use i_mail.Base.Lists.{All, All-append, Any, here, there, All-Any}
use i_mail.Base.Table.{update_where, count_where, find_where}

module _ {ℓ} {A : Type ℓ} (clash : A → A → Bool) where
  abbrev pub IsUnique : List A → Type 0
  IsUnique [] = Unit
  IsUnique (x ∷ xs) = All (λ y. clash x y ≡ false) xs × IsUnique xs

  -- A change that makes no row clash that did not clash before.
  abbrev pub IsCalm : (A → Bool) → (A → A) → Type ℓ
  IsCalm p f =
      (x y : A)
      → p x ≡ true
      → (clash x y ≡ false → clash (f x) y ≡ false) × (clash y x ≡ false → clash y (f x) ≡ false)

  All-clash-update :
      (p : A → Bool) (f : A → A) (z : A) (xs : List A)
      → IsCalm p f
      → All (λ y. clash z y ≡ false) xs
      → All (λ y. clash z y ≡ false) (update_where p f xs)
  All-clash-update p f z [] calm h = tt
  All-clash-update p f z (x ∷ xs) calm h = elim (Bool-cases (p x)) [
    | inl e ↦ rw e ((calm x z e).1 h.0, All-clash-update p f z xs calm h.1)
    | inr e ↦ rw e (h.0, All-clash-update p f z xs calm h.1)
  ]

  All-calm :
      (p : A → Bool) (f : A → A) (x : A) (xs : List A)
      → IsCalm p f
      → p x ≡ true
      → All (λ y. clash x y ≡ false) xs
      → All (λ y. clash (f x) y ≡ false) xs
  All-calm p f x [] calm e h = tt
  All-calm p f x (y ∷ ys) calm e h = ((calm x y e).0 h.0, All-calm p f x ys calm e h.1)

  pub IsUnique-update :
      (p : A → Bool) (f : A → A) (xs : List A)
      → IsCalm p f
      → IsUnique xs
      → IsUnique (update_where p f xs)
  IsUnique-update p f [] calm h = tt
  IsUnique-update p f (x ∷ xs) calm h =
      let rest = All-clash-update p f x xs calm h.0 in
      let unique = IsUnique-update p f xs calm h.1 in
      elim (Bool-cases (p x)) [
        | inl e ↦ rw e (All-calm p f x (update_where p f xs) calm e rest, unique)
        | inr e ↦ rw e (rest, unique)
      ]

  pub IsUnique-append :
      (xs : List A) (y : A)
      → IsUnique xs
      → All (λ x. clash x y ≡ false) xs
      → IsUnique (xs ++ y ∷ [])
  IsUnique-append [] y h k = (tt, tt)
  IsUnique-append (x ∷ xs) y h k =
      (All-append (λ z. clash x z ≡ false) xs (y ∷ []) h.0 (k.0, tt), IsUnique-append xs y h.1 k.1)

  -- What the test finds clashes with `x`, so it is `x` where the table is unique.
  abbrev pub IsOnly : (A → Bool) → A → Type ℓ
  IsOnly p x = (y : A) → p y ≡ true → (clash x y ≡ true) × (clash y x ≡ true)

  true≢false {κ} : (b : Bool) {B : Type κ} → b ≡ true → b ≡ false → B
  true≢false b t f = (let k : ◌≡◌ {A = Bool} true false = sym t ∙ f in cc)

  not_before : (p : A → Bool) (x y : A) → IsOnly p x → clash y x ≡ false → p y ≡ false
  not_before p x y only apart = elim (Bool-cases (p y)) [
    | inl e ↦ true≢false (clash y x) (only y e).1 apart
    | inr e ↦ e
  ]

  none_after :
      (p : A → Bool) (x : A) (xs : List A)
      → IsOnly p x
      → All (λ y. clash x y ≡ false) xs
      → count_where p xs ≡ 0
  none_after p x [] only h = refl
  none_after p x (y ∷ ys) only h = elim (Bool-cases (p y)) [
    | inl e ↦ true≢false (clash x y) (only y e).0 h.0
    | inr e ↦ rw e (none_after p x ys only h.1)
  ]

  pub count-one :
      (p : A → Bool) (x : A) (xs : List A)
      → p x ≡ true
      → IsOnly p x
      → IsUnique xs
      → Any (λ y. y ≡ x) xs
      → count_where p xs ≡ 1
  count-one p x [] t only u m = elim m [ ]
  count-one p x (y ∷ ys) t only u (here e) =
      let same : p y ≡ true = subst (λ z. p z ≡ true) (sym e) t in
      let rest = subst (λ z. All (λ v. clash z v ≡ false) ys) e u.0 in
      rw same (ap suc (none_after p x ys only rest))
  count-one p x (y ∷ ys) t only u (there m) =
      let apart = All-Any (λ v. clash y v ≡ false) ys x u.0 m in
      rw (not_before p x y only apart) (count-one p x ys t only u.1 m)

  pub find-one :
      (p : A → Bool) (x : A) (xs : List A)
      → p x ≡ true
      → IsOnly p x
      → IsUnique xs
      → Any (λ y. y ≡ x) xs
      → find_where p xs ≡ some x
  find-one p x [] t only u m = elim m [ ]
  find-one p x (y ∷ ys) t only u (here e) =
      let same : p y ≡ true = subst (λ z. p z ≡ true) (sym e) t in rw same (ap some e)
  find-one p x (y ∷ ys) t only u (there m) =
      let apart = All-Any (λ v. clash y v ≡ false) ys x u.0 m in
      rw (not_before p x y only apart) (find-one p x ys t only u.1 m)

  All-after :
      (p : A → Bool) (x : A) (xs : List A)
      → IsOnly p x
      → All (λ y. clash x y ≡ false) xs
      → All (λ y. p y ≡ true → y ≡ x) xs
  All-after p x [] only h = tt
  All-after p x (y ∷ ys) only h =
      (λ t. true≢false (clash x y) (only y t).0 h.0, All-after p x ys only h.1)

  -- In a unique table the test finds nothing but the row `x`.
  pub All-only :
      (p : A → Bool) (x : A) (xs : List A)
      → IsOnly p x
      → IsUnique xs
      → Any (λ y. y ≡ x) xs
      → All (λ y. p y ≡ true → y ≡ x) xs
  All-only p x [] only u m = tt
  All-only p x (y ∷ ys) only u (here e) =
      (λ t. e, All-after p x ys only (subst (λ z. All (λ v. clash z v ≡ false) ys) e u.0))
  All-only p x (y ∷ ys) only u (there m) = (
    λ t. true≢false (clash y x) (only y t).1 (All-Any (λ v. clash y v ≡ false) ys x u.0 m),
    All-only p x ys only u.1 m,
  )

module _ {ℓ} {A : Type ℓ} (p : A → Bool) where
  pub Any-update :
      (f : A → A) (x : A) (xs : List A)
      → p x ≡ true
      → Any (λ y. y ≡ x) xs
      → Any (λ y. y ≡ f x) (update_where p f xs)
  Any-update f x [] t m = elim m [ ]
  Any-update f x (y ∷ ys) t (here e) =
      here (subst (λ z. (if p z then f z else z) ≡ f x) (sym e) (rw t))
  Any-update f x (y ∷ ys) t (there m) = there (Any-update f x ys t m)

  pub Any-unchanged :
      (f : A → A) (x : A) (xs : List A)
      → p x ≡ false
      → Any (λ y. y ≡ x) xs
      → Any (λ y. y ≡ x) (update_where p f xs)
  Any-unchanged f x [] t m = elim m [ ]
  Any-unchanged f x (y ∷ ys) t (here e) =
      here (subst (λ z. (if p z then f z else z) ≡ x) (sym e) (rw t refl))
  Any-unchanged f x (y ∷ ys) t (there m) = there (Any-unchanged f x ys t m)

  pub find_where-Any : (xs : List A) (x : A) → find_where p xs ≡ some x → Any (λ y. y ≡ x) xs
  find_where-Any [] x e = cc
  find_where-Any (y ∷ ys) x e = elim (Bool-cases (p y)) [
    | inl t ↦ here (some-injective y x (rw t at e))
    | inr t ↦ there (find_where-Any ys x (rw t at e))
  ]

module _ {ℓ κ} {A : Type ℓ} (P : A → Type κ) where
  pub Any-update_where :
      (p : A → Bool) (f : A → A)
      → ((x : A) → P x → P (f x))
      → (xs : List A) → Any P xs
      → Any P (update_where p f xs)
  Any-update_where p f k [] m = elim m [ ]
  Any-update_where p f k (x ∷ xs) (here h) = elim (Bool-cases (p x)) [
    | inl e ↦ rw e (here (k x h))
    | inr e ↦ rw e (here h)
  ]
  Any-update_where p f k (x ∷ xs) (there m) = there (Any-update_where p f k xs m)

  pub Any-append : (xs ys : List A) → Any P xs → Any P (xs ++ ys)
  Any-append [] ys m = elim m [ ]
  Any-append (x ∷ xs) ys (here h) = here h
  Any-append (x ∷ xs) ys (there m) = there (Any-append xs ys m)

  pub last-Any : (xs : List A) (x : A) → P x → Any P (xs ++ x ∷ [])
  last-Any [] x h = here h
  last-Any (y ∷ ys) x h = there (last-Any ys x h)

  pub Any-map {μ} : (Q : A → Type μ) → ((x : A) → P x → Q x) → (xs : List A) → Any P xs → Any Q xs
  Any-map Q f [] m = elim m [ ]
  Any-map Q f (x ∷ xs) (here h) = here (f x h)
  Any-map Q f (x ∷ xs) (there m) = there (Any-map Q f xs m)

  -- A member that satisfies the predicate.
  pub Any-member : (xs : List A) → Any P xs → (x : A) × Any (λ y. y ≡ x) xs × P x
  Any-member [] m = elim m [ ]
  Any-member (x ∷ xs) (here h) = (x, here refl, h)
  Any-member (x ∷ xs) (there m) = let (y, n, h) = Any-member xs m in (y, there n, h)

  pub All-always : ((x : A) → P x) → (xs : List A) → All P xs
  All-always k [] = tt
  All-always k (x ∷ xs) = (k x, All-always k xs)

pub update_where-cong {ℓ} :
    {A : Type ℓ} (p q : A → Bool) (f : A → A) (xs : List A)
    → All (λ x. p x ≡ q x) xs
    → update_where p f xs ≡ update_where q f xs
update_where-cong p q f [] h = refl
update_where-cong p q f (x ∷ xs) h = rw (h.0, update_where-cong p q f xs h.1)
