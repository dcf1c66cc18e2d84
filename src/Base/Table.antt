-- ===== src/Base/Table.antt =====
-- A table of a store, as the list of its rows in the order of insertion, and the SQL statements
-- that the stores run on one: UPDATE, DELETE and SELECT with a WHERE test, and ORDER BY … LIMIT 1.
use Prim.Native.Nat.{ℕ, suc}
use mathlib.Core.Path.{◌≡◌, refl, subst, sym}
use mathlib.Core.Logic.{inl, inr}
use mathlib.Core.Bool.{Bool, true, false}
use mathlib.Core.Option.{Option, none, some}
use mathlib.Core.List.{List, [], ◌∷◌, ◌++◌}
use native.Mathlib.Omega.{arith}
use native.Mathlib.Omega.{arith}
use i_mail.Base.Tests.{if◌then◌else◌, Bool-cases}
use i_mail.Base.Lists.{All, Any, here, there}

module _ {ℓ} {A : Type ℓ} where
  -- UPDATE … SET f WHERE p
  abbrev pub update_where : (A → Bool) → (A → A) → List A → List A
  update_where p f [] = []
  update_where p f (x ∷ xs) = (if p x then f x else x) ∷ update_where p f xs

  -- The number of rows that `p` selects.
  abbrev pub count_where : (A → Bool) → List A → ℕ
  count_where p [] = 0
  count_where p (x ∷ xs) = let n = count_where p xs in if p x then suc n else n

  -- DELETE … WHERE p
  abbrev pub delete_where : (A → Bool) → List A → List A
  delete_where p [] = []
  delete_where p (x ∷ xs) = let rest = delete_where p xs in if p x then rest else x ∷ rest

  -- SELECT … WHERE p
  abbrev pub select_where : (A → Bool) → List A → List A
  select_where p [] = []
  select_where p (x ∷ xs) = let rest = select_where p xs in if p x then x ∷ rest else rest

  -- SELECT … WHERE p, where at most one row is expected.
  abbrev pub find_where : (A → Bool) → List A → Option A
  find_where p [] = none
  find_where p (x ∷ xs) = let rest = find_where p xs in if p x then some x else rest

  -- SELECT EXISTS(… WHERE p)
  abbrev pub exists_where : (A → Bool) → List A → Bool
  exists_where p [] = false
  exists_where p (x ∷ xs) = let rest = exists_where p xs in if p x then true else rest

  -- The earlier of two rows under ORDER BY; the older row where they tie.
  abbrev pub earlier : (A → A → Bool) → A → Option A → A
  earlier before x none = x
  earlier before x (some y) = if before y x then y else x

  -- SELECT … WHERE p ORDER BY before LIMIT 1
  abbrev pub first_where : (A → A → Bool) → (A → Bool) → List A → Option A
  first_where before p [] = none
  first_where before p (x ∷ xs) =
      let rest = first_where before p xs in if p x then some (earlier before x rest) else rest

module _ {ℓ κ} {A : Type ℓ} (P : A → Type κ) (p : A → Bool) where
  pub All-update_where :
      (f : A → A)
      → ((x : A) → p x ≡ true → P x → P (f x))
      → (xs : List A) → All P xs
      → All P (update_where p f xs)
  All-update_where f k [] h = tt
  All-update_where f k (x ∷ xs) h = elim (Bool-cases (p x)) [
    | inl e ↦ rw e (k x e h.0, All-update_where f k xs h.1)
    | inr e ↦ rw e (h.0, All-update_where f k xs h.1)
  ]

  pub All-delete_where : (xs : List A) → All P xs → All P (delete_where p xs)
  All-delete_where [] h = tt
  All-delete_where (x ∷ xs) h = elim (Bool-cases (p x)) [
    | inl e ↦ rw e (All-delete_where xs h.1)
    | inr e ↦ rw e (h.0, All-delete_where xs h.1)
  ]

  pub find_where-All :
      (xs : List A) {x : A} → All P xs → find_where p xs ≡ some x → P x × (p x ≡ true)
  find_where-All [] h e = cc
  find_where-All (x ∷ xs) h e = elim (Bool-cases (p x)) [
    | inl t ↦ ground (arith, t)
    | inr t ↦ find_where-All xs h.1 (rw t at e)
  ]

  -- Where every row that the update leaves or makes satisfies `P`, whatever it was before.
  pub update_where-All :
      (f : A → A)
      → ((x : A) → p x ≡ true → P (f x))
      → ((x : A) → p x ≡ false → P x)
      → (xs : List A) → All P (update_where p f xs)
  update_where-All f k l [] = tt
  update_where-All f k l (x ∷ xs) = elim (Bool-cases (p x)) [
    | inl e ↦ rw e (k x e, update_where-All f k l xs)
    | inr e ↦ rw e (l x e, update_where-All f k l xs)
  ]

module _ {ℓ} {A : Type ℓ} (p : A → Bool) where
  pub find_where-none : (xs : List A) → find_where p xs ≡ none → All (λ x. p x ≡ false) xs
  find_where-none [] h = tt
  find_where-none (x ∷ xs) h = elim (Bool-cases (p x)) [
    | inl e ↦ (let k : ◌≡◌ {A = Option A} (some x) none = rw e at h in cc)
    | inr e ↦ (e, find_where-none xs (rw e at h))
  ]

  pub exists_where-false : (xs : List A) → exists_where p xs ≡ false → All (λ x. p x ≡ false) xs
  exists_where-false [] h = tt
  exists_where-false (x ∷ xs) h = elim (Bool-cases (p x)) [
    | inl e ↦ (let k : ◌≡◌ {A = Bool} true false = rw e at h in cc)
    | inr e ↦ (e, exists_where-false xs (rw e at h))
  ]

  pub exists_where-All : (xs : List A) → All (λ x. p x ≡ false) xs → exists_where p xs ≡ false
  exists_where-All [] h = refl
  exists_where-All (x ∷ xs) h = rw h.0 (exists_where-All xs h.1)

  pub Any-exists_where : (xs : List A) → Any (λ x. p x ≡ true) xs → exists_where p xs ≡ true
  Any-exists_where [] m = elim m [ ]
  Any-exists_where (x ∷ xs) (here h) = rw h refl
  Any-exists_where (x ∷ xs) (there m) = elim (Bool-cases (p x)) [
    | inl e ↦ rw e refl
    | inr e ↦ rw e (Any-exists_where xs m)
  ]

  pub exists_where-true :
      (xs : List A) → exists_where p xs ≡ true → (x : A) × Any (λ y. y ≡ x) xs × (p x ≡ true)
  exists_where-true [] h = cc
  exists_where-true (x ∷ xs) h = elim (Bool-cases (p x)) [
    | inl e ↦ (x, here refl, e)
    | inr e ↦ (let (y, m, t) = exists_where-true xs (rw e at h) in (y, there m, t))
  ]

  -- What no row satisfied is not found before a row that does.
  pub find_where-append :
      (xs : List A) (y : A)
      → All (λ x. p x ≡ false) xs
      → p y ≡ true
      → find_where p (xs ++ y ∷ []) ≡ some y
  find_where-append [] y h e = rw e
  find_where-append (x ∷ xs) y h e = rw h.0 (find_where-append xs y h.1 e)

module _ {ℓ} {A : Type ℓ} (p : A → Bool) where
  pub delete_where-All_not : (xs : List A) → All (λ x. p x ≡ false) (delete_where p xs)
  delete_where-All_not [] = tt
  delete_where-All_not (x ∷ xs) = elim (Bool-cases (p x)) [
    | inl e ↦ rw e (delete_where-All_not xs)
    | inr e ↦ rw e (e, delete_where-All_not xs)
  ]

  pub update_where-none :
      (f : A → A) (xs : List A) → All (λ x. p x ≡ false) xs → update_where p f xs ≡ xs
  update_where-none f [] h = refl
  update_where-none f (x ∷ xs) h = rw (h.0, update_where-none f xs h.1)

  pub count_where-none : (xs : List A) → All (λ x. p x ≡ false) xs → count_where p xs ≡ 0
  count_where-none [] h = refl
  count_where-none (x ∷ xs) h = rw h.0 (count_where-none xs h.1)

module _ {ℓ κ} {A : Type ℓ} (P : A → Type κ) where
  -- One row of a SELECT.
  keep-All :
      (b : Bool) (x : A) (rest : List A)
      → (b ≡ true → P x)
      → All P rest
      → All P (if b then x ∷ rest else rest)
  keep-All true x rest k h = (k refl, h)
  keep-All false x rest k h = h

  keep-Any : (b : Bool) (x : A) (rest : List A) → Any P rest → Any P (if b then x ∷ rest else rest)
  keep-Any true x rest a = there a
  keep-Any false x rest a = a

  first-Any :
      (b : Bool) (x : A) (rest : List A) → b ≡ true → P x → Any P (if b then x ∷ rest else rest)
  first-Any b x rest e k = rw e (here k)

-- What an UPDATE makes of the rows, told apart by its test.
pub All-update_map {ℓ κ μ} :
    {A : Type ℓ} (P : A → Type κ) (Q : A → Type μ) (p : A → Bool) (f : A → A)
    → ((x : A) → p x ≡ true → P x → Q (f x))
    → ((x : A) → p x ≡ false → P x → Q x)
    → (xs : List A) → All P xs
    → All Q (update_where p f xs)
All-update_map P Q p f k l [] h = tt
All-update_map P Q p f k l (x ∷ xs) h = elim (Bool-cases (p x)) [
  | inl e ↦ rw e (k x e h.0, All-update_map P Q p f k l xs h.1)
  | inr e ↦ rw e (l x e h.0, All-update_map P Q p f k l xs h.1)
]

-- What holds of every row after an UPDATE holds of what it made of each row.
pub All-updated {ℓ κ} :
    {A : Type ℓ} (P : A → Type κ) (p : A → Bool) (f : A → A) (xs : List A)
    → All P (update_where p f xs)
    → All (λ x. P (if p x then f x else x)) xs
All-updated P p f [] h = tt
All-updated P p f (x ∷ xs) h = (h.0, All-updated P p f xs h.1)

-- A row after an UPDATE is what it made of some row.
pub Any-updated {ℓ} :
    {A : Type ℓ} (p : A → Bool) (f : A → A) (y : A) (xs : List A)
    → Any (λ z. z ≡ y) (update_where p f xs)
    → Any (λ x. (if p x then f x else x) ≡ y) xs
Any-updated p f y [] m = elim m [ ]
Any-updated p f y (x ∷ xs) (here e) = here e
Any-updated p f y (x ∷ xs) (there m) = there (Any-updated p f y xs m)

pub select_where-All {ℓ κ} :
    {A : Type ℓ} (P : A → Type κ) (p : A → Bool) (xs : List A)
    → All P xs
    → All (λ x. P x × (p x ≡ true)) (select_where p xs)
select_where-All P p [] h = tt
select_where-All P p (x ∷ xs) h =
    keep-All (λ x. P x × (p x ≡ true)) (p x) x (select_where p xs) (λ e. (h.0, e))
      (select_where-All P p xs h.1)

pub select_where-Any {ℓ} :
    {A : Type ℓ} (p : A → Bool) (x : A) (xs : List A)
    → p x ≡ true
    → Any (λ y. y ≡ x) xs
    → Any (λ y. y ≡ x) (select_where p xs)
select_where-Any p x [] t a = elim a [ ]
select_where-Any p x (y ∷ ys) t (here e) =
    first-Any (λ v. v ≡ x) (p y) y (select_where p ys) (subst (λ v. p v ≡ true) (sym e) t) e
select_where-Any p x (y ∷ ys) t (there a) =
    keep-Any (λ v. v ≡ x) (p y) y (select_where p ys) (select_where-Any p x ys t a)
