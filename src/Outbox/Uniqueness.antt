-- ===== src/Outbox/Uniqueness.antt =====
-- The unique keys of `outbox_items`: the primary key, and the owner with the idempotency key.
use i_mail.Base.{
  ◌≢◌, Any, here, there, All-Any, eq_iff, suc, ap, if◌then◌else◌, ◌≡◌, refl, sym, inl, inr, Bool,
  true, false, some, List, [], ◌∷◌, ◌++◌, All, All-append, Bool-cases, str_eq, sql_eq, arith, ◌&&◌,
  ◌||◌, subst,
}
use i_mail.Base.Table.{update_where, delete_where, find_where, count_where, All-delete_where}
use i_mail.Outbox.Types.{OutboxItem}
use i_mail.Outbox.Lifecycle.{Identity, identity}

-- Two rows that the schema's unique keys do not allow beside each other.
abbrev pub clashes : Identity → Identity → Bool
clashes (id, owner, _, _, key, _, _) (id', owner', _, _, key', _, _) =
    str_eq id id' || (str_eq owner owner' && sql_eq key key')

abbrev pub Apart : OutboxItem → OutboxItem → Type 0
Apart x y = clashes (identity x) (identity y) ≡ false

abbrev pub IsUnique : List OutboxItem → Type 0
IsUnique [] = Unit
IsUnique (x ∷ xs) = All (Apart x) xs × IsUnique xs

All-Apart-update :
    (p : OutboxItem → Bool) (f : OutboxItem → OutboxItem) (z : OutboxItem) (xs : List OutboxItem)
    → ((x : OutboxItem) → identity (f x) ≡ identity x)
    → All (Apart z) xs
    → All (Apart z) (update_where p f xs)
All-Apart-update p f z [] same h = tt
All-Apart-update p f z (x ∷ xs) same h = elim (Bool-cases (p x)) [
  | inl e ↦ rw e (
    subst (λ i. clashes (identity z) i ≡ false) (sym (same x)) h.0,
    All-Apart-update p f z xs same h.1,
  )
  | inr e ↦ rw e (h.0, All-Apart-update p f z xs same h.1)
]

pub IsUnique-update :
    (p : OutboxItem → Bool) (f : OutboxItem → OutboxItem) (xs : List OutboxItem)
    → ((x : OutboxItem) → identity (f x) ≡ identity x)
    → IsUnique xs
    → IsUnique (update_where p f xs)
IsUnique-update p f [] same h = tt
IsUnique-update p f (x ∷ xs) same h =
    let rest = All-Apart-update p f x xs same h.0 in
    let unique = IsUnique-update p f xs same h.1 in
    elim (Bool-cases (p x)) [
      | inl e ↦ rw e (
        subst (λ i. All (λ y. clashes i (identity y) ≡ false) (update_where p f xs)) (sym (same x))
            rest,
        unique,
      )
      | inr e ↦ rw e (rest, unique)
    ]

pub IsUnique-delete :
    (p : OutboxItem → Bool) (xs : List OutboxItem) → IsUnique xs → IsUnique (delete_where p xs)
IsUnique-delete p [] h = tt
IsUnique-delete p (x ∷ xs) h = elim (Bool-cases (p x)) [
  | inl e ↦ rw e (IsUnique-delete p xs h.1)
  | inr e ↦ rw e (All-delete_where (Apart x) p xs h.0, IsUnique-delete p xs h.1)
]

pub IsUnique-append :
    (xs : List OutboxItem) (y : OutboxItem)
    → IsUnique xs
    → All (λ x. Apart x y) xs
    → IsUnique (xs ++ y ∷ [])
IsUnique-append [] y h k = (tt, tt)
IsUnique-append (x ∷ xs) y h k =
    (All-append (Apart x) xs (y ∷ []) h.0 (k.0, tt), IsUnique-append xs y h.1 k.1)

-- A test that finds only rows of `x`'s identifier finds `x` alone.
abbrev pub OnlyId : (OutboxItem → Bool) → OutboxItem → Type 0
OnlyId p x = (y : OutboxItem) → p y ≡ true → y.id ≡ x.id

Apart-ne : (x y : OutboxItem) → Apart x y → x.id ≢ y.id
Apart-ne x y h e = ground (arith, h, e, eq_iff x.id y.id)

not_found : (p : OutboxItem → Bool) (x y : OutboxItem) → OnlyId p x → x.id ≢ y.id → p y ≡ false
not_found p x y only ne = elim (Bool-cases (p y)) [
  | inl e ↦ absurd (ne (sym (only y e)))
  | inr e ↦ e
]

count-none :
    (p : OutboxItem → Bool) (x : OutboxItem) (xs : List OutboxItem)
    → OnlyId p x
    → All (Apart x) xs
    → count_where p xs ≡ 0
count-none p x [] only h = refl
count-none p x (y ∷ ys) only h =
    rw (not_found p x y only (Apart-ne x y h.0)) (count-none p x ys only h.1)

-- The row that the test finds is counted once, and is the one that is found.
pub count-one :
    (p : OutboxItem → Bool) (x : OutboxItem) (xs : List OutboxItem)
    → p x ≡ true
    → OnlyId p x
    → IsUnique xs
    → Any (λ y. y ≡ x) xs
    → count_where p xs ≡ 1
count-one p x [] t only u m = elim m [ ]
count-one p x (y ∷ ys) t only u (here e) =
    let same : p y ≡ true = subst (λ z. p z ≡ true) (sym e) t in
    rw same (ap suc (count-none p x ys only (subst (λ z. All (Apart z) ys) e u.0)))
count-one p x (y ∷ ys) t only u (there m) =
    let apart = Apart-ne y x (All-Any (Apart y) ys x u.0 m) in
    rw (not_found p x y only (λ e. apart (sym e))) (count-one p x ys t only u.1 m)

pub find-one :
    (p : OutboxItem → Bool) (x : OutboxItem) (xs : List OutboxItem)
    → p x ≡ true
    → OnlyId p x
    → IsUnique xs
    → Any (λ y. y ≡ x) xs
    → find_where p xs ≡ some x
find-one p x [] t only u m = elim m [ ]
find-one p x (y ∷ ys) t only u (here e) =
    let same : p y ≡ true = subst (λ z. p z ≡ true) (sym e) t in rw same (ap some e)
find-one p x (y ∷ ys) t only u (there m) =
    let apart = Apart-ne y x (All-Any (Apart y) ys x u.0 m) in
    rw (not_found p x y only (λ e. apart (sym e))) (find-one p x ys t only u.1 m)

pub Any-update :
    (p : OutboxItem → Bool) (f : OutboxItem → OutboxItem) (x : OutboxItem) (xs : List OutboxItem)
    → p x ≡ true
    → Any (λ y. y ≡ x) xs
    → Any (λ y. y ≡ f x) (update_where p f xs)
Any-update p f x [] t m = elim m [ ]
Any-update p f x (y ∷ ys) t (here e) =
    here (subst (λ z. (if p z then f z else z) ≡ f x) (sym e) (rw t))
Any-update p f x (y ∷ ys) t (there m) = there (Any-update p f x ys t m)
