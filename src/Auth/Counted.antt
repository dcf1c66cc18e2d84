-- ===== src/Auth/Counted.antt =====
-- The row that counts the attempts on a key, through the statements of `consume_attempt` of
-- crates/imail-storage-sqlite/src/auth.rs.
use i_mail.Base.{
  ℕ, suc, ◌≤◌, ◌<◌, ◌≡◌, refl, sym, ap, subst, inl, inr, Bool, true, false, some, List, [], ◌∷◌,
  length, All, Any, here, there, Bool-cases, contradict, arith,
}
use i_mail.Base.Table.{
  update_where, delete_where, find_where, All-update_where, All-update_map, All-delete_where,
  find_where-All,
}
use i_mail.Base.Unique.{Any-update_where}
use i_mail.Base.Texts.{Text, text_eq, text_eq_sound}
use i_mail.Auth.Types.{LimitRow}
use i_mail.Auth.Limits.{is_over, has_key_hash, count_attempt}

-- The row of `h` counts `c` attempts and ends at `reset`.
pub record IsCounted (h : Text) (c reset : ℕ) (rows : List LimitRow) : Type 0 where
  pub counts :
      All (λ r. has_key_hash h r ≡ true → (r.attempt_count ≡ c) × (r.reset_at ≡ reset)) rows
  pub exists : Any (λ r. has_key_hash h r ≡ true) rows

pub length-delete_where :
    {A : Type 0} (p : A → Bool) (xs : List A) → length (delete_where p xs) ≤ length xs
length-delete_where p [] = omega arith
length-delete_where p (x ∷ xs) = elim (Bool-cases (p x)) [
  | inl e ↦ rw e (omega (arith, length-delete_where p xs))
  | inr e ↦ rw e (omega (arith, length-delete_where p xs))
]

pub length-update_where :
    {A : Type 0} (p : A → Bool) (f : A → A) (xs : List A) → length (update_where p f xs) ≡ length xs
length-update_where p f [] = refl
length-update_where p f (x ∷ xs) = ap suc (length-update_where p f xs)

-- A row that has not ended is not deleted.
Any-delete_where :
    (h : Text) (c reset now : ℕ) (rows : List LimitRow)
    → now < reset
    → All (λ r. has_key_hash h r ≡ true → (r.attempt_count ≡ c) × (r.reset_at ≡ reset)) rows
    → Any (λ r. has_key_hash h r ≡ true) rows
    → Any (λ r. has_key_hash h r ≡ true) (delete_where (is_over now) rows)
Any-delete_where h c reset now [] lt al m = elim m [ ]
Any-delete_where h c reset now (r ∷ rs) lt al (here t) =
    let ends = (al.0 t).1 in
    let stays : is_over now r ≡ false = ground (arith, lt, ends) in rw stays (here t)
Any-delete_where h c reset now (r ∷ rs) lt al (there m) =
    let rest = Any-delete_where h c reset now rs lt al.1 m in
    elim (Bool-cases (is_over now r)) [ inl e ↦ rw e rest | inr e ↦ rw e (there rest) ]

pub delete_over-IsCounted :
    (h : Text) (c reset now : ℕ) (rows : List LimitRow)
    → now < reset
    → IsCounted h c reset rows
    → IsCounted h c reset (delete_where (is_over now) rows)
delete_over-IsCounted h c reset now rows lt k = record {
  counts =
      All-delete_where (λ r. has_key_hash h r ≡ true → (r.attempt_count ≡ c) × (r.reset_at ≡ reset))
        (is_over now) rows k.counts;
  exists = Any-delete_where h c reset now rows lt k.counts k.exists;
}

pub found-IsCounted :
    (h : Text) (c reset : ℕ) (rows : List LimitRow) (r : LimitRow)
    → IsCounted h c reset rows
    → find_where (has_key_hash h) rows ≡ some r
    → r.attempt_count ≡ c
found-IsCounted h c reset rows r k e =
    let (keeps, t) =
      find_where-All (λ x. has_key_hash h x ≡ true → (x.attempt_count ≡ c) × (x.reset_at ≡ reset))
        (has_key_hash h) rows k.counts e in
    (keeps t).0

pub not_found :
    (h : Text) (rows : List LimitRow)
    → All (λ r. has_key_hash h r ≡ false) rows
    → Any (λ r. has_key_hash h r ≡ true) rows
    → ⊥
not_found h [] n m = elim m [ ]
not_found h (r ∷ rs) n (here t) = contradict (has_key_hash h r) t n.0
not_found h (r ∷ rs) n (there m) = not_found h rs n.1 m

-- Another key has another row.
other_row :
    (h h' : Text) (r : LimitRow)
    → text_eq h' h ≡ false
    → has_key_hash h' r ≡ true
    → has_key_hash h r ≡ false
other_row h h' r n t =
    let same : r.key_hash ≡ h' = text_eq_sound r.key_hash h' t in
    subst (λ x. text_eq x h ≡ false) (sym same) n

pub count-IsCounted :
    (h : Text) (c reset : ℕ) (rows : List LimitRow)
    → IsCounted h c reset rows
    → IsCounted h (suc c) reset (update_where (has_key_hash h) count_attempt rows)
count-IsCounted h c reset rows k = record {
  counts =
      All-update_map (λ r. has_key_hash h r ≡ true → (r.attempt_count ≡ c) × (r.reset_at ≡ reset))
        (λ r. has_key_hash h r ≡ true → (r.attempt_count ≡ suc c) × (r.reset_at ≡ reset))
        (has_key_hash h) count_attempt (λ r t g u. (ap suc (g t).0, (g t).1))
        (λ r n g u. contradict (has_key_hash h r) u n) rows k.counts;
  exists =
      Any-update_where (λ r. has_key_hash h r ≡ true) (has_key_hash h) count_attempt (λ r t. t) rows
        k.exists;
}

pub other-IsCounted :
    (h h' : Text) (c reset : ℕ) (rows : List LimitRow)
    → text_eq h' h ≡ false
    → IsCounted h c reset rows
    → IsCounted h c reset (update_where (has_key_hash h') count_attempt rows)
other-IsCounted h h' c reset rows n k = record {
  counts =
      All-update_where (λ r. has_key_hash h r ≡ true → (r.attempt_count ≡ c) × (r.reset_at ≡ reset))
        (has_key_hash h') count_attempt
        (λ r t g u. contradict (has_key_hash h r) u (other_row h h' r n t)) rows k.counts;
  exists =
      Any-update_where (λ r. has_key_hash h r ≡ true) (has_key_hash h') count_attempt (λ r t. t)
        rows k.exists;
}
