-- ===== src/Auth/Bounded.antt =====
-- Runs of attempts under `consume_attempt` of crates/imail-storage-sqlite/src/auth.rs, and how many of
-- them are allowed.
use i_mail.Base.{
  ℕ, suc, ◌+◌, ◌≤◌, ◌<◌, max, min, ◌≡◌, refl, sym, subst, inl, inr, Bool, true, false, Option, none,
  some, List, [], ◌∷◌, ◌++◌, length, length-append, leb, if◌then◌else◌, All, All-append, Bool-cases,
  contradict, arith,
}
use i_mail.Base.Table.{update_where, delete_where, find_where, find_where-none}
use i_mail.Base.Unique.{Any-append}
use i_mail.Base.Texts.{Text, text_eq, text_eq_sound}
use i_mail.Auth.Types.{LimitRow, RateLimitDecision}
use i_mail.Auth.Limits.{
  is_over, has_key_hash, count_attempt, first_attempt, consume_row, consume_limits,
  max_rate_limit_rows, largest_window,
}
use i_mail.Auth.Counted.{
  IsCounted, count-IsCounted, delete_over-IsCounted, found-IsCounted, length-delete_where,
  length-update_where, not_found, other-IsCounted,
}

-- One attempt: the hash of its key, its maximum and window, and its time.
pub record Attempt : Type 0 where
  pub hash : Text
  pub maximum : ℕ
  pub window : ℕ
  pub now : ℕ

abbrev pub attempt : Attempt → List LimitRow → RateLimitDecision × List LimitRow
attempt a rows = consume_limits a.hash a.maximum a.window a.now rows

abbrev pub one_if : Bool → ℕ
one_if true = 1
one_if false = 0

-- How many of the attempts on `h` are allowed.
abbrev pub allowed_on : Text → List Attempt → List LimitRow → ℕ
allowed_on h [] rows = 0
allowed_on h (a ∷ as_) rows =
    let (d, rows') = attempt a rows in
    (if text_eq a.hash h then one_if d.allowed else 0) + allowed_on h as_ rows'

-- The attempts on `h` that this one adds.
abbrev used : Text → Attempt → RateLimitDecision → ℕ
used h a d = if text_eq a.hash h then one_if d.allowed else 0

-- What an attempt makes of the row of `h`, where it adds `u`.
record IsStep (h : Text) (c reset M n u : ℕ) (rows : List LimitRow) : Type 0 where
  pub counted : IsCounted h (u + c) reset rows
  pub size : length rows ≤ suc n
  pub bound : u + c ≤ max c M

-- An attempt on the key itself.
own-IsStep :
    (h : Text) (c reset M window now n : ℕ) (rows : List LimitRow)
    → length rows ≤ n
    → IsCounted h c reset rows
    → (o : Option LimitRow) → find_where (has_key_hash h) rows ≡ o
    → IsStep h c reset M n
        (one_if (consume_row h M window now rows o).0.allowed)
        (consume_row h M window now rows o).1
own-IsStep h c reset M window now n rows size k none e =
    absurd (not_found h rows (find_where-none (has_key_hash h) rows e) k.exists)
own-IsStep h c reset M window now n rows size k (some r) e =
    let same = found-IsCounted h c reset rows r k e in
    elim (Bool-cases (leb M r.attempt_count)) [
      | inl t ↦ rw t (record {
        counted = (let z : c ≡ 0 + c = omega arith in subst (λ x. IsCounted h x reset rows) z k);
        size = omega (arith, size);
        bound = omega arith;
      })
      | inr t ↦ rw t (record {
        counted =
            (let z : suc c ≡ 1 + c = omega arith in
              subst (λ x. IsCounted h x reset (update_where (has_key_hash h) count_attempt rows)) z
                (count-IsCounted h c reset rows k));
        size =
            (let l = length-update_where (has_key_hash h) count_attempt rows in
              omega (arith, l, size));
        bound = ground (arith, t, same);
      })
    ]

-- An attempt on another key, while the table is not full.
other-IsStep :
    (h h' : Text) (c reset M maximum window now n : ℕ) (rows : List LimitRow)
    → text_eq h' h ≡ false
    → length rows ≤ n
    → n < 10_000
    → IsCounted h c reset rows
    → (o : Option LimitRow) → IsStep h c reset M n 0 (consume_row h' maximum window now rows o).1
other-IsStep h h' c reset M maximum window now n rows apart size room k none =
    let new = first_attempt h' (now + min window largest_window) in
    let fits : leb max_rate_limit_rows (length rows) ≡ false = ground (arith, size, room) in
    let added : IsCounted h c reset (rows ++ new ∷ []) = record {
      counts =
          All-append (λ r. has_key_hash h r ≡ true → (r.attempt_count ≡ c) × (r.reset_at ≡ reset))
            rows (new ∷ []) k.counts (λ t. contradict (text_eq h' h) t apart, tt);
      exists = Any-append (λ r. has_key_hash h r ≡ true) rows (new ∷ []) k.exists;
    } in
    let l = length-append rows (new ∷ []) in
    rw fits (record {
      counted =
          (let z : c ≡ 0 + c = omega arith in
            subst (λ x. IsCounted h x reset (rows ++ new ∷ [])) z added);
      size = omega (arith, l, size);
      bound = omega arith;
    })
other-IsStep h h' c reset M maximum window now n rows apart size room k (some r) =
    elim (Bool-cases (leb maximum r.attempt_count)) [
      | inl t ↦ rw t (record {
        counted = (let z : c ≡ 0 + c = omega arith in subst (λ x. IsCounted h x reset rows) z k);
        size = omega (arith, size);
        bound = omega arith;
      })
      | inr t ↦ rw t (record {
        counted =
            (let z : c ≡ 0 + c = omega arith in
              subst (λ x. IsCounted h x reset (update_where (has_key_hash h') count_attempt rows)) z
                (other-IsCounted h h' c reset rows apart k));
        size =
            (let l = length-update_where (has_key_hash h') count_attempt rows in
              omega (arith, l, size));
        bound = omega arith;
      })
    ]

attempt-IsStep :
    (h : Text) (c reset M : ℕ) (a : Attempt) (rows : List LimitRow)
    → a.now < reset
    → (text_eq a.hash h ≡ true → a.maximum ≡ M)
    → length rows < 10_000
    → IsCounted h c reset rows
    → IsStep h c reset M (length rows) (used h a (attempt a rows).0) (attempt a rows).1
unfolding consume_limits
attempt-IsStep h c reset M a rows lt same room k =
    let left = delete_where (is_over a.now) rows in
    let kept = delete_over-IsCounted h c reset a.now rows lt k in
    let small = length-delete_where (is_over a.now) rows in
    elim (Bool-cases (text_eq a.hash h)) [
      | inl t ↦ rw t (
          subst
            (λ m.
              IsStep h c reset M (length rows)
                (one_if
                  (consume_row a.hash m a.window a.now left
                    (find_where (has_key_hash a.hash) left)).0.allowed)
                (consume_row a.hash m a.window a.now left
                  (find_where (has_key_hash a.hash) left)).1)
            (sym (same t))
            (subst
              (λ x.
                IsStep h c reset M (length rows)
                  (one_if
                    (consume_row x M a.window a.now left
                      (find_where (has_key_hash x) left)).0.allowed)
                  (consume_row x M a.window a.now left (find_where (has_key_hash x) left)).1)
              (sym (text_eq_sound a.hash h t))
              (own-IsStep h c reset M a.window a.now (length rows) left small kept
                (find_where (has_key_hash h) left) refl)))
      | inr t ↦ rw t (
          other-IsStep h a.hash c reset M a.maximum a.window a.now (length rows) left t small room
            kept (find_where (has_key_hash a.hash) left))
    ]

-- Let the row of a key have counted `c` attempts and end at `reset`. However attempts on this and on
-- other keys follow each other before `reset`, as long as the table of limits has room for them all, the
-- number of attempts on the key that are allowed is at most what its maximum leaves.
pub allowed_on-le :
    (h : Text) (reset M : ℕ) (as_ : List Attempt) (c : ℕ) (rows : List LimitRow)
    → IsCounted h c reset rows
    → All (λ a. (a.now < reset) × (text_eq a.hash h ≡ true → a.maximum ≡ M)) as_
    → length rows + length as_ ≤ 10_000
    → allowed_on h as_ rows + c ≤ max c M
allowed_on-le h reset M [] c rows k h' room = omega arith
allowed_on-le h reset M (a ∷ as_) c rows k each room =
    let step = attempt-IsStep h c reset M a rows each.0.0 each.0.1 (omega (arith, room)) k in
    let rest =
      allowed_on-le h reset M as_ (used h a (attempt a rows).0 + c) (attempt a rows).1 step.counted
        each.1 (omega (arith, room, step.size)) in
    omega (arith, rest, step.bound)
