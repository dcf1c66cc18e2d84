-- ===== src/Outbox/Claims.antt =====
-- Which item `claim_due_outbox` of crates/imail-storage-sqlite/src/outbox.rs picks.
use i_mail.Base.{
  str_eq_sound, All-refl, eq_refl, ℕ, ◌≤◌, ◌≡◌, refl, inl, inr, ◌⊎◌, true, false, none, some, List,
  [], ◌∷◌, All, Any, here, there, Bool-cases, Option-cases, &&-eq-true, if◌then◌else◌, str_eq,
  arith, subst, sym, ◌+◌, All-map, contradict,
}
use i_mail.Base.Table.{update_where, first_where}
use i_mail.Base.Selection.{first_where-none, first_where-Any, first_where-least, first_where-All}
use i_mail.Outbox.Types.{
  OutboxItem, OutboxStore, OutboxStatus, is_scheduled, scheduled, sending, sent, failed,
  needs_review, cancelled,
}
use i_mail.Outbox.Sending.{
  lease_expired, to_review, same_scheduled, start_sending, due_before, is_due, recover_expired,
  claim_due_outbox,
}
use i_mail.Base.Unique.{Any-map}
use i_mail.Outbox.Uniqueness.{Any-update, OnlyId, count-one, IsUnique, IsUnique-update}

expired-not_due : (now : ℕ) (x : OutboxItem) → lease_expired now x ≡ true → is_due now x ≡ false
expired-not_due now x e = ground (arith, e)

-- An item that is being sent is not due, before or after its lease is found to have run out.
recover-first :
    (now : ℕ) (xs : List OutboxItem)
    → first_where due_before (is_due now) (recover_expired now xs)
      ≡ first_where due_before (is_due now) xs
recover-first now [] = refl
recover-first now (x ∷ xs) = elim (Bool-cases (lease_expired now x)) [
  | inl e ↦ rw (e, expired-not_due now x e) (recover-first now xs)
  | inr e ↦ rw (e, recover-first now xs)
]

due_before-le : (a b : OutboxItem) → due_before a b ≡ true → a.scheduled_at ≤ b.scheduled_at
due_before-le a b h = ground (arith, h)

due_before-ge : (a b : OutboxItem) → due_before a b ≡ false → b.scheduled_at ≤ a.scheduled_at
due_before-ge a b h = ground (arith, h)

due-not_expired : (now : ℕ) (x : OutboxItem) → is_due now x ≡ true → lease_expired now x ≡ false
due-not_expired now x e = ground (arith, e)

same_scheduled-OnlyId : (x : OutboxItem) → OnlyId (same_scheduled x.id) x
same_scheduled-OnlyId x y e = str_eq_sound y.id x.id (&&-eq-true (str_eq y.id x.id) _ e).0

-- The selected row is still there after the recovery.
Any-recover :
    (now : ℕ) (x : OutboxItem) (xs : List OutboxItem)
    → is_due now x ≡ true
    → Any (λ y. y ≡ x) xs
    → Any (λ y. y ≡ x) (recover_expired now xs)
Any-recover now x [] d m = elim m [ ]
Any-recover now x (y ∷ ys) d (here e) = here (
    subst (λ z. (if lease_expired now z then to_review now z else z) ≡ x) (sym e)
      (rw (due-not_expired now x d)))
Any-recover now x (y ∷ ys) d (there m) = there (Any-recover now x ys d m)

is_scheduled-scheduled : (st : OutboxStatus) → is_scheduled st ≡ true → st ≡ scheduled
is_scheduled-scheduled scheduled h = refl
is_scheduled-scheduled sending h = cc
is_scheduled-scheduled sent h = cc
is_scheduled-scheduled failed h = cc
is_scheduled-scheduled needs_review h = cc
is_scheduled-scheduled cancelled h = cc

-- The item waits to be sent and its time has come.
abbrev pub IsDue : ℕ → OutboxItem → Type 0
IsDue now x = (x.status ≡ scheduled) × (x.scheduled_at ≤ now)

is_due-IsDue : (now : ℕ) (x : OutboxItem) → is_due now x ≡ true → IsDue now x
is_due-IsDue now x h = (is_scheduled-scheduled x.status (ground (arith, h)), ground (arith, h))

IsDue-is_due : (now : ℕ) (x : OutboxItem) → IsDue now x → is_due now x ≡ true
IsDue-is_due now x h = ground (arith, h.0, h.1)

-- The row of `x` once it is handed out: ten minutes are the lease, in milliseconds.
abbrev pub IsUnderway : ℕ → OutboxItem → OutboxItem → Type 0
IsUnderway now x y =
    (y.id ≡ x.id)
    × (y.status ≡ sending)
    × (y.lease_until ≡ some (now + 600_000))
    × (y.attempts ≡ x.attempts + 1)
    × (y.message ≡ x.message)

-- What `x` being handed out says of the rows before and after.
pub record IsHanded (now : ℕ) (s : OutboxStore) (x : OutboxItem) : Type 0 where
  pub listed : Any (λ y. y ≡ x) s.items
  pub due : IsDue now x
  pub earliest : All (λ z. IsDue now z → x.scheduled_at ≤ z.scheduled_at) s.items
  pub answer :
      (claim_due_outbox now s).0
      ≡ some (record { id = x.id; owner_id = x.user_id; message = x.message })
  pub rows :
      (claim_due_outbox now s).1.items
      ≡ update_where (same_scheduled x.id) (start_sending now) (recover_expired now s.items)
  pub leased : Any (IsUnderway now x) (claim_due_outbox now s).1.items

-- In a table with unique identifiers a claim either hands out nothing and only puts the items with an
-- expired lease under review, and no item is scheduled for a time that has come; or it hands out a row of the table that is scheduled, whose time has come, and
-- than which no other such row has an earlier time, and its row is then, after the same recovery, being sent, with
-- one attempt more, under a lease of ten minutes from now.
pub claim_choice :
    (now : ℕ) (s : OutboxStore)
    → IsUnique s.items
    → (((claim_due_outbox now s).0 ≡ none)
        × ((claim_due_outbox now s).1.items ≡ recover_expired now s.items)
        × All (λ z. ¬ IsDue now z) s.items)
      ⊎ ((x : OutboxItem) × IsHanded now s x)
unfolding claim_due_outbox
claim_choice now s u = elim (Option-cases (first_where due_before (is_due now) s.items)) [
  | inl e ↦ inl (
    rw (recover-first now s.items, e),
    rw (recover-first now s.items, e),
    All-map _ _ (λ z f d. contradict _ (IsDue-is_due now z d) f) s.items
        (first_where-none due_before (is_due now) s.items e),
  )
  | inr (x, e) ↦
      let listed = first_where-Any due_before (is_due now) s.items x e in
      let due =
        (first_where-All (λ y. y ≡ y) (is_due now) due_before s.items x (All-refl s.items) e).1 in
      let hit : same_scheduled x.id x ≡ true =
        rw (eq_refl x.id) (&&-eq-true (is_scheduled x.status) _ due).0 in
      let kept = Any-recover now x s.items due listed in
      let one =
        count-one (same_scheduled x.id) x (recover_expired now s.items) hit
          (same_scheduled-OnlyId x)
          (IsUnique-update (lease_expired now) (to_review now) s.items (λ y. refl) u) kept in
      inr (
        x,
        record {
          listed = listed;
          due = is_due-IsDue now x due;
          earliest =
              All-map _ _ (λ z f d. f (IsDue-is_due now z d)) s.items
                (first_where-least due_before (is_due now) OutboxItem.scheduled_at due_before-le
                  due_before-ge s.items x e);
          answer = rw (recover-first now s.items, e, one);
          rows = rw (recover-first now s.items, e, one);
          leased =
              rw (recover-first now s.items, e, one)
                (Any-map _ _ (λ y k. started x y k)
                  (update_where (same_scheduled x.id) (start_sending now)
                    (recover_expired now s.items))
                  (Any-update (same_scheduled x.id) (start_sending now) x
                    (recover_expired now s.items) hit kept));
        },
      )
]
  where
    started : (x y : OutboxItem) → y ≡ start_sending now x → IsUnderway now x y
    started x y k = subst (IsUnderway now x) (sym k) (refl, refl, refl, refl, refl)
