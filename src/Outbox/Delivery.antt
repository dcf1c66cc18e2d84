-- ===== src/Outbox/Delivery.antt =====
-- Which items `claim_due_outbox` of crates/imail-storage-sqlite/src/outbox.rs hands to the sender over a
-- run of calls.
use i_mail.Base.{
  eq_iff, subst, arith, ℕ, ◌≡◌, refl, sym, ap, ◌∙◌, ◌≢◌, inl, inr, String, Bool, true, false,
  Option, none, some, List, [], ◌∷◌, All, Bool-cases, Option-cases, &&-eq-true, ◌==◌, str_eq,
  str_eq_sound, arith,
}
use mathlib.Core.Option.{some-injective}
use i_mail.Base.Table.{update_where, first_where, count_where, All-update_where, update_where-All}
use i_mail.Base.Selection.{first_where-All}
use i_mail.Outbox.Types.{
  OutboxStatus, scheduled, SendMessageInput, OutboxItem, OutboxStore, OutboxWorkItem, owned_item,
  is_scheduled,
}
use i_mail.Outbox.Calls.{retryable, resolve_item}
use i_mail.Outbox.Sending.{
  mark_failed, lease_expired, to_review, same_scheduled, start_sending, take_item, due_before,
  is_due, recover_expired, claim_due_outbox,
}
use i_mail.Outbox.Steps.{
  Call, schedule, cancel, retry, resolve, claim, complete, fail, prune, step, handed,
}
use i_mail.Outbox.Rows.{KeepsRow, step-All}

-- The item `id` does not wait to be sent.
abbrev pub NotWaiting : String → OutboxItem → Type 0
NotWaiting id x = x.id ≡ id → x.status ≢ scheduled

-- The calls that leave an item alone that does not wait: all but a retry of it, and a new item
-- under its identifier.
abbrev pub LeavesAlone : String → Call → Type 0
LeavesAlone id (schedule owner input) = input.id ≢ id
LeavesAlone id (retry owner id' now) = id' ≢ id
LeavesAlone id _ = Unit

abbrev add_delivery : Option OutboxWorkItem → List OutboxWorkItem → List OutboxWorkItem
add_delivery none ws = ws
add_delivery (some w) ws = w ∷ ws

-- The items that a run of calls hands to the sender, in order.
abbrev pub deliveries :
    (SendMessageInput → String → ℕ → String) → List Call → OutboxStore → List OutboxWorkItem
deliveries digest [] s = []
deliveries digest (c ∷ cs) s =
    add_delivery (handed digest c s) (deliveries digest cs (step digest c s))

is_scheduled-eq : (st : OutboxStatus) → is_scheduled st ≡ true → st ≡ scheduled
is_scheduled-eq scheduled h = refl
is_scheduled-eq _ h = cc

module _ (id : String) where
  resolved-NotWaiting : (b : Bool) (now : ℕ) (x : OutboxItem) → NotWaiting id (resolve_item b now x)
  resolved-NotWaiting true now x m = cc
  resolved-NotWaiting false now x m = cc

  failed-NotWaiting :
      (code message : String) (b : Bool) (now : ℕ) (x : OutboxItem)
      → NotWaiting id (mark_failed code message b now x)
  failed-NotWaiting code message true now x m = cc
  failed-NotWaiting code message false now x m = cc

  retryable-id : (owner id' : String) (x : OutboxItem) → retryable owner id' x ≡ true → x.id ≡ id'
  retryable-id owner id' x e =
      str_eq_sound x.id id'
        (&&-eq-true (str_eq x.user_id owner) _ (&&-eq-true (owned_item owner id' x) _ e).0).1

  LeavesAlone-KeepsRow : (c : Call) → LeavesAlone id c → KeepsRow (NotWaiting id) c
  LeavesAlone-KeepsRow (schedule owner input) q = λ fingerprint m. absurd (q m)
  LeavesAlone-KeepsRow (cancel owner id' now) q = λ x e k m. cc
  LeavesAlone-KeepsRow (retry owner id' now) q =
      λ x e k m. absurd (q (sym (retryable-id owner id' x e) ∙ m))
  LeavesAlone-KeepsRow (resolve owner id' was_sent now) q =
      λ x e k. resolved-NotWaiting was_sent now x
  LeavesAlone-KeepsRow (claim now) q = (λ x e k m. cc, λ id' x e k m. cc)
  LeavesAlone-KeepsRow (complete id' message_id now) q = λ x e k m. cc
  LeavesAlone-KeepsRow (fail id' code message uncertain now) q =
      λ x e k. failed-NotWaiting code message uncertain now x
  LeavesAlone-KeepsRow (prune before) q = tt

  -- What a claim hands out is another item.
  take_item-ne :
      (now : ℕ) (o : Option OutboxItem) (s : OutboxStore) (w : OutboxWorkItem)
      → ((x : OutboxItem) → o ≡ some x → x.id ≢ id)
      → (take_item now o s).0 ≡ some w
      → w.id ≢ id
  take_item-ne now none s w h e = cc
  take_item-ne now (some x) s w h e =
      elim (Bool-cases (count_where (same_scheduled x.id) s.items == 1)) [
        | inl one ↦ λ m. h x refl (ap OutboxWorkItem.id (some-injective _ w (rw one at e)) ∙ m)
        | inr other ↦
            λ m. (let k : ◌≡◌ {A = Option OutboxWorkItem} none (some w) = rw other at e in cc)
      ]

  handed-ne :
      (digest : SendMessageInput → String → ℕ → String) (c : Call) (s : OutboxStore)
      (w : OutboxWorkItem)
      → All (NotWaiting id) s.items
      → handed digest c s ≡ some w
      → w.id ≢ id
  unfolding claim_due_outbox
  handed-ne digest (claim now) s w h e =
      let items = recover_expired now s.items in
      let quiet =
        All-update_where (NotWaiting id) (lease_expired now) (to_review now) (λ x e k m. cc) s.items
          h in
      take_item-ne now (first_where due_before (is_due now) items) (record s { items = items }) w
        (λ x f m.
          let (waits, due) =
            first_where-All (NotWaiting id) (is_due now) due_before items x quiet f in
          waits m (is_scheduled-eq x.status (&&-eq-true (is_scheduled x.status) _ due).0))
        e
  handed-ne digest _ s w h e = cc

  deliveries-ne :
      (digest : SendMessageInput → String → ℕ → String) (cs : List Call) (s : OutboxStore)
      → All (LeavesAlone id) cs
      → All (NotWaiting id) s.items
      → All (λ w. w.id ≢ id) (deliveries digest cs s)
  deliveries-ne digest [] s q h = tt
  deliveries-ne digest (c ∷ cs) s q h =
      let rest =
        deliveries-ne digest cs (step digest c s) q.1
          (step-All (NotWaiting id) digest c s (LeavesAlone-KeepsRow c q.0) h) in
      elim (Option-cases (handed digest c s)) [
        | inl e ↦ rw e rest
        | inr (w, e) ↦ rw e (handed-ne digest c s w h e, rest)
      ]

  -- The claim's update leaves no row of the item waiting.
  taken-NotWaiting :
      (now : ℕ) (items : List OutboxItem)
      → All (NotWaiting id) (update_where (same_scheduled id) (start_sending now) items)
  taken-NotWaiting now items =
      update_where-All (NotWaiting id) (same_scheduled id) (start_sending now) (λ x e m. cc)
        (λ x e m st. ground (arith, e, m, st, eq_iff x.id id)) items

take_item-NotWaiting :
    (now : ℕ) (o : Option OutboxItem) (s : OutboxStore) (w : OutboxWorkItem)
    → (take_item now o s).0 ≡ some w
    → All (NotWaiting w.id) (take_item now o s).1.items
take_item-NotWaiting now none s w e = cc
take_item-NotWaiting now (some x) s w e =
    elim (Bool-cases (count_where (same_scheduled x.id) s.items == 1)) [
      | inl one ↦ rw one (
          subst
            (λ i.
              All (NotWaiting i) (update_where (same_scheduled x.id) (start_sending now) s.items))
            (ap OutboxWorkItem.id (some-injective _ w (rw one at e)))
            (taken-NotWaiting x.id now s.items))
      | inr other ↦ (let k : ◌≡◌ {A = Option OutboxWorkItem} none (some w) = rw other at e in cc)
    ]

-- At most one delivery: if a claim hands out an item, no later claim hands it out again, at
-- whatever times the calls come and however they fail, as long as no call among them retries that
-- item or schedules a new one under its identifier.
pub claim_once :
    (digest : SendMessageInput → String → ℕ → String) (now : ℕ) (s : OutboxStore)
    (w : OutboxWorkItem) (cs : List Call)
    → (claim_due_outbox now s).0 ≡ some w
    → All (LeavesAlone w.id) cs
    → All (λ v. v.id ≢ w.id) (deliveries digest cs (claim_due_outbox now s).1)
unfolding claim_due_outbox
claim_once digest now s w cs e q =
    let items = recover_expired now s.items in
    deliveries-ne w.id digest cs (claim_due_outbox now s).1 q (
      take_item-NotWaiting now (first_where due_before (is_due now) items)
        (record s { items = items }) w e)
