-- ===== src/Outbox/Invariant.antt =====
-- The well-formedness of `outbox_items` in crates/imail-storage-sqlite/src/outbox.rs: what each status
-- says of the other columns.
use i_mail.Base.{
  ℕ, ◌+◌, ◌<◌, ◌≡◌, refl, inl, inr, String, true, false, Option, none, some, List, [], ◌∷◌, ◌++◌,
  All, Bool-cases, Option-cases, ◌==◌, str_eq, sql_eq, arith,
}
use i_mail.Base.Table.{
  exists_where, find_where, first_where, count_where, exists_where-false, find_where-none,
}
use i_mail.Outbox.Types.{
  lease_ms, OutboxStatus, sending, sent, cancelled, SendMessageInput, OutboxItem, OutboxStore,
  OutboxSchedule, new_item,
}
use i_mail.Outbox.Calls.{
  cancellable, cancel_item, retryable, reschedule_item, resolvable, resolve_item, read_back,
  insert_item, or_empty, owns_account, outbox_item, has_key, schedule_outbox, cancel_outbox,
  retry_outbox, resolve_outbox,
}
use i_mail.Outbox.Sending.{
  sending_item, mark_sent, mark_failed, old_terminal, lease_expired, to_review, same_scheduled,
  start_sending, take_item, due_before, is_due, recover_expired, claim_due_outbox, complete_outbox,
  fail_outbox, prune_outbox,
}
use i_mail.Outbox.Steps.{
  Call, schedule, cancel, retry, resolve, claim, complete, fail, prune, commit, step, run,
}
use i_mail.Outbox.Rows.{KeepsRow, step-All}
use i_mail.Outbox.Uniqueness.{Apart, IsUnique, IsUnique-update, IsUnique-delete, IsUnique-append}

-- The body and the attachments are gone.
abbrev pub IsRedacted : SendMessageInput → Type 0
IsRedacted m = (m.text ≡ "") × (m.html ≡ none) × (m.attachments ≡ none)

-- A lease is held exactly while sending, a delivery time stands exactly in what was sent, sending
-- has counted an attempt, and what is finished keeps no body.
abbrev pub StatusIsValid : OutboxStatus → OutboxItem → Type 0
StatusIsValid sending x =
    ((until : ℕ) × (x.lease_until ≡ some until)) × (x.sent_at ≡ none) × (0 < x.attempts)
StatusIsValid sent x =
    (x.lease_until ≡ none) × ((at : ℕ) × (x.sent_at ≡ some at)) × IsRedacted x.message
StatusIsValid cancelled x = (x.lease_until ≡ none) × (x.sent_at ≡ none) × IsRedacted x.message
StatusIsValid _ x = (x.lease_until ≡ none) × (x.sent_at ≡ none)

abbrev pub RowIsValid : OutboxItem → Type 0
RowIsValid x = StatusIsValid x.status x

pub record IsValid (items : List OutboxItem) : Type 0 where
  pub rows : All RowIsValid items
  pub unique : IsUnique items

row-KeepsRow : (c : Call) → KeepsRow RowIsValid c
row-KeepsRow (schedule owner input) = λ fingerprint. (refl, refl)
row-KeepsRow (cancel owner id now) = λ x e h. (refl, ground (arith, e, h), (refl, refl, refl))
row-KeepsRow (retry owner id now) = λ x e h. (refl, ground (arith, e, h))
row-KeepsRow (resolve owner id true now) = λ x e h. (refl, (now, refl), (refl, refl, refl))
row-KeepsRow (resolve owner id false now) = λ x e h. (refl, refl, (refl, refl, refl))
row-KeepsRow (claim now) = (
  λ x e h. (refl, ground (arith, e, h)),
  λ id x e h. ((now + lease_ms, refl), ground (arith, e, h), omega arith),
)
row-KeepsRow (complete id message_id now) = λ x e h. (refl, (now, refl), (refl, refl, refl))
row-KeepsRow (fail id code message true now) = λ x e h. ground (arith, e, h)
row-KeepsRow (fail id code message false now) = λ x e h. ground (arith, e, h)
row-KeepsRow (prune before) = tt

-- The two tests before the INSERT keep the new row apart from the others.
new_item-Apart :
    (owner fingerprint : String) (input : OutboxSchedule) (xs : List OutboxItem)
    → All (λ x. str_eq x.id input.id ≡ false) xs
    → All (λ x. has_key owner input.idempotency_key x ≡ false) xs
    → All (λ x. Apart x (new_item owner fingerprint input)) xs
new_item-Apart owner fingerprint input [] h k = tt
new_item-Apart owner fingerprint input (x ∷ xs) h k =
    (rw (h.0, k.0), new_item-Apart owner fingerprint input xs h.1 k.1)

take_item-IsUnique :
    (now : ℕ) (o : Option OutboxItem) (s : OutboxStore)
    → IsUnique s.items
    → IsUnique (take_item now o s).1.items
take_item-IsUnique now none s h = h
take_item-IsUnique now (some x) s h =
    let all = IsUnique-update (same_scheduled x.id) (start_sending now) s.items (λ x. refl) h in
    elim (Bool-cases (count_where (same_scheduled x.id) s.items == 1)) [
      | inl e ↦ rw e all
      | inr e ↦ rw e all
    ]

read_back-IsUnique :
    (owner id : String) (s s' : OutboxStore)
    → IsUnique s.items
    → IsUnique s'.items
    → IsUnique (commit (read_back owner id s') s).items
read_back-IsUnique owner id s s' h k = elim (Option-cases (outbox_item owner id s')) [
  | inl e ↦ rw (e, commit) h
  | inr (x, e) ↦ rw (e, commit) k
]

insert_item-IsUnique :
    (owner fingerprint : String) (input : OutboxSchedule) (s : OutboxStore)
    → find_where (has_key owner input.idempotency_key) s.items ≡ none
    → IsUnique s.items
    → IsUnique (commit (insert_item owner fingerprint input s) s).items
insert_item-IsUnique owner fingerprint input s new h =
    let item = new_item owner fingerprint input in
    elim (Bool-cases (exists_where (λ x. str_eq x.id input.id) s.items)) [
      | inl e ↦ rw e h
      | inr e ↦ rw e (
          read_back-IsUnique owner input.id s (record s { items = s.items ++ item ∷ [] }) h
            (IsUnique-append s.items item h (
              new_item-Apart owner fingerprint input s.items
                (exists_where-false (λ x. str_eq x.id input.id) s.items e)
                (find_where-none (has_key owner input.idempotency_key) s.items new))))
    ]

schedule-IsUnique :
    (digest : SendMessageInput → String → ℕ → String) (owner : String) (input : OutboxSchedule)
    (s : OutboxStore)
    → IsUnique s.items
    → IsUnique (commit (schedule_outbox digest owner input s) s).items
unfolding schedule_outbox
schedule-IsUnique digest owner input s h =
    let fp = digest input.message (or_empty input.draft_id) input.scheduled_at in
    elim (Bool-cases (owns_account owner input.message.account_id s)) [
      | inr e ↦ rw e h
      | inl e ↦
          rw e (elim (Option-cases (find_where (has_key owner input.idempotency_key) s.items)) [
            | inl f ↦ rw f (insert_item-IsUnique owner fp input s f h)
            | inr (x, f) ↦ rw f (elim (Bool-cases (sql_eq x.request_fingerprint (some fp))) [
              | inl g ↦ rw g (read_back-IsUnique owner x.id s s h h)
              | inr g ↦ rw g h
            ])
          ])
    ]

module _ (digest : SendMessageInput → String → ℕ → String) where
  step-IsUnique : (c : Call) (s : OutboxStore) → IsUnique s.items → IsUnique (step digest c s).items
  unfolding cancel_outbox retry_outbox resolve_outbox claim_due_outbox complete_outbox fail_outbox
      prune_outbox
  step-IsUnique (schedule owner input) s h = schedule-IsUnique digest owner input s h
  step-IsUnique (cancel owner id now) s h =
      IsUnique-update (cancellable owner id) (cancel_item now) s.items (λ x. refl) h
  step-IsUnique (retry owner id now) s h =
      IsUnique-update (retryable owner id) (reschedule_item now) s.items (λ x. refl) h
  step-IsUnique (resolve owner id was_sent now) s h =
      IsUnique-update (resolvable owner id) (resolve_item was_sent now) s.items (λ x. refl) h
  step-IsUnique (claim now) s h =
      take_item-IsUnique now (first_where due_before (is_due now) (recover_expired now s.items))
        (record s { items = recover_expired now s.items })
        (IsUnique-update (lease_expired now) (to_review now) s.items (λ x. refl) h)
  step-IsUnique (complete id message_id now) s h =
      IsUnique-update (sending_item id) (mark_sent message_id now) s.items (λ x. refl) h
  step-IsUnique (fail id code message uncertain now) s h =
      IsUnique-update (sending_item id) (mark_failed code message uncertain now) s.items (λ x. refl)
        h
  step-IsUnique (prune before) s h = IsUnique-delete (old_terminal before) s.items h

  step-IsValid : (c : Call) (s : OutboxStore) → IsValid s.items → IsValid (step digest c s).items
  step-IsValid c s v = record {
    rows = step-All RowIsValid digest c s (row-KeepsRow c) v.rows;
    unique = step-IsUnique c s v.unique;
  }

  -- Every run of calls keeps the table well formed: identifiers and idempotency keys stay unique,
  -- an item holds a lease exactly while it is being sent, a delivery time exactly once it was sent,
  -- and what was sent or cancelled keeps no body and no attachments.
  pub run-IsValid :
      (cs : List Call) (s : OutboxStore) → IsValid s.items → IsValid (run digest cs s).items
  run-IsValid [] s v = v
  run-IsValid (c ∷ cs) s v = run-IsValid cs (step digest c s) (step-IsValid c s v)
