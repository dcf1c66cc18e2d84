-- ===== src/Outbox/Progress.antt =====
-- The calls of crates/imail-storage-sqlite/src/outbox.rs and the life cycle of the rows.
use i_mail.Base.{
  ℕ, ◌≡◌, refl, ◌⊎◌, inl, inr, String, Bool, true, false, Option, none, some, List, [], ◌∷◌, ◌++◌,
  Bool-cases, Option-cases, &&-eq-true, ◌==◌, if◌then◌else◌, str_eq, sql_eq,
}
use i_mail.Base.Table.{
  update_where, delete_where, exists_where, find_where, first_where, count_where,
}
use i_mail.Outbox.Types.{
  OutboxStatus, scheduled, sending, sent, failed, needs_review, cancelled, SendMessageInput,
  OutboxItem, OutboxStore, OutboxSchedule, redact, is_terminal, is_scheduled, is_sending, is_failed,
  is_review, owned_item, new_item,
}
use i_mail.Outbox.Calls.{
  can_cancel, cancellable, cancel_item, retryable, reschedule_item, resolvable, resolve_item,
  read_back, insert_item, or_empty, owns_account, outbox_item, has_key, schedule_outbox,
  cancel_outbox, retry_outbox, resolve_outbox,
}
use i_mail.Outbox.Sending.{
  sending_item, mark_sent, mark_failed, old_terminal, lease_expired, to_review, same_scheduled,
  start_sending, take_item, due_before, is_due, recover_expired, claim_due_outbox, complete_outbox,
  fail_outbox, prune_outbox,
}
use i_mail.Outbox.Steps.{
  Call, schedule, cancel, retry, resolve, claim, complete, fail, prune, commit, step,
}
use i_mail.Outbox.Lifecycle.{
  Transition, start, withdraw, deliver, reject, doubt, again, give_up, confirm, deny, identity,
  attempts_after, Moves, Evolves, nil, keep, drop, add,
}

Moves-refl : (x : OutboxItem) → Moves x x
Moves-refl x = record { same = refl; message = inl refl; moved = inl (refl, refl) }

Evolves-refl : (xs : List OutboxItem) → Evolves xs xs
Evolves-refl [] = nil
Evolves-refl (x ∷ xs) = keep (Moves-refl x) (Evolves-refl xs)

Evolves-update :
    (p : OutboxItem → Bool) (f : OutboxItem → OutboxItem) (xs : List OutboxItem)
    → ((x : OutboxItem) → p x ≡ true → Moves x (f x))
    → Evolves xs (update_where p f xs)
Evolves-update p f [] h = nil
Evolves-update p f (x ∷ xs) h = elim (Bool-cases (p x)) [
  | inl e ↦ rw e (keep (h x e) (Evolves-update p f xs h))
  | inr e ↦ rw e (keep (Moves-refl x) (Evolves-update p f xs h))
]

Evolves-delete :
    (p : OutboxItem → Bool) (xs : List OutboxItem)
    → ((x : OutboxItem) → p x ≡ true → is_terminal x.status ≡ true)
    → Evolves xs (delete_where p xs)
Evolves-delete p [] h = nil
Evolves-delete p (x ∷ xs) h = elim (Bool-cases (p x)) [
  | inl e ↦ rw e (drop (h x e) (Evolves-delete p xs h))
  | inr e ↦ rw e (keep (Moves-refl x) (Evolves-delete p xs h))
]

Evolves-append :
    (xs : List OutboxItem) (y : OutboxItem)
    → y.status ≡ scheduled
    → y.attempts ≡ 0
    → Evolves xs (xs ++ y ∷ [])
Evolves-append [] y h k = add h k nil
Evolves-append (x ∷ xs) y h k = keep (Moves-refl x) (Evolves-append xs y h k)

-- A row that takes a transition.
moves :
    {x y : OutboxItem}
    → identity y ≡ identity x
    → (y.message ≡ x.message) ⊎ (y.message ≡ redact x.message)
    → Transition x.status y.status
    → y.attempts ≡ attempts_after y.status x.attempts
    → Moves x y
moves same message t n = record { same = same; message = message; moved = inr (t, n) }

can_cancel-Transition : (st : OutboxStatus) → can_cancel st ≡ true → Transition st cancelled
can_cancel-Transition scheduled h = withdraw
can_cancel-Transition failed h = give_up
can_cancel-Transition _ h = cc

failed-Transition : (st : OutboxStatus) → is_failed st ≡ true → Transition st scheduled
failed-Transition failed h = again
failed-Transition _ h = cc

review-Transition :
    (st : OutboxStatus) (b : Bool)
    → is_review st ≡ true
    → Transition st (if b then sent else cancelled)
review-Transition needs_review true h = confirm
review-Transition needs_review false h = deny
review-Transition _ b h = cc

sent-Transition : (st : OutboxStatus) → is_sending st ≡ true → Transition st sent
sent-Transition sending h = deliver
sent-Transition _ h = cc

failure-Transition :
    (st : OutboxStatus) (b : Bool)
    → is_sending st ≡ true
    → Transition st (if b then needs_review else failed)
failure-Transition sending true h = doubt
failure-Transition sending false h = reject
failure-Transition _ b h = cc

start-Transition : (st : OutboxStatus) → is_scheduled st ≡ true → Transition st sending
start-Transition scheduled h = start
start-Transition _ h = cc

resolve-attempts : (b : Bool) (n : ℕ) → n ≡ attempts_after (if b then sent else cancelled) n
resolve-attempts true n = refl
resolve-attempts false n = refl

failure-attempts : (b : Bool) (n : ℕ) → n ≡ attempts_after (if b then needs_review else failed) n
failure-attempts true n = refl
failure-attempts false n = refl

-- Either update of the claim alone, and both one after the other.
review-Moves : (now : ℕ) (x : OutboxItem) → lease_expired now x ≡ true → Moves x (to_review now x)
review-Moves now x h =
    moves refl (inl refl)
      (failure-Transition x.status true (&&-eq-true (is_sending x.status) _ h).0) refl

start-Moves :
    (now : ℕ) (id : String) (x : OutboxItem)
    → same_scheduled id x ≡ true
    → Moves x (start_sending now x)
start-Moves now id x h =
    moves refl (inl refl) (start-Transition x.status (&&-eq-true (str_eq x.id id) _ h).1) refl

-- A row under review is not taken in the same call.
review-not_taken :
    (now : ℕ) (id : String) (x : OutboxItem) → same_scheduled id (to_review now x) ≡ false
review-not_taken now id x = elim (Bool-cases (str_eq x.id id)) [ inl e ↦ rw e | inr e ↦ rw e ]

abbrev recovered : ℕ → OutboxItem → OutboxItem
recovered now x = if lease_expired now x then to_review now x else x

abbrev taken : ℕ → String → OutboxItem → OutboxItem
taken now id y = if same_scheduled id y then start_sending now y else y

taken-Moves : (now : ℕ) (id : String) (x : OutboxItem) → Moves x (taken now id x)
taken-Moves now id x = elim (Bool-cases (same_scheduled id x)) [
  | inl e ↦ rw e (start-Moves now id x e)
  | inr e ↦ rw e (Moves-refl x)
]

claim-Moves : (now : ℕ) (id : String) (x : OutboxItem) → Moves x (taken now id (recovered now x))
claim-Moves now id x = elim (Bool-cases (lease_expired now x)) [
  | inl e ↦ rw e (rw (review-not_taken now id x) (review-Moves now x e))
  | inr e ↦ rw e (taken-Moves now id x)
]

Evolves-claim :
    (now : ℕ) (id : String) (xs : List OutboxItem)
    → Evolves xs (update_where (same_scheduled id) (start_sending now) (recover_expired now xs))
Evolves-claim now id [] = nil
Evolves-claim now id (x ∷ xs) = keep (claim-Moves now id x) (Evolves-claim now id xs)

take_item-Evolves :
    (now : ℕ) (o : Option OutboxItem) (s : OutboxStore)
    → Evolves s.items (take_item now o (record s { items = recover_expired now s.items })).1.items
take_item-Evolves now none s =
    Evolves-update (lease_expired now) (to_review now) s.items (review-Moves now)
take_item-Evolves now (some x) s =
    elim (Bool-cases (count_where (same_scheduled x.id) (recover_expired now s.items) == 1)) [
      | inl e ↦ rw e (Evolves-claim now x.id s.items)
      | inr e ↦ rw e (Evolves-claim now x.id s.items)
    ]

module _ (owner : String) (s : OutboxStore) where
  read_back-Evolves :
      (id : String) (s' : OutboxStore)
      → Evolves s.items s'.items
      → Evolves s.items (commit (read_back owner id s') s).items
  read_back-Evolves id s' h = elim (Option-cases (outbox_item owner id s')) [
    | inl e ↦ rw (e, commit) (Evolves-refl s.items)
    | inr (x, e) ↦ rw (e, commit) h
  ]

  insert_item-Evolves :
      (fingerprint : String) (input : OutboxSchedule)
      → Evolves s.items (commit (insert_item owner fingerprint input s) s).items
  insert_item-Evolves fingerprint input =
      let item = new_item owner fingerprint input in
      elim (Bool-cases (exists_where (λ x. str_eq x.id input.id) s.items)) [
        | inl e ↦ rw e (Evolves-refl s.items)
        | inr e ↦ rw e (
            read_back-Evolves input.id (record s { items = s.items ++ item ∷ [] })
              (Evolves-append s.items item refl refl))
      ]

  schedule-Evolves :
      (digest : SendMessageInput → String → ℕ → String) (input : OutboxSchedule)
      → Evolves s.items (commit (schedule_outbox digest owner input s) s).items
  unfolding schedule_outbox
  schedule-Evolves digest input =
      let fp = digest input.message (or_empty input.draft_id) input.scheduled_at in
      elim (Bool-cases (owns_account owner input.message.account_id s)) [
        | inr e ↦ rw e (Evolves-refl s.items)
        | inl e ↦
            rw e (elim (Option-cases (find_where (has_key owner input.idempotency_key) s.items)) [
              | inl f ↦ rw f (insert_item-Evolves fp input)
              | inr (x, f) ↦ rw f (elim (Bool-cases (sql_eq x.request_fingerprint (some fp))) [
                | inl g ↦ rw g (read_back-Evolves x.id s (Evolves-refl s.items))
                | inr g ↦ rw g (Evolves-refl s.items)
              ])
            ])
      ]

module _ (digest : SendMessageInput → String → ℕ → String) where
  -- Whatever call is made in whatever store, the rows evolve along the life cycle: a row that is
  -- kept has its identity, and its status stays or takes one transition, with an attempt counted
  -- when sending starts; a row that is gone was sent or cancelled; a new one is scheduled, with no
  -- attempt.
  pub step-Evolves : (c : Call) (s : OutboxStore) → Evolves s.items (step digest c s).items
  unfolding cancel_outbox retry_outbox resolve_outbox claim_due_outbox complete_outbox fail_outbox
      prune_outbox
  step-Evolves (schedule owner input) s = schedule-Evolves owner s digest input
  step-Evolves (cancel owner id now) s =
      Evolves-update (cancellable owner id) (cancel_item now) s.items λ x h.
        moves refl (inr refl)
          (can_cancel-Transition x.status (&&-eq-true (owned_item owner id x) _ h).1) refl
  step-Evolves (retry owner id now) s =
      Evolves-update (retryable owner id) (reschedule_item now) s.items λ x h.
        moves refl (inl refl)
          (failed-Transition x.status (&&-eq-true (owned_item owner id x) _ h).1) refl
  step-Evolves (resolve owner id was_sent now) s =
      Evolves-update (resolvable owner id) (resolve_item was_sent now) s.items λ x h.
        moves refl (inr refl)
          (review-Transition x.status was_sent (&&-eq-true (owned_item owner id x) _ h).1)
          (resolve-attempts was_sent x.attempts)
  step-Evolves (claim now) s =
      take_item-Evolves now (first_where due_before (is_due now) (recover_expired now s.items)) s
  step-Evolves (complete id message_id now) s =
      Evolves-update (sending_item id) (mark_sent message_id now) s.items λ x h.
        moves refl (inr refl) (sent-Transition x.status (&&-eq-true (str_eq x.id id) _ h).1) refl
  step-Evolves (fail id code message uncertain now) s =
      Evolves-update (sending_item id) (mark_failed code message uncertain now) s.items λ x h.
        moves refl (inl refl)
          (failure-Transition x.status uncertain (&&-eq-true (str_eq x.id id) _ h).1)
          (failure-attempts uncertain x.attempts)
  step-Evolves (prune before) s =
      Evolves-delete (old_terminal before) s.items λ x h. (&&-eq-true (is_terminal x.status) _ h).0
