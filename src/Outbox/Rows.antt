-- ===== src/Outbox/Rows.antt =====
-- A predicate on single rows under the calls of crates/imail-storage-sqlite/src/outbox.rs.
use i_mail.Base.{
  ℕ, ◌≡◌, inl, inr, String, true, Option, none, some, [], ◌∷◌, ◌++◌, All, All-append, Bool-cases,
  Option-cases, ◌==◌, str_eq, sql_eq,
}
use i_mail.Base.Table.{
  exists_where, find_where, first_where, count_where, All-update_where, All-delete_where,
}
use i_mail.Outbox.Types.{SendMessageInput, OutboxItem, OutboxStore, OutboxSchedule, new_item}
use i_mail.Outbox.Calls.{
  cancellable, cancel_item, retryable, reschedule_item, resolvable, resolve_item, read_back,
  insert_item, or_empty, owns_account, outbox_item, has_key, schedule_outbox, cancel_outbox,
  retry_outbox, resolve_outbox,
}
use i_mail.Outbox.Sending.{
  sending_item, mark_sent, mark_failed, old_terminal, lease_expired, to_review, same_scheduled,
  start_sending, take_item, due_before, is_due, recover_expired, claim_due_outbox, complete_outbox,
  fail_outbox, prune_outbox,
}
use i_mail.Outbox.Steps.{
  Call, schedule, cancel, retry, resolve, claim, complete, fail, prune, commit, step,
}

module _ (P : OutboxItem → Type 0) where
  -- The rows that a call writes satisfy `P`, where those that it reads do.
  abbrev pub KeepsRow : Call → Type 0
  KeepsRow (schedule owner input) = (fingerprint : String) → P (new_item owner fingerprint input)
  KeepsRow (cancel owner id now) =
      (x : OutboxItem) → cancellable owner id x ≡ true → P x → P (cancel_item now x)
  KeepsRow (retry owner id now) =
      (x : OutboxItem) → retryable owner id x ≡ true → P x → P (reschedule_item now x)
  KeepsRow (resolve owner id was_sent now) =
      (x : OutboxItem) → resolvable owner id x ≡ true → P x → P (resolve_item was_sent now x)
  KeepsRow (claim now) =
      ((x : OutboxItem) → lease_expired now x ≡ true → P x → P (to_review now x))
      × ((id : String) (x : OutboxItem)
          → same_scheduled id x ≡ true
          → P x
          → P (start_sending now x))
  KeepsRow (complete id message_id now) =
      (x : OutboxItem) → sending_item id x ≡ true → P x → P (mark_sent message_id now x)
  KeepsRow (fail id code message uncertain now) =
      (x : OutboxItem)
      → sending_item id x ≡ true
      → P x
      → P (mark_failed code message uncertain now x)
  KeepsRow (prune before) = Unit

  take_item-All :
      (now : ℕ) (o : Option OutboxItem) (s : OutboxStore)
      → ((id : String) (x : OutboxItem)
          → same_scheduled id x ≡ true
          → P x
          → P (start_sending now x))
      → All P s.items
      → All P (take_item now o s).1.items
  take_item-All now none s k h = h
  take_item-All now (some x) s k h =
      let all = All-update_where P (same_scheduled x.id) (start_sending now) (k x.id) s.items h in
      elim (Bool-cases (count_where (same_scheduled x.id) s.items == 1)) [
        | inl e ↦ rw e all
        | inr e ↦ rw e all
      ]

  read_back-All :
      (owner id : String) (s s' : OutboxStore)
      → All P s.items
      → All P s'.items
      → All P (commit (read_back owner id s') s).items
  read_back-All owner id s s' h k = elim (Option-cases (outbox_item owner id s')) [
    | inl e ↦ rw (e, commit) h
    | inr (x, e) ↦ rw (e, commit) k
  ]

  insert_item-All :
      (owner fingerprint : String) (input : OutboxSchedule) (s : OutboxStore)
      → P (new_item owner fingerprint input)
      → All P s.items
      → All P (commit (insert_item owner fingerprint input s) s).items
  insert_item-All owner fingerprint input s new h =
      let item = new_item owner fingerprint input in
      elim (Bool-cases (exists_where (λ x. str_eq x.id input.id) s.items)) [
        | inl e ↦ rw e h
        | inr e ↦ rw e (
            read_back-All owner input.id s (record s { items = s.items ++ item ∷ [] }) h
              (All-append P s.items (item ∷ []) h (new, tt)))
      ]

  schedule-All :
      (digest : SendMessageInput → String → ℕ → String) (owner : String) (input : OutboxSchedule)
      (s : OutboxStore)
      → ((fingerprint : String) → P (new_item owner fingerprint input))
      → All P s.items
      → All P (commit (schedule_outbox digest owner input s) s).items
  unfolding schedule_outbox
  schedule-All digest owner input s new h =
      let fp = digest input.message (or_empty input.draft_id) input.scheduled_at in
      elim (Bool-cases (owns_account owner input.message.account_id s)) [
        | inr e ↦ rw e h
        | inl e ↦
            rw e (elim (Option-cases (find_where (has_key owner input.idempotency_key) s.items)) [
              | inl f ↦ rw f (insert_item-All owner fp input s (new fp) h)
              | inr (x, f) ↦ rw f (elim (Bool-cases (sql_eq x.request_fingerprint (some fp))) [
                | inl g ↦ rw g (read_back-All owner x.id s s h h)
                | inr g ↦ rw g h
              ])
            ])
      ]

  pub step-All :
      (digest : SendMessageInput → String → ℕ → String) (c : Call) (s : OutboxStore)
      → KeepsRow c
      → All P s.items
      → All P (step digest c s).items
  unfolding cancel_outbox retry_outbox resolve_outbox claim_due_outbox complete_outbox fail_outbox
      prune_outbox
  step-All digest (schedule owner input) s k h = schedule-All digest owner input s k h
  step-All digest (cancel owner id now) s k h =
      All-update_where P (cancellable owner id) (cancel_item now) k s.items h
  step-All digest (retry owner id now) s k h =
      All-update_where P (retryable owner id) (reschedule_item now) k s.items h
  step-All digest (resolve owner id was_sent now) s k h =
      All-update_where P (resolvable owner id) (resolve_item was_sent now) k s.items h
  step-All digest (claim now) s k h =
      take_item-All now (first_where due_before (is_due now) (recover_expired now s.items))
        (record s { items = recover_expired now s.items }) k.1
        (All-update_where P (lease_expired now) (to_review now) k.0 s.items h)
  step-All digest (complete id message_id now) s k h =
      All-update_where P (sending_item id) (mark_sent message_id now) k s.items h
  step-All digest (fail id code message uncertain now) s k h =
      All-update_where P (sending_item id) (mark_failed code message uncertain now) k s.items h
  step-All digest (prune before) s k h = All-delete_where P (old_terminal before) s.items h
