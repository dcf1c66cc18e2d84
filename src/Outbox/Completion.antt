-- ===== src/Outbox/Completion.antt =====
-- The end of a delivery: `complete_outbox` on an item that is being sent, and on any other.
use i_mail.Base.{
  ℕ, ◌≢◌, ◌≡◌, refl, String, true, false, Bool-cases, inl, inr, none, some, All, All-map, Any,
  &&-eq-true, str_eq, sql_eq, str_eq_sound,
}
use i_mail.Base.Table.{update_where-none, count_where-none}
use i_mail.Outbox.Types.{
  OutboxItem, OutboxStore, OutboxStatus, is_sending, scheduled, sending, sent, failed, needs_review,
  cancelled,
}
use i_mail.Outbox.Sending.{sending_item, mark_sent, complete_outbox}

-- The row of `x` once it is sent: its bodies and attachments are gone, and no lease or error is left.
pub record IsSent (message_id : String) (now : ℕ) (x y : OutboxItem) : Type 0 where
  pub named : y.id ≡ x.id
  pub status : y.status ≡ sent
  pub at : y.sent_at ≡ some now
  pub under : y.sent_message_id ≡ some message_id
  pub released : y.lease_until ≡ none
  pub clean : (y.last_error_code ≡ none) × (y.last_error_message ≡ none)
  pub text : y.message.text ≡ ""
  pub html : y.message.html ≡ none
  pub attachments : y.message.attachments ≡ none
  pub subject : y.message.subject ≡ x.message.subject
  pub recipients : y.message.to ≡ x.message.to

-- What the completion of `x` leaves: the call succeeds, the row is sent, and no draft of it is left.
pub record IsCompleted (x : OutboxItem) (message_id : String) (now : ℕ) (s : OutboxStore)
    : Type 0 where
  pub answer : (complete_outbox x.id message_id now s).0 ≡ true
  pub row : Any (IsSent message_id now x) (complete_outbox x.id message_id now s).1.items
  pub drafts :
      All (λ d. sql_eq (some d) x.draft_id ≡ false) (complete_outbox x.id message_id now s).1.drafts

is_sending-sending : (st : OutboxStatus) → is_sending st ≡ true → st ≡ sending
is_sending-sending scheduled h = cc
is_sending-sending sending h = refl
is_sending-sending sent h = cc
is_sending-sending failed h = cc
is_sending-sending needs_review h = cc
is_sending-sending cancelled h = cc

not_sending :
    (id : String) (x : OutboxItem) → (x.id ≡ id → x.status ≢ sending) → sending_item id x ≡ false
not_sending id x h = elim (Bool-cases (sending_item id x)) [
  | inl e ↦
      let (a, b) = &&-eq-true (str_eq x.id id) (is_sending x.status) e in
      absurd (h (str_eq_sound x.id id a) (is_sending-sending x.status b))
  | inr e ↦ e
]

-- Where no item of that identifier is being sent, because there is none or because it waits, failed,
-- is under review, was cancelled or is sent already, a completion fails and changes nothing.
pub complete_not_sending :
    (id message_id : String) (now : ℕ) (s : OutboxStore)
    → All (λ y. y.id ≡ id → y.status ≢ sending) s.items
    → complete_outbox id message_id now s ≡ (false, s)
unfolding complete_outbox
complete_not_sending id message_id now s h =
    let k = All-map _ (λ y. sending_item id y ≡ false) (not_sending id) s.items h in
    rw (
      count_where-none (sending_item id) s.items k,
      update_where-none (sending_item id) (mark_sent message_id now) s.items k,
    )
