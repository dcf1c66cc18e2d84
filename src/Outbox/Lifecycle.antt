-- ===== src/Outbox/Lifecycle.antt =====
-- How a row of `outbox_items` may change: the life cycle that the outbox promises, and what a call
-- may do to a table.
use i_mail.Base.{ℕ, ◌+◌, ◌≡◌, ◌⊎◌, String, true, Option, List, [], ◌∷◌}
use i_mail.Outbox.Types.{
  OutboxStatus, scheduled, sending, sent, failed, needs_review, cancelled, OutboxItem, redact,
  is_terminal,
}

-- The life cycle of an item, as the service promises it: nothing leaves `sent` or `cancelled`, only
-- a failed item is scheduled again, and only a scheduled one is sent.
pub data Transition : OutboxStatus → OutboxStatus → Type 0 where
  start : Transition scheduled sending
  withdraw : Transition scheduled cancelled
  deliver : Transition sending sent
  reject : Transition sending failed
  doubt : Transition sending needs_review
  again : Transition failed scheduled
  give_up : Transition failed cancelled
  confirm : Transition needs_review sent
  deny : Transition needs_review cancelled

-- What no call changes in a row.
abbrev pub Identity : Type 0
Identity = String × String × String × Option String × Option String × Option String × ℕ

abbrev pub identity : OutboxItem → Identity
identity x = (
  x.id, x.user_id, x.account_id, x.draft_id, x.idempotency_key, x.request_fingerprint, x.created_at,
)

-- An attempt is counted exactly when sending starts.
abbrev pub attempts_after : OutboxStatus → ℕ → ℕ
attempts_after sending n = n + 1
attempts_after _ n = n

-- What one call may do to a row: the identity stays, the message is kept or redacted, and the
-- status and the number of attempts stay, or follow the life cycle.
pub record Moves (x y : OutboxItem) : Type 0 where
  pub same : identity y ≡ identity x
  pub message : (y.message ≡ x.message) ⊎ (y.message ≡ redact x.message)
  pub moved :
      ((y.status ≡ x.status) × (y.attempts ≡ x.attempts))
      ⊎ (Transition x.status y.status × (y.attempts ≡ attempts_after y.status x.attempts))

-- The rows after a call, against those before it: kept rows move, a dropped row had finished, and a
-- new row is scheduled and has not been tried.
pub data Evolves : List OutboxItem → List OutboxItem → Type 0 where
  nil : Evolves [] []
  keep :
      {x y : OutboxItem} {xs ys : List OutboxItem}
      → Moves x y
      → Evolves xs ys
      → Evolves (x ∷ xs) (y ∷ ys)
  drop :
      {x : OutboxItem} {xs ys : List OutboxItem}
      → is_terminal x.status ≡ true
      → Evolves xs ys
      → Evolves (x ∷ xs) ys
  add :
      {y : OutboxItem} {ys : List OutboxItem}
      → y.status ≡ scheduled
      → y.attempts ≡ 0
      → Evolves [] ys
      → Evolves [] (y ∷ ys)
