-- ===== src/Outbox/Calls.antt =====
-- What a user calls of outbox.rs: schedule, cancel, retry, resolve, over the tables `outbox_items`,
-- `drafts` and `accounts`. A method that returns an error has rolled its transaction back, so it
-- hands back no store.
use i_mail.Base.{
  ℕ, String, Bool, ◌&&◌, ◌||◌, Option, none, some, List, [], ◌∷◌, ◌++◌, ◌==◌, if◌then◌else◌, sql_eq,
  str_eq,
}
use i_mail.Base.Table.{update_where, count_where, delete_where, find_where, exists_where}
use i_mail.Outbox.Types.{
  OutboxItem, OutboxSchedule, OutboxStatus, OutboxStore, Result, SendMessageInput,
  account_not_owned, cancelled, constraint_violated, err, idempotency_conflict,
  invalid_content_data, is_failed, is_review, is_scheduled, new_item, ok, owned_item, redact,
  scheduled, sent,
}

abbrev pub or_empty : Option String → String
or_empty none = ""
or_empty (some s) = s

abbrev pub has_key : String → String → OutboxItem → Bool
has_key owner key x = str_eq x.user_id owner && sql_eq x.idempotency_key (some key)

-- SELECT … FROM outbox_items WHERE user_id=?1 AND id=?2
unfoldable pub outbox_item : String → String → OutboxStore → Option OutboxItem
outbox_item owner id s = find_where (owned_item owner id) s.items

-- The read of the row at the end of `schedule_outbox`.
abbrev pub read_back : String → String → OutboxStore → Result (OutboxItem × OutboxStore)
read_back owner id s = elim (outbox_item owner id s) [
  | some item ↦ ok (item, s)
  | none ↦ err invalid_content_data
]

-- Without an item of the key: the INSERT, which fails on an `id` that exists.
abbrev pub insert_item :
    String → String → OutboxSchedule → OutboxStore → Result (OutboxItem × OutboxStore)
insert_item owner fingerprint input s =
    if exists_where (λ x. str_eq x.id input.id) s.items
    then err constraint_violated
    else read_back owner input.id
        (record s { items = s.items ++ new_item owner fingerprint input ∷ [] })

-- SELECT EXISTS(SELECT 1 FROM accounts WHERE id=?1 AND user_id=?2)
abbrev pub owns_account : String → String → OutboxStore → Bool
owns_account owner account s =
    exists_where (λ a. str_eq a.id account && str_eq a.user_id owner) s.accounts

-- `digest` is the SHA-256 of the message, the draft's identifier and the time.
unfoldable pub schedule_outbox :
    (SendMessageInput → String → ℕ → String)
    → String
    → OutboxSchedule
    → OutboxStore
    → Result (OutboxItem × OutboxStore)
unfolding outbox_item
schedule_outbox digest owner input s =
    let fingerprint = digest input.message (or_empty input.draft_id) input.scheduled_at in
    if owns_account owner input.message.account_id s
    then elim (find_where (has_key owner input.idempotency_key) s.items) [
      | none ↦ insert_item owner fingerprint input s
      | some x ↦
          if sql_eq x.request_fingerprint (some fingerprint)
          then read_back owner x.id s
          else err idempotency_conflict
    ]
    else err account_not_owned

abbrev pub can_cancel : OutboxStatus → Bool
can_cancel st = is_scheduled st || is_failed st

abbrev pub cancellable : String → String → OutboxItem → Bool
cancellable owner id x = owned_item owner id x && can_cancel x.status

abbrev pub cancel_item : ℕ → OutboxItem → OutboxItem
cancel_item now x = record x {
  status = cancelled;
  updated_at = now;
  lease_until = none;
  message = redact x.message;
}

unfoldable pub cancel_outbox : String → String → ℕ → OutboxStore → Bool × OutboxStore
cancel_outbox owner id now s = (
  count_where (cancellable owner id) s.items == 1,
  record s { items = update_where (cancellable owner id) (cancel_item now) s.items },
)

abbrev pub retryable : String → String → OutboxItem → Bool
retryable owner id x = owned_item owner id x && is_failed x.status

abbrev pub reschedule_item : ℕ → OutboxItem → OutboxItem
reschedule_item now x = record x {
  status = scheduled;
  scheduled_at = now;
  updated_at = now;
  last_error_code = none;
  last_error_message = none;
  lease_until = none;
}

unfoldable pub retry_outbox : String → String → ℕ → OutboxStore → Bool × OutboxStore
retry_outbox owner id now s = (
  count_where (retryable owner id) s.items == 1,
  record s { items = update_where (retryable owner id) (reschedule_item now) s.items },
)

-- DELETE FROM drafts WHERE id=(SELECT draft_id …)
abbrev pub drop_draft : Option OutboxItem → List String → List String
drop_draft none drafts = drafts
drop_draft (some x) drafts = delete_where (λ d. sql_eq (some d) x.draft_id) drafts

abbrev pub resolvable : String → String → OutboxItem → Bool
resolvable owner id x = owned_item owner id x && is_review x.status

abbrev pub resolve_item : Bool → ℕ → OutboxItem → OutboxItem
resolve_item was_sent now x = record x {
  status = if was_sent then sent else cancelled;
  sent_at = if was_sent then some now else none;
  updated_at = now;
  lease_until = none;
  last_error_code = none;
  last_error_message = none;
  message = redact x.message;
}

unfoldable pub resolve_outbox : String → String → Bool → ℕ → OutboxStore → Bool × OutboxStore
unfolding outbox_item
resolve_outbox owner id was_sent now s =
    let hit = resolvable owner id in
    let updated = count_where hit s.items == 1 in
    let items = update_where hit (resolve_item was_sent now) s.items in
    let s' = record s { items = items } in
    (
      updated,
      record s' {
        drafts =
            if updated && was_sent then drop_draft (outbox_item owner id s') s.drafts else s.drafts;
      },
    )
