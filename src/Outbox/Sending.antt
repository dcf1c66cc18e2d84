-- ===== src/Outbox/Sending.antt =====
-- What the send worker and the list view call of outbox.rs: claim, complete, fail, prune, list.
use i_mail.Base.{
  ℕ, ◌+◌, String, Bool, false, not, ◌&&◌, ◌||◌, Option, none, some, List, ltb, leb, ◌==◌,
  if◌then◌else◌, str_eq, take, text_lt,
}
use i_mail.Base.Table.{
  update_where, count_where, delete_where, select_where, find_where, exists_where, first_where,
}
use i_mail.Base.Sorting.{sort_by}
use i_mail.Outbox.Types.{
  OutboxItem, OutboxStatus, OutboxStore, OutboxWorkItem, failed, is_scheduled, is_sending,
  is_terminal, lease_ms, needs_review, redact, scheduled, sending, sent, terminal_history_limit,
}
use i_mail.Outbox.Calls.{drop_draft}

-- ORDER BY scheduled_at,created_at,id
abbrev pub due_before : OutboxItem → OutboxItem → Bool
due_before a b =
    ltb a.scheduled_at b.scheduled_at
    || (a.scheduled_at == b.scheduled_at
        && (ltb a.created_at b.created_at || (a.created_at == b.created_at && text_lt a.id b.id)))

abbrev pub is_due : ℕ → OutboxItem → Bool
is_due now x = is_scheduled x.status && leb x.scheduled_at now

abbrev pub lease_expired : ℕ → OutboxItem → Bool
lease_expired now x =
    is_sending x.status && elim x.lease_until [ none ↦ false | some until ↦ leb until now ]

abbrev pub to_review : ℕ → OutboxItem → OutboxItem
to_review now x = record x {
  status = needs_review;
  last_error_code = some "OUTBOX_RESULT_UNCERTAIN";
  last_error_message = some "服务在发送过程中中断，请核对已发送邮件后人工处理。";
  lease_until = none;
  updated_at = now;
}

abbrev pub start_sending : ℕ → OutboxItem → OutboxItem
start_sending now x = record x {
  status = sending;
  attempts = x.attempts + 1;
  lease_until = some (now + lease_ms);
  updated_at = now;
}

-- The first statement of `claim_due_outbox`: what was being sent when its lease ran out.
abbrev pub recover_expired : ℕ → List OutboxItem → List OutboxItem
recover_expired now items = update_where (lease_expired now) (to_review now) items

abbrev pub same_scheduled : String → OutboxItem → Bool
same_scheduled id x = str_eq x.id id && is_scheduled x.status

-- The rest of it, from the row that the SELECT found.
abbrev pub take_item : ℕ → Option OutboxItem → OutboxStore → Option OutboxWorkItem × OutboxStore
take_item now none s = (none, s)
take_item now (some x) s =
    let hit = same_scheduled x.id in
    if count_where hit s.items == 1
    then (
      some (record { id = x.id; owner_id = x.user_id; message = x.message }),
      record s { items = update_where hit (start_sending now) s.items },
    )
    else (none, record s { items = update_where hit (start_sending now) s.items })

unfoldable pub claim_due_outbox : ℕ → OutboxStore → Option OutboxWorkItem × OutboxStore
claim_due_outbox now s =
    let items = recover_expired now s.items in
    take_item now (first_where due_before (is_due now) items) (record s { items = items })

abbrev pub sending_item : String → OutboxItem → Bool
sending_item id x = str_eq x.id id && is_sending x.status

abbrev pub mark_sent : String → ℕ → OutboxItem → OutboxItem
mark_sent message_id now x = record x {
  status = sent;
  sent_message_id = some message_id;
  sent_at = some now;
  updated_at = now;
  lease_until = none;
  last_error_code = none;
  last_error_message = none;
  message = redact x.message;
}

unfoldable pub complete_outbox : String → String → ℕ → OutboxStore → Bool × OutboxStore
complete_outbox id message_id now s =
    let updated = count_where (sending_item id) s.items == 1 in
    let items = update_where (sending_item id) (mark_sent message_id now) s.items in
    (
      updated,
      record s {
        items = items;
        drafts =
            if updated
            then drop_draft (find_where (λ x. str_eq x.id id) items) s.drafts
            else s.drafts;
      },
    )

abbrev pub mark_failed : String → String → Bool → ℕ → OutboxItem → OutboxItem
mark_failed code message uncertain now x = record x {
  status = if uncertain then needs_review else failed;
  last_error_code = some code;
  last_error_message = some message;
  updated_at = now;
  lease_until = none;
}

unfoldable pub fail_outbox : String → String → String → Bool → ℕ → OutboxStore → Bool × OutboxStore
fail_outbox id code message uncertain now s = (
  count_where (sending_item id) s.items == 1,
  record s {
    items = update_where (sending_item id) (mark_failed code message uncertain now) s.items;
  },
)

abbrev pub old_terminal : ℕ → OutboxItem → Bool
old_terminal before x = is_terminal x.status && ltb x.updated_at before

unfoldable pub prune_outbox : ℕ → OutboxStore → ℕ × OutboxStore
prune_outbox before s = (
  count_where (old_terminal before) s.items,
  record s { items = delete_where (old_terminal before) s.items },
)

-- ORDER BY updated_at DESC,id DESC
abbrev pub recent_before : OutboxItem → OutboxItem → Bool
recent_before a b =
    ltb b.updated_at a.updated_at || (a.updated_at == b.updated_at && text_lt b.id a.id)

-- CASE status WHEN 'sending' THEN 0 WHEN 'scheduled' THEN 1 …
abbrev pub status_rank : OutboxStatus → ℕ
status_rank sending = 0
status_rank scheduled = 1
status_rank needs_review = 2
status_rank failed = 3
status_rank _ = 4

abbrev pub listed_before : OutboxItem → OutboxItem → Bool
listed_before a b =
    ltb (status_rank a.status) (status_rank b.status)
    || (status_rank a.status == status_rank b.status
        && (ltb b.scheduled_at a.scheduled_at
            || (a.scheduled_at == b.scheduled_at && ltb b.created_at a.created_at)))

abbrev pub owned_terminal : String → OutboxItem → Bool
owned_terminal owner x = str_eq x.user_id owner && is_terminal x.status

-- The sub-select: the newest finished items of the owner.
abbrev pub recent_terminal : String → List OutboxItem → List OutboxItem
recent_terminal owner items =
    take terminal_history_limit (sort_by recent_before (select_where (owned_terminal owner) items))

abbrev pub is_listed : String → List OutboxItem → OutboxItem → Bool
is_listed owner items x =
    str_eq x.user_id owner
    && (not (is_terminal x.status)
        || exists_where (λ y. str_eq y.id x.id) (recent_terminal owner items))

unfoldable pub list_outbox : String → OutboxStore → List OutboxItem
list_outbox owner s = sort_by listed_before (select_where (is_listed owner s.items) s.items)
