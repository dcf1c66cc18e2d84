-- ===== src/Outbox/Types.antt =====
-- The rows, requests, answers and statuses of crates/imail-storage-sqlite/src/outbox.rs and of its
-- table `outbox_items`. Times are the milliseconds that the stored RFC 3339 texts stand for;
-- `message_json` is the message that it encodes.
use i_mail.Base.{ℕ, ◌*◌, String, Bool, true, false, ◌&&◌, Option, none, some, List, str_eq}

pub data OutboxStatus : Type 0 where
  scheduled sending sent failed needs_review cancelled : OutboxStatus

-- The parts of `SendMessageInput` that the outbox reads or clears; attachments are their names.
pub record SendMessageInput : Type 0 where
  pub account_id : String
  pub to : List String
  pub cc : Option (List String)
  pub bcc : List String
  pub subject : String
  pub text : String
  pub html : Option String
  pub attachments : Option (List String)

-- A row of `outbox_items`.
pub record OutboxItem : Type 0 where
  pub id : String
  pub user_id : String
  pub account_id : String
  pub message : SendMessageInput
  pub draft_id : Option String
  pub idempotency_key : Option String
  pub request_fingerprint : Option String
  pub scheduled_at : ℕ
  pub status : OutboxStatus
  pub attempts : ℕ
  pub last_error_code : Option String
  pub last_error_message : Option String
  pub lease_until : Option ℕ
  pub sent_message_id : Option String
  pub created_at : ℕ
  pub updated_at : ℕ
  pub sent_at : Option ℕ

-- A row of `accounts`: the columns that the outbox reads.
pub record AccountRow : Type 0 where
  pub id : String
  pub user_id : String

pub record OutboxStore : Type 0 where
  pub accounts : List AccountRow
  pub drafts : List String
  pub items : List OutboxItem

pub record OutboxSchedule : Type 0 where
  pub id : String
  pub message : SendMessageInput
  pub draft_id : Option String
  pub idempotency_key : String
  pub scheduled_at : ℕ
  pub now : ℕ

pub record OutboxWorkItem : Type 0 where
  pub id : String
  pub owner_id : String
  pub message : SendMessageInput

pub data AuthStoreError : Type 0 where
  account_not_owned idempotency_conflict invalid_content_data constraint_violated : AuthStoreError

pub data Result (A : Type 0) : Type 0 where
  ok : A → Result A
  err : AuthStoreError → Result A

abbrev pub lease_ms : ℕ
lease_ms = 10 * 60_000

abbrev pub terminal_history_limit : ℕ
terminal_history_limit = 200

abbrev pub is_scheduled : OutboxStatus → Bool
is_scheduled scheduled = true
is_scheduled _ = false

abbrev pub is_sending : OutboxStatus → Bool
is_sending sending = true
is_sending _ = false

abbrev pub is_failed : OutboxStatus → Bool
is_failed failed = true
is_failed _ = false

abbrev pub is_review : OutboxStatus → Bool
is_review needs_review = true
is_review _ = false

abbrev pub is_terminal : OutboxStatus → Bool
is_terminal sent = true
is_terminal cancelled = true
is_terminal _ = false

-- json_set(message_json,'$.text','','$.html',NULL,'$.attachments',NULL)
abbrev pub redact : SendMessageInput → SendMessageInput
redact m = record m { text = ""; html = none; attachments = none }

abbrev pub owned_item : String → String → OutboxItem → Bool
owned_item owner id x = str_eq x.user_id owner && str_eq x.id id

abbrev pub new_item : String → String → OutboxSchedule → OutboxItem
new_item owner fingerprint input = record {
  id = input.id;
  user_id = owner;
  account_id = input.message.account_id;
  message = input.message;
  draft_id = input.draft_id;
  idempotency_key = some input.idempotency_key;
  request_fingerprint = some fingerprint;
  scheduled_at = input.scheduled_at;
  status = scheduled;
  attempts = 0;
  last_error_code = none;
  last_error_message = none;
  lease_until = none;
  sent_message_id = none;
  created_at = input.now;
  updated_at = input.now;
  sent_at = none;
}
