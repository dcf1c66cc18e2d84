-- ===== src/Sync/Types.antt =====
-- The rows, requests and errors of crates/imail-storage-sqlite/src/sync_runtime.rs and of its tables
-- `sync_jobs`, `mailbox_sync_states`, `sync_policies`, `sync_events` and `accounts` (the columns that
-- it reads or writes). Times are milliseconds; counts and priorities are the non-negative numbers
-- that the callers pass.
use i_mail.Base.{ℕ, String, Bool, true, false, Option, none, some, List, ◌&&◌, str_eq}

pub data JobStatus : Type 0 where
  queued running succeeded failed cancelled : JobStatus

-- A row of `sync_jobs`, and `SyncJobReadModel`.
pub record SyncJob : Type 0 where
  pub id : String
  pub account_id : String
  pub mailbox : Option String
  pub mailbox_role : String
  pub reason : String
  pub status : JobStatus
  pub priority : ℕ
  pub not_before : ℕ
  pub locked_by : Option String
  pub locked_until : Option ℕ
  pub attempts : ℕ
  pub created_at : ℕ
  pub started_at : Option ℕ
  pub finished_at : Option ℕ
  pub synced_count : Option ℕ
  pub new_count : Option ℕ
  pub updated_count : Option ℕ
  pub deleted_count : Option ℕ
  pub error_code : Option String
  pub error_message : Option String
  pub rerun_requested : Bool

pub data ConnectionStatus : Type 0 where
  connected unreachable auth_required : ConnectionStatus

pub data SyncState : Type 0 where
  idle working backoff paused : SyncState

-- A row of `mailbox_sync_states`.
pub record MailboxSyncState : Type 0 where
  pub account_id : String
  pub mailbox : String
  pub mailbox_role : String
  pub uid_validity : Option String
  pub last_seen_uid : ℕ
  pub highest_modseq : Option String
  pub last_attempt_at : Option ℕ
  pub last_success_at : Option ℕ
  pub next_sync_at : Option ℕ
  pub consecutive_failures : ℕ
  pub connection_status : ConnectionStatus
  pub sync_state : SyncState
  pub last_error_code : Option String
  pub last_error_message : Option String

-- A row of `sync_policies`.
pub record SyncPolicy : Type 0 where
  pub account_id : String
  pub enabled : Bool
  pub folder_mode : String
  pub selected_mailboxes : List String
  pub notify_on_error : Bool
  pub updated_at : ℕ

-- A row of `accounts`: `connected` is its status text, and false stands for 'error'.
pub record AccountRow : Type 0 where
  pub id : String
  pub connected : Bool
  pub last_error : Option String

-- What `payload_json` encodes.
pub data Payload : Type 0 where
  started : (mailbox mailbox_role reason : String) → Payload
  completed :
      (mailbox mailbox_role : String)
      → (synced created updated deleted : ℕ) → (message_changes : List String) → Payload
  errored : (mailbox mailbox_role code message : String) → (next_sync_at : Option ℕ) → Payload

-- A row of `sync_events`; its identifier is its place in the table.
pub record SyncEvent : Type 0 where
  pub account_id : String
  pub job_id : String
  pub payload : Payload
  pub created_at : ℕ

pub record SyncStore : Type 0 where
  pub accounts : List AccountRow
  pub policies : List SyncPolicy
  pub jobs : List SyncJob
  pub states : List MailboxSyncState
  pub events : List SyncEvent

pub record SyncEnqueue : Type 0 where
  pub account_id : String
  pub mailbox : Option String
  pub mailbox_role : String
  pub reason : String
  pub priority : ℕ
  pub not_before : Option ℕ

pub record SyncCompletion : Type 0 where
  pub mailbox : String
  pub uid_validity : Option String
  pub highest_modseq : Option String
  pub last_seen_uid : ℕ
  pub synced : ℕ
  pub created : ℕ
  pub updated : ℕ
  pub deleted : ℕ
  pub message_changes : List String

pub record SyncFailure : Type 0 where
  pub mailbox : String
  pub code : String
  pub message : String
  pub auth_required : Bool
  pub retry_minutes : Option ℕ

pub record SyncPolicySettings : Type 0 where
  pub enabled : Bool
  pub folder_mode : String
  pub selected_mailboxes : List String
  pub notify_on_error : Bool

-- `sqlite` is a constraint of the schema that a statement breaks.
pub data SyncRuntimeError : Type 0 where
  lease_lost sqlite : SyncRuntimeError
  invalid_input : String → SyncRuntimeError

pub data Result (A : Type 0) : Type 0 where
  ok : A → Result A
  err : SyncRuntimeError → Result A

infixl 5 ◌>>=◌ ◌>>◌
abbrev pub ◌>>=◌ : {A B : Type 0} → Result A → (A → Result B) → Result B
ok a >>= f = f a
err e >>= f = err e

abbrev pub ◌>>◌ : {B : Type 0} → Result (Unit {0}) → Result B → Result B
m >> k = m >>= λ _. k

-- An early return of the error where the test passes.
abbrev pub fail_if : Bool → SyncRuntimeError → Result (Unit {0})
fail_if true e = err e
fail_if false e = ok tt

abbrev pub is_queued : JobStatus → Bool
is_queued queued = true
is_queued _ = false

abbrev pub is_running : JobStatus → Bool
is_running running = true
is_running _ = false

abbrev pub is_active : JobStatus → Bool
is_active queued = true
is_active running = true
is_active _ = false

-- coalesce(mailbox,'')
abbrev pub or_empty : Option String → String
or_empty none = ""
or_empty (some s) = s

-- The columns of the unique index `sync_jobs_active_target`.
abbrev pub same_target : String → Option String → String → SyncJob → Bool
same_target account mailbox role j =
    str_eq j.account_id account
    && str_eq (or_empty j.mailbox) (or_empty mailbox)
    && str_eq j.mailbox_role role

abbrev pub active_target : String → Option String → String → SyncJob → Bool
active_target account mailbox role j = same_target account mailbox role j && is_active j.status
