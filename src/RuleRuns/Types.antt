-- ===== src/RuleRuns/Types.antt =====
-- The rows and errors of crates/imail-storage-sqlite/src/rules.rs and of its tables `mail_rules`,
-- `mail_rule_runs`, `mail_rule_message_state`, `mail_rule_previews`, and the columns of `accounts`,
-- `messages` and `sync_jobs` that it reads or writes. Texts are lists of code points; times are the
-- nanoseconds that the stored texts stand for.
use i_mail.Base.{ℕ, Bool, true, false, ◌&&◌, Option, none, some, List, ◌++◌}
use i_mail.Base.Texts.{Text, codes, text_eq, is_blank}
use i_mail.Rules.Types.{MailRule, RuleAction, MessageReadModel}

pub record AccountRow : Type 0 where
  pub id : Text
  pub user_id : Text

-- A row of `mail_rules`.
pub record RuleRow : Type 0 where
  pub user_id : Text
  pub rule : MailRule

pub data RunStatus : Type 0 where
  pending running succeeded failed needs_review cancelled : RunStatus

-- A row of `mail_rule_runs`; `actions` is what `actions_json` encodes.
pub record RunRow : Type 0 where
  pub sequence : ℕ
  pub id : Text
  pub user_id : Text
  pub rule_id : Text
  pub rule_name : Text
  pub revision : ℕ
  pub account_id : Text
  pub message_id : Text
  pub identity : Text
  pub source : Text
  pub status : RunStatus
  pub actions : List RuleAction
  pub completed_actions : ℕ
  pub local_actions : ℕ
  pub attempts : ℕ
  pub error_code : Option Text
  pub lease_until : Option ℕ
  pub created_at : ℕ
  pub updated_at : ℕ

-- A row of `messages`: `view` holds the fields that the rules match on.
pub record MessageRow : Type 0 where
  pub id : Text
  pub message_id : Option Text
  pub mailbox : Text
  pub uid : ℕ
  pub received_at : Text
  pub snoozed_until : Option ℕ
  pub view : MessageReadModel

pub record MuteRow : Type 0 where
  pub account_id : Text
  pub identity : Text
  pub muted : Bool

pub record PreviewMessage : Type 0 where
  pub id : Text
  pub fingerprint : Text

-- A row of `mail_rule_previews`; `messages` is what `messages_json` encodes.
pub record PreviewRow : Type 0 where
  pub id : Text
  pub user_id : Text
  pub rule_id : Text
  pub revision : ℕ
  pub messages : List PreviewMessage
  pub expires_at : ℕ

pub data SyncJobStatus : Type 0 where
  queued active finished : SyncJobStatus

-- A row of `sync_jobs`; `finished` stands for the three final statuses.
pub record JobRow : Type 0 where
  pub id : Text
  pub account_id : Text
  pub mailbox : Option Text
  pub mailbox_role : Text
  pub reason : Text
  pub status : SyncJobStatus
  pub priority : ℕ
  pub not_before : ℕ
  pub rerun_requested : Bool

-- `next_sequence` is the counter of the AUTOINCREMENT key.
pub record RuleStore : Type 0 where
  pub accounts : List AccountRow
  pub rules : List RuleRow
  pub runs : List RunRow
  pub messages : List MessageRow
  pub mutes : List MuteRow
  pub previews : List PreviewRow
  pub jobs : List JobRow
  pub next_sequence : ℕ

pub data StoreError : Type 0 where
  account_not_owned invalid_content_data sqlite : StoreError

-- `RemoteMessageMoveResult`
pub record RemoteMove : Type 0 where
  pub mailbox : Text
  pub uid : Option ℕ

pub record RuleWork : Type 0 where
  pub id : Text
  pub message : MessageRow
  pub action : RuleAction
  pub index : ℕ
  pub lease : ℕ

abbrev pub is_pending : RunStatus → Bool
is_pending pending = true
is_pending _ = false

abbrev pub is_running : RunStatus → Bool
is_running running = true
is_running _ = false

abbrev pub has_failed : RunStatus → Bool
has_failed failed = true
has_failed _ = false

-- status IN ('pending','running','failed','needsReview')
abbrev pub is_unfinished : RunStatus → Bool
is_unfinished succeeded = false
is_unfinished cancelled = false
is_unfinished _ = true

abbrev pub filled : Option Text → Option Text
filled none = none
filled (some id) = elim (is_blank id) [ true ↦ none | false ↦ some id ]

abbrev pub identity_of : Text → Option Text → Text
identity_of id none = codes "local:" ++ id
identity_of id (some mid) = codes "rfc:" ++ mid

-- A header that is not blank names the message; otherwise its row does.
unfoldable pub message_identity : MessageRow → Text
unfolding is_blank
message_identity m = identity_of m.id (filled m.message_id)

abbrev pub owns : Text → Text → AccountRow → Bool
owns owner account a = text_eq a.id account && text_eq a.user_id owner

abbrev pub has_run_id : Text → RunRow → Bool
has_run_id id r = text_eq r.id id
