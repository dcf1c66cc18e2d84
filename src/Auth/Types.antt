-- ===== src/Auth/Types.antt =====
-- The rows and errors of crates/imail-storage-sqlite/src/auth.rs, and the calls of a service over them.
-- Texts are lists of code points; times are the milliseconds that the stored texts stand for.
use i_mail.Base.{ℕ, Bool, Option, List, String}
use i_mail.Base.Texts.{Text}
use i_mail.Base.Result.{Result, ok, err}

pub record AppUserView : Type 0 where
  pub id : Text
  pub login : Text
  pub display_name : Text
  pub created_at : ℕ

-- A row of `app_users`.
pub record UserRow : Type 0 where
  pub user : AppUserView
  pub password_hash : Text

-- A row of `app_sessions`.
pub record SessionRow : Type 0 where
  pub id : Text
  pub user_id : Text
  pub token_hash : Text
  pub created_at : ℕ
  pub expires_at : ℕ
  pub last_seen_at : ℕ

-- A row of `auth_rate_limits`.
pub record LimitRow : Type 0 where
  pub key_hash : Text
  pub attempt_count : ℕ
  pub reset_at : ℕ

-- A row of `security_audit_events`; the services of this part write no details.
pub record EventRow : Type 0 where
  pub id : Text
  pub event_type : Text
  pub user_id : Option Text
  pub actor_hash : Text
  pub created_at : ℕ

pub record MetadataRow : Type 0 where
  pub key : Text
  pub value : Text

-- `owners` is the column `user_id` of the rows of accounts, developer_tokens, contacts and
-- logo_fetch_attempts, the four tables that the first user takes over.
pub record AuthStore : Type 0 where
  pub users : List UserRow
  pub sessions : List SessionRow
  pub limits : List LimitRow
  pub events : List EventRow
  pub metadata : List MetadataRow
  pub owners : List Text

pub data StoreFailure : Type 0 where
  security sqlite : StoreFailure

-- `AuthenticationError`
pub data AuthError : Type 0 where
  domain : ℕ → String → AuthError
  limited : ℕ → AuthError
  repository : StoreFailure → AuthError

pub record RateLimitDecision : Type 0 where
  pub allowed : Bool
  pub retry_after : ℕ

-- The crates that the code calls: hashes, passwords, lower case, and the class [\p{L}\p{N}] of regex.
pub record Deps : Type 0 where
  pub sha256_hex : Text → Text
  pub hash_password : Text → Option Text
  pub verify_password : Text → Text → Option Bool
  pub actor_hmac : Text → Text
  pub to_lowercase : Text → Text
  pub is_letter_or_number : ℕ → Bool

-- A call of a service: its answer, and the store as the calls before an error left it.
abbrev pub Call : Type 0 → Type 0
Call A = Result AuthError A × AuthStore

abbrev pub then_ : {A B : Type 0} → Call A → (A → AuthStore → Call B) → Call B
then_ (ok a, s) k = k a s
then_ (err e, s) k = (err e, s)

-- A method of the store, whose transaction is rolled back where it fails.
abbrev pub run_store : {A : Type 0} → AuthStore → Result StoreFailure (A × AuthStore) → Call A
run_store s (ok (a, s')) = (ok a, s')
run_store s (err e) = (err (repository e), s)
