-- ===== src/Drafts/Repository.antt =====
-- The drafts of the SQLite repository: `account` of crates/imail-storage-sqlite/src/app_data.rs,
-- `list_drafts`, `upsert_draft` and `delete_draft` of content_data.rs there, and their table. A JSON
-- column is the value that it encodes.
use i_mail.Base.{
  String, Bool, true, false, not, ◌&&◌, ◌||◌, Option, none, some, List, [], ◌∷◌, ◌++◌,
  if◌then◌else◌, ◌==◌, str_eq, sql_eq, text_lt,
}
use i_mail.Base.Table.{
  update_where, select_where, delete_where, exists_where, find_where, count_where,
}
use i_mail.Base.Sorting.{sort_by}
use i_mail.Base.Json.{Value}
use i_mail.Base.Result.{Result, ok, ◌>>◌, fail_if}
use i_mail.Composition.Identifiers.{ComposeEnvelope}
use i_mail.Outbox.Types.{OutboxStatus, scheduled, sending, sent, failed, needs_review, cancelled}

-- `DraftReadModel`, and a row of `drafts`.
pub record DraftReadModel : Type 0 where
  pub envelope : ComposeEnvelope
  pub id : String
  pub account_id : String
  pub to : Value
  pub cc : Value
  pub subject : String
  pub text : String
  pub html : String
  pub attachments : Value
  pub created_at : String
  pub updated_at : String

-- A row of `accounts`: the columns that the queries read.
pub record DraftAccount : Type 0 where
  pub id : String
  pub user_id : String

-- A row of `outbox_items`: the columns that the queries read.
pub record DraftDelivery : Type 0 where
  pub user_id : String
  pub draft_id : Option String
  pub status : OutboxStatus

pub record DraftStore : Type 0 where
  pub accounts : List DraftAccount
  pub drafts : List DraftReadModel
  pub deliveries : List DraftDelivery

pub data DraftStoreError : Type 0 where
  account_not_owned content_ownership_violation : DraftStoreError

abbrev pub is_account_of : String → String → DraftAccount → Bool
is_account_of user id a = str_eq a.id id && str_eq a.user_id user

-- Whether `account` finds the account for the user; the decoding of its other columns is left out.
unfoldable pub has_account : String → String → DraftStore → Bool
has_account user id s = exists_where (is_account_of user id) s.accounts

-- status IN ('scheduled','sending','failed','needsReview')
abbrev pub is_undelivered : OutboxStatus → Bool
is_undelivered scheduled = true
is_undelivered sending = true
is_undelivered failed = true
is_undelivered needs_review = true
is_undelivered sent = false
is_undelivered cancelled = false

abbrev pub holds_draft : String → String → DraftDelivery → Bool
holds_draft user id o =
    str_eq o.user_id user && sql_eq o.draft_id (some id) && is_undelivered o.status

abbrev pub is_visible : String → DraftStore → DraftReadModel → Bool
is_visible user s d =
    exists_where (is_account_of user d.account_id) s.accounts
    && not (exists_where (holds_draft user d.id) s.deliveries)

-- ORDER BY d.updated_at DESC, d.id
abbrev pub draft_before : DraftReadModel → DraftReadModel → Bool
draft_before a b =
    text_lt b.updated_at a.updated_at || (str_eq a.updated_at b.updated_at && text_lt a.id b.id)

unfoldable pub list_drafts : String → DraftStore → List DraftReadModel
list_drafts user s = sort_by draft_before (select_where (is_visible user s) s.drafts)

abbrev pub is_draft : String → DraftReadModel → Bool
is_draft id d = str_eq d.id id

-- The user of the row's account, where the draft and the account are there.
abbrev pub user_of : Option DraftAccount → Option String
user_of none = none
user_of (some a) = some a.user_id

abbrev pub owner_of : List DraftAccount → Option DraftReadModel → Option String
owner_of accounts none = none
owner_of accounts (some d) = user_of (find_where (λ a. str_eq a.id d.account_id) accounts)

abbrev pub is_foreign : String → Option String → Bool
is_foreign user none = false
is_foreign user (some owner) = not (str_eq owner user)

-- ON CONFLICT(id) DO UPDATE: the row keeps its time of creation.
abbrev pub replace_draft : DraftReadModel → DraftReadModel → DraftReadModel
replace_draft new d = record new { id = d.id; created_at = d.created_at }

abbrev pub write_draft : DraftReadModel → List DraftReadModel → List DraftReadModel
write_draft new drafts =
    if exists_where (is_draft new.id) drafts
    then update_where (is_draft new.id) (replace_draft new) drafts
    else drafts ++ new ∷ []

unfoldable pub upsert_draft :
    String → DraftReadModel → DraftStore → Result DraftStoreError DraftStore
unfolding has_account
upsert_draft user draft s = do
  fail_if (not (has_account user draft.account_id s)) account_not_owned
  fail_if (is_foreign user (owner_of s.accounts (find_where (is_draft draft.id) s.drafts)))
      content_ownership_violation
  ok (record s { drafts = write_draft draft s.drafts })

abbrev pub is_draft_of : String → String → List DraftAccount → DraftReadModel → Bool
is_draft_of user id accounts d =
    is_draft id d && exists_where (is_account_of user d.account_id) accounts

unfoldable pub remove_draft : String → String → DraftStore → Bool × DraftStore
remove_draft user id s = (
  count_where (is_draft_of user id s.accounts) s.drafts == 1,
  record s { drafts = delete_where (is_draft_of user id s.accounts) s.drafts },
)
