-- ===== src/Drafts/Service.antt =====
-- `DraftService` of crates/imail-core/src/drafts.rs over the SQLite repository.
use i_mail.Base.{String, Bool, not, Option, none, some}
use i_mail.Base.Table.{find_where}
use i_mail.Base.Json.{Value}
use i_mail.Base.Result.{Result, ok, err, ◌>>=◌, ◌>>◌, fail_if}
use i_mail.Composition.Identifiers.{ComposeEnvelope, is_valid_envelope}
use i_mail.Drafts.Repository.{
  DraftReadModel, DraftStore, DraftStoreError, list_drafts, has_account, upsert_draft, remove_draft,
  is_draft,
}

pub record DraftInput : Type 0 where
  pub envelope : ComposeEnvelope
  pub account_id : String
  pub to : Value
  pub cc : Value
  pub subject : String
  pub text : String
  pub html : String
  pub attachments : Value

pub data DraftError : Type 0 where
  repository : DraftStoreError → DraftError
  draft_not_found draft_invalid account_not_found : DraftError

-- `.map_err(ApplicationError::Repository)`
abbrev pub from_repository : {A : Type 0} → Result DraftStoreError A → Result DraftError A
from_repository (ok a) = ok a
from_repository (err e) = err (repository e)

abbrev pub model : String → String → String → DraftInput → DraftReadModel
model id created_at updated_at input = record {
  envelope = input.envelope;
  id = id;
  account_id = input.account_id;
  to = input.to;
  cc = input.cc;
  subject = input.subject;
  text = input.text;
  html = input.html;
  attachments = input.attachments;
  created_at = created_at;
  updated_at = updated_at;
}

abbrev pub created_or : String → Option DraftReadModel → String
created_or now none = now
created_or now (some d) = d.created_at

abbrev pub found_draft : Option DraftReadModel → Result DraftError DraftReadModel
found_draft none = err draft_not_found
found_draft (some d) = ok d

unfoldable pub get_draft : String → String → DraftStore → Result DraftError DraftReadModel
get_draft user id s = found_draft (find_where (is_draft id) (list_drafts user s))

unfoldable pub require_account : String → String → DraftStore → Result DraftError (Unit {0})
require_account user account s = fail_if (not (has_account user account s)) account_not_found

-- The end of `create` and of `save_existing`.
abbrev pub store_draft :
    String → DraftReadModel → DraftStore → Result DraftError (DraftReadModel × DraftStore)
store_draft user draft s = do s' ← from_repository (upsert_draft user draft s); ok (draft, s')

unfoldable pub create_draft :
    String
    → String
    → String
    → DraftInput
    → DraftStore
    → Result DraftError (DraftReadModel × DraftStore)
unfolding require_account
create_draft user id now input s = do
  fail_if (not (is_valid_envelope input.envelope)) draft_invalid
  require_account user input.account_id s
  store_draft user
      (model id (created_or now (find_where (is_draft id) (list_drafts user s))) now input) s

unfoldable pub save_existing :
    String
    → String
    → String
    → DraftInput
    → DraftStore
    → Result DraftError (DraftReadModel × DraftStore)
unfolding require_account get_draft
save_existing user id now input s = do
  fail_if (not (is_valid_envelope input.envelope)) draft_invalid
  require_account user input.account_id s
  existing ← get_draft user id s
  store_draft user (model id existing.created_at now input) s

unfoldable pub delete_draft : String → String → DraftStore → Bool × DraftStore
delete_draft user id s = remove_draft user id s
