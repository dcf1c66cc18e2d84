-- ===== src/Drafts/Tests.antt =====
-- Drafts in a small store.
use i_mail.Base.{true, some, [], ◌∷◌, ◌≡◌, refl}
use i_mail.Base.Json.{null}
use i_mail.Base.Result.{ok, err}
use i_mail.Composition.Identifiers.{is_valid_envelope, is_valid_reply}
use i_mail.Outbox.Types.{scheduled}
use i_mail.Drafts.Repository.{DraftReadModel, DraftStore, list_drafts, has_account, upsert_draft}
use i_mail.Drafts.Service.{
  DraftInput, model, save_existing, get_draft, require_account, draft_not_found,
}
use i_mail.Drafts.Saving.{IsSaved, save_existing-get}

abbrev input : DraftInput
input = record {
  envelope = record { bcc = []; reply = record { in_reply_to = []; references = [] } };
  account_id = "a";
  to = null;
  cc = null;
  subject = "S";
  text = "t";
  html = "";
  attachments = null;
}

abbrev old : DraftReadModel
old = model "d" "2025" "2025" input

abbrev changed : DraftInput
changed = record input { text = "new" }

-- Two drafts, and the second is on its way.
abbrev store : DraftStore
store = record {
  accounts = record { id = "a"; user_id = "u" } ∷ [];
  drafts = old ∷ model "e" "2024" "2024" input ∷ [];
  deliveries = record { user_id = "u"; draft_id = some "e"; status = scheduled } ∷ [];
}

abbrev saved_store : DraftStore
saved_store = record store {
  drafts = model "d" "2025" "2026" changed ∷ model "e" "2024" "2024" input ∷ [];
}

-- The draft of an item that waits in the outbox is not to be edited.
hidden_draft : get_draft "u" "e" store ≡ err draft_not_found
unfolding get_draft list_drafts
hidden_draft = refl

saved :
    save_existing "u" "d" "2026" changed store ≡ ok (model "d" "2025" "2026" changed, saved_store)
unfolding save_existing require_account get_draft list_drafts has_account upsert_draft
    is_valid_envelope is_valid_reply
saved = refl

save_existing-get_example :
    (is_valid_envelope changed.envelope ≡ true)
    × IsSaved "u" "d" "2026" changed store (model "d" "2025" "2026" changed, saved_store)
save_existing-get_example =
    save_existing-get "u" "d" "2026" changed store (model "d" "2025" "2026" changed, saved_store)
      ((refl, tt), (tt, tt)) saved
