-- ===== src/Drafts/Saving.antt =====
-- What `save_existing` of crates/imail-core/src/drafts.rs leaves in the table of drafts.
use i_mail.Base.{String, true, not, ◌≡◌, ◌≢◌, refl, subst, Any}
use i_mail.Base.Table.{update_where}
use i_mail.Base.Unique.{IsUnique}
use i_mail.Base.Result.{ok, bind-ok, guard-ok, ok_injective}
use i_mail.Composition.Identifiers.{is_valid_envelope}
use i_mail.Drafts.Repository.{
  DraftReadModel, DraftStore, has_account, upsert_draft, is_draft, replace_draft, write_draft,
}
use i_mail.Drafts.Service.{
  DraftInput, from_repository, get_draft, model, require_account, save_existing, draft_invalid,
}
use i_mail.Drafts.Found.{
  same_draft, unnegate, from_repository-ok, get_draft-IsFound, visible-get_draft, upsert_draft-ok,
  written, write_draft-update, only_written, listed_written, visible_written, other-kept,
}

-- The saved draft is what `get` returns, it is the input under the identifier with the creation time
-- of the draft before and the time of the call, and other drafts are as they were.
pub record IsSaved (user id now : String) (input : DraftInput) (s : DraftStore)
    (r : DraftReadModel × DraftStore) : Type 0 where
  pub old : DraftReadModel
  pub was : get_draft user id s ≡ ok old
  pub answer : r.0 ≡ model id old.created_at now input
  pub is : get_draft user id r.1 ≡ ok r.0
  pub others :
      (d : DraftReadModel) → Any (λ y. y ≡ d) s.drafts → d.id ≢ id → Any (λ y. y ≡ d) r.1.drafts

write-IsSaved :
    (user id now : String) (input : DraftInput) (s : DraftStore) (old : DraftReadModel)
    → IsUnique same_draft s.drafts
    → get_draft user id s ≡ ok old
    → has_account user input.account_id s ≡ true
    → IsSaved user id now input s (
      model id old.created_at now input,
      record s { drafts = write_draft (model id old.created_at now input) s.drafts },
    )
write-IsSaved user id now input s old u g a =
    let found = get_draft-IsFound user id s old g in
    let d = written user id now input s old u found in
    let e = write_draft-update user id now input s old u found in
    record {
      old = old;
      was = g;
      answer = refl;
      is = rw e (
          visible-get_draft user id
            (record s { drafts = update_where (is_draft id) (replace_draft d) s.drafts }) d refl
            (visible_written user id now input s old u found a)
            (listed_written user id now input s old u found)
            (only_written user id now input s old u found));
      others = rw e (other-kept user id now input s old u found);
    }

-- In a table of drafts with unique identifiers, a save that returns had a valid envelope, and a draft
-- of that identifier that the user saw: of an account of the user and not on its way in the outbox.
-- The answer is the input under the identifier, with the creation time of that draft and the time of
-- the call; it is what `get` returns from then on; and the other drafts are as they were.
pub save_existing-get :
    (user id now : String) (input : DraftInput) (s : DraftStore) (r : DraftReadModel × DraftStore)
    → IsUnique same_draft s.drafts
    → save_existing user id now input s ≡ ok r
    → (is_valid_envelope input.envelope ≡ true) × IsSaved user id now input s r
unfolding save_existing require_account
save_existing-get user id now input s r u h =
    let (a, h1) = guard-ok (not (is_valid_envelope input.envelope)) draft_invalid _ r h in
    let (b, q, h2) = bind-ok (require_account user input.account_id s) _ r h1 in
    let (old, g, h3) = bind-ok (get_draft user id s) _ r h2 in
    let d = model id old.created_at now input in
    let (s', k, l) = bind-ok (from_repository (upsert_draft user d s)) (λ v. ok (d, v)) r h3 in
    let (c, w) = upsert_draft-ok user d s s' (from_repository-ok (upsert_draft user d s) s' k) in
    (
      unnegate (is_valid_envelope input.envelope) a,
      subst (IsSaved user id now input s) (ok_injective (d, s') r l) (
          subst (λ v. IsSaved user id now input s (d, v)) w
            (write-IsSaved user id now input s old u g c)),
    )
