-- ===== src/Drafts/Found.antt =====
-- What `get` of crates/imail-core/src/drafts.rs finds, before and after a row is written.
use i_mail.Base.{
  String, Bool, true, false, not, ◌⊎◌, Option, none, some, List, [], ◌∷◌, ◌≡◌, ◌≢◌, refl, sym, ap,
  subst, inl, inr, Bool-cases, &&-eq-true, contradict, All, All-map, Any, here, there, str_eq,
  str_eq_sound, eq_refl,
}
use i_mail.Base.Table.{
  find_where, find_where-All, select_where, select_where-All, select_where-Any, update_where,
  exists_where, Any-exists_where, All-update_map,
}
use i_mail.Base.Sorting.{sort_by, sort_by-All, sort_by-Any}
use i_mail.Base.Unique.{IsUnique, All-only, Any-update, Any-unchanged, Any-map}
use i_mail.Base.Result.{Result, ok, err, guard-ok, ok_injective}
use i_mail.Drafts.Repository.{
  DraftReadModel, DraftStore, DraftStoreError, list_drafts, has_account, upsert_draft, is_draft,
  is_visible, draft_before, replace_draft, write_draft, is_foreign, is_account_of, holds_draft,
  account_not_owned, content_ownership_violation,
}
use i_mail.Drafts.Service.{DraftInput, from_repository, found_draft, get_draft, model}

-- The primary key of the table.
abbrev pub same_draft : DraftReadModel → DraftReadModel → Bool
same_draft a b = str_eq a.id b.id

pub unnegate : (b : Bool) → not b ≡ false → b ≡ true
unnegate true h = refl
unnegate false h = cc

members : {A : Type 0} (xs : List A) → All (λ x. Any (λ y. y ≡ x) xs) xs
members [] = tt
members (x ∷ xs) = (here refl, All-map _ _ (λ y m. there m) xs (members xs))

-- Where every row that the test passes is `d`.
find_where-same :
    (p : DraftReadModel → Bool) (d : DraftReadModel) (xs : List DraftReadModel)
    → p d ≡ true
    → All (λ y. p y ≡ true → y ≡ d) xs
    → Any (λ y. y ≡ d) xs
    → find_where p xs ≡ some d
find_where-same p d [] t h m = elim m [ ]
find_where-same p d (x ∷ xs) t h (here e) = rw (subst (λ v. p v ≡ true) (sym e) t) (ap some e)
find_where-same p d (x ∷ xs) t h (there m) = elim (Bool-cases (p x)) [
  | inl e ↦ rw e (ap some (h.0 e))
  | inr e ↦ rw e (find_where-same p d xs t h.1 m)
]

found_draft-ok :
    (o : Option DraftReadModel) (d : DraftReadModel) → found_draft o ≡ ok d → o ≡ some d
found_draft-ok none d h = cc
found_draft-ok (some e) d h = ap some (ok_injective e d h)

pub from_repository-ok :
    (m : Result DraftStoreError DraftStore) (s : DraftStore) → from_repository m ≡ ok s → m ≡ ok s
from_repository-ok (ok a) s h = ap ok (ok_injective a s h)
from_repository-ok (err e) s h = cc

-- A draft that `get` finds is a row that the user sees.
pub record IsFound (user id : String) (s : DraftStore) (d : DraftReadModel) : Type 0 where
  listed : Any (λ y. y ≡ d) s.drafts
  visible : is_visible user s d ≡ true
  named : d.id ≡ id

pub get_draft-IsFound :
    (user id : String) (s : DraftStore) (d : DraftReadModel)
    → get_draft user id s ≡ ok d
    → IsFound user id s d
unfolding get_draft list_drafts
get_draft-IsFound user id s d h =
    let Seen = λ (x : DraftReadModel). Any (λ y. y ≡ x) s.drafts × (is_visible user s x ≡ true) in
    let rows = select_where (is_visible user s) s.drafts in
    let all = sort_by-All draft_before Seen rows (
      select_where-All (λ x. Any (λ y. y ≡ x) s.drafts) (is_visible user s) s.drafts
        (members s.drafts)) in
    let f = found_draft-ok (find_where (is_draft id) (sort_by draft_before rows)) d h in
    let (seen, t) = find_where-All Seen (is_draft id) (sort_by draft_before rows) all f in
    record { listed = seen.0; visible = seen.1; named = str_eq_sound d.id id t }

-- A row that the user sees and that alone has the identifier is what `get` finds.
pub visible-get_draft :
    (user id : String) (s : DraftStore) (d : DraftReadModel)
    → d.id ≡ id
    → is_visible user s d ≡ true
    → Any (λ y. y ≡ d) s.drafts
    → All (λ y. is_draft id y ≡ true → y ≡ d) s.drafts
    → get_draft user id s ≡ ok d
unfolding get_draft list_drafts
visible-get_draft user id s d n v m h =
    let rows = select_where (is_visible user s) s.drafts in
    let only =
      sort_by-All draft_before (λ y. is_draft id y ≡ true → y ≡ d) rows
        (All-map _ _ (λ y k. k.0) rows
          (select_where-All (λ y. is_draft id y ≡ true → y ≡ d) (is_visible user s) s.drafts h)) in
    let listed =
      sort_by-Any draft_before (λ y. y ≡ d) rows
        (select_where-Any (is_visible user s) d s.drafts v m) in
    rw
      (find_where-same (is_draft id) d (sort_by draft_before rows)
        (subst (λ v. str_eq d.id v ≡ true) n (eq_refl d.id)) only listed)
      refl

-- What an upsert that returns has written.
pub upsert_draft-ok :
    (user : String) (d : DraftReadModel) (s s' : DraftStore)
    → upsert_draft user d s ≡ ok s'
    → (has_account user d.account_id s ≡ true) × (record s { drafts = write_draft d s.drafts } ≡ s')
unfolding upsert_draft
upsert_draft-ok user d s s' h =
    let (a, k) = guard-ok (not (has_account user d.account_id s)) account_not_owned _ s' h in
    let (b, l) = guard-ok (is_foreign user _) content_ownership_violation _ s' k in
    (unnegate (has_account user d.account_id s) a, ok_injective _ s' l)

-- What is saved over the draft `old`.
module _ (user id now : String) (input : DraftInput) (s : DraftStore) (old : DraftReadModel)
    (unique : IsUnique same_draft s.drafts) (found : IsFound user id s old) where
  abbrev pub written : DraftReadModel
  written = model id old.created_at now input

  old-is_draft : is_draft id old ≡ true
  old-is_draft = subst (λ v. str_eq old.id v ≡ true) found.named (eq_refl old.id)

  rewritten : replace_draft written old ≡ written
  rewritten = ap (λ (v : String). record written { id = v }) found.named

  pub write_draft-update :
      write_draft written s.drafts ≡ update_where (is_draft id) (replace_draft written) s.drafts
  write_draft-update =
      rw
        (Any-exists_where (is_draft id) s.drafts (
          Any-map (λ y. y ≡ old) (λ y. is_draft id y ≡ true)
            (λ y e. subst (λ v. is_draft id v ≡ true) (sym e) old-is_draft) s.drafts found.listed))
        refl

  only_old : All (λ y. is_draft id y ≡ true → y ≡ old) s.drafts
  only_old =
      All-only same_draft (is_draft id) old s.drafts
        (λ y t.
          let e = str_eq_sound y.id id t in
          (
            subst (λ v. str_eq old.id v ≡ true) (sym e) old-is_draft,
            subst (λ v. str_eq y.id v ≡ true) (sym found.named) t,
          ))
        unique found.listed

  pub only_written :
      All
        (λ y. is_draft id y ≡ true → y ≡ written)
        (update_where (is_draft id) (replace_draft written) s.drafts)
  only_written =
      All-update_map (λ y. is_draft id y ≡ true → y ≡ old) (λ y. is_draft id y ≡ true → y ≡ written)
        (is_draft id) (replace_draft written)
        (λ y t k i. subst (λ v. replace_draft written v ≡ written) (sym (k t)) rewritten)
        (λ y f k i. contradict (is_draft id y) i f) s.drafts only_old

  pub listed_written :
      Any (λ y. y ≡ written) (update_where (is_draft id) (replace_draft written) s.drafts)
  listed_written =
      subst (λ v. Any (λ y. y ≡ v) (update_where (is_draft id) (replace_draft written) s.drafts))
        rewritten
        (Any-update (is_draft id) (replace_draft written) old s.drafts old-is_draft found.listed)

  pub visible_written :
      has_account user input.account_id s ≡ true → is_visible user s written ≡ true
  unfolding has_account
  visible_written a =
      let free =
        (&&-eq-true (exists_where (is_account_of user old.account_id) s.accounts) _
          found.visible).1 in
      rw
        (
          a,
          subst (λ v. not (exists_where (holds_draft user v) s.deliveries) ≡ true) found.named free,
        )
        refl

  pub other-kept :
      (d : DraftReadModel)
      → Any (λ y. y ≡ d) s.drafts
      → d.id ≢ id
      → Any (λ y. y ≡ d) (update_where (is_draft id) (replace_draft written) s.drafts)
  other-kept d m n =
      Any-unchanged (is_draft id) (replace_draft written) d s.drafts
        (differs (Bool-cases (is_draft id d))) m
    where
      differs : (is_draft id d ≡ true) ⊎ (is_draft id d ≡ false) → is_draft id d ≡ false
      differs (inl e) = absurd (n (str_eq_sound d.id id e))
      differs (inr e) = e
