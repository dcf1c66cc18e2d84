-- ===== src/Composition/Uniqueness.antt =====
-- The accounts and identifiers in `CompositionPreferences` of crates/imail-protocol/src/composition.rs.
use i_mail.Base.{leb, length, Bool, true, false, ◌&&◌, List, [], ◌∷◌, any, All, All-map, ◌≡◌, arith}
use i_mail.Base.Texts.{Text, text_eq}
use i_mail.Base.Unique.{IsUnique}
use i_mail.Composition.Preferences.{
  AccountSignature, ComposeTemplate, CompositionPreferences, all_new, is_good_signature,
  is_good_template, is_valid_preferences,
}

abbrev pub same_key : {A : Type 0} → (A → Text) → A → A → Bool
same_key key x y = text_eq (key y) (key x)

module _ {A : Type 0} (key : A → Text) (is_good : A → Bool) where
  all_new-parts :
      (seen : List Text) (v : A) (vs : List A)
      → all_new key is_good seen (v ∷ vs) ≡ true
      → (is_good v ≡ true)
        × (any (text_eq (key v)) seen ≡ false)
        × (all_new key is_good (key v ∷ seen) vs ≡ true)
  all_new-parts seen v vs h = (ground (arith, h), ground (arith, h), ground (arith, h))

  all_new-All :
      (seen : List Text) (vs : List A)
      → all_new key is_good seen vs ≡ true
      → All (λ v. any (text_eq (key v)) seen ≡ false) vs
  all_new-All seen [] h = tt
  all_new-All seen (v ∷ vs) h =
      let p = all_new-parts seen v vs h in
      (
        p.1,
        All-map (λ w. any (text_eq (key w)) (key v ∷ seen) ≡ false)
            (λ w. any (text_eq (key w)) seen ≡ false) (λ w k. ground (arith, k)) vs
            (all_new-All (key v ∷ seen) vs p.2),
      )

  all_new-IsUnique :
      (seen : List Text) (vs : List A)
      → all_new key is_good seen vs ≡ true
      → IsUnique (same_key key) vs × All (λ v. is_good v ≡ true) vs
  all_new-IsUnique seen [] h = (tt, tt)
  all_new-IsUnique seen (v ∷ vs) h =
      let p = all_new-parts seen v vs h in
      let rest = all_new-IsUnique (key v ∷ seen) vs p.2 in
      (
        (
          All-map (λ w. any (text_eq (key w)) (key v ∷ seen) ≡ false)
              (λ w. same_key key v w ≡ false) (λ w k. ground (arith, k)) vs
              (all_new-All (key v ∷ seen) vs p.2),
          rest.0,
        ),
        (p.0, rest.1),
      )

last_two : (a b c d : Bool) → (a && b && c && d) ≡ true → (c ≡ true) × (d ≡ true)
last_two a b c d h = (ground (arith, h), ground (arith, h))

-- In valid preferences no two signatures are for the same account, no two templates have the same
-- identifier, and each signature and each template is valid by itself.
pub is_valid_preferences-IsUnique :
    (p : CompositionPreferences)
    → is_valid_preferences p ≡ true
    → (IsUnique (same_key AccountSignature.account_id) p.signatures
        × All (λ v. is_good_signature v ≡ true) p.signatures)
      × (IsUnique (same_key ComposeTemplate.id) p.templates
          × All (λ v. is_good_template v ≡ true) p.templates)
unfolding is_valid_preferences
is_valid_preferences-IsUnique p h =
    let b =
      last_two (leb (length p.signatures) 100) (leb (length p.templates) 100)
        (all_new AccountSignature.account_id is_good_signature [] p.signatures)
        (all_new ComposeTemplate.id is_good_template [] p.templates) h in
    (
      all_new-IsUnique AccountSignature.account_id is_good_signature [] p.signatures b.0,
      all_new-IsUnique ComposeTemplate.id is_good_template [] p.templates b.1,
    )
