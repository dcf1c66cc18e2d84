-- ===== src/Composition/Tests.antt =====
-- Identifiers and preferences on concrete texts.
use i_mail.Base.{true, false, none, some, [], ◌∷◌, all, ◌≡◌, refl, All}
use i_mail.Base.Texts.{codes, is_whitespace, push_end, is_blank, is_control}
use i_mail.Base.Unique.{IsUnique}
use i_mail.Composition.Identifiers.{normalize_message_id, is_graphic}
use i_mail.Composition.Preferences.{
  AccountSignature, ComposeTemplate, CompositionPreferences, is_valid_preferences, valid_key,
  is_good_signature, is_good_template,
}
use i_mail.Composition.Canonical.{normalize_message_id-canonical}
use i_mail.Composition.Uniqueness.{same_key, is_valid_preferences-IsUnique}

bare_id : normalize_message_id (codes " a@x.org ") ≡ some (codes "<a@x.org>")
unfolding normalize_message_id is_whitespace push_end
bare_id = refl

half_id : normalize_message_id (codes "<a@x.org") ≡ none
unfolding normalize_message_id is_whitespace push_end
half_id = refl

abbrev preferences : CompositionPreferences
preferences = record {
  signatures =
      record { account_id = codes "a"; text = codes "Ann"; new_messages = true; replies = false }
      ∷ record { account_id = codes "b"; text = codes "Bob"; new_messages = true; replies = true }
      ∷ [];
  templates =
      record { id = codes "t"; name = codes "T"; subject = codes "S"; text = codes "x" } ∷ [];
}

preferences-valid : is_valid_preferences preferences ≡ true
unfolding is_valid_preferences valid_key is_blank is_whitespace is_control
preferences-valid = refl

normalize_message_id-canonical_example :
    (normalize_message_id (codes "<a@x.org>") ≡ some (codes "<a@x.org>"))
    × (all is_graphic (codes "<a@x.org>") ≡ true)
normalize_message_id-canonical_example =
    normalize_message_id-canonical (codes " a@x.org ") (codes "<a@x.org>") bare_id

is_valid_preferences-IsUnique_example :
    (IsUnique (same_key AccountSignature.account_id) preferences.signatures
      × All (λ v. is_good_signature v ≡ true) preferences.signatures)
    × (IsUnique (same_key ComposeTemplate.id) preferences.templates
        × All (λ v. is_good_template v ≡ true) preferences.templates)
is_valid_preferences-IsUnique_example = is_valid_preferences-IsUnique preferences preferences-valid
