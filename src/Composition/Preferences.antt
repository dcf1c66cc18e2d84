-- ===== src/Composition/Preferences.antt =====
-- `CompositionPreferences` of crates/imail-protocol/src/composition.rs.
use i_mail.Base.{ℕ, Bool, true, not, ◌&&◌, ◌||◌, List, [], ◌∷◌, any, length, leb, ◌==◌}
use i_mail.Base.Texts.{Text, is_blank, is_control, byte_len, text_eq}
use i_mail.Rules.Validation.{is_empty}

pub record AccountSignature : Type 0 where
  pub account_id : Text
  pub text : Text
  pub new_messages : Bool
  pub replies : Bool

pub record ComposeTemplate : Type 0 where
  pub id : Text
  pub name : Text
  pub subject : Text
  pub text : Text

pub record CompositionPreferences : Type 0 where
  pub signatures : List AccountSignature
  pub templates : List ComposeTemplate

unfoldable pub is_empty_preferences : CompositionPreferences → Bool
is_empty_preferences p = is_empty p.signatures && is_empty p.templates

unfoldable pub valid_key : Text → Bool
valid_key v = not (is_blank v) && leb (byte_len v) 200 && not (any is_control v)

-- Each value is valid and its key is inserted into the set of the keys before it, as a new one.
abbrev pub all_new : {A : Type 0} → (A → Text) → (A → Bool) → List Text → List A → Bool
all_new key is_good seen [] = true
all_new key is_good seen (v ∷ vs) =
    is_good v && not (any (text_eq (key v)) seen) && all_new key is_good (key v ∷ seen) vs

abbrev pub is_good_signature : AccountSignature → Bool
is_good_signature v = valid_key v.account_id && leb (byte_len v.text) 16_000

abbrev pub is_line_break : ℕ → Bool
is_line_break c = c == 13 || c == 10

abbrev pub is_good_template : ComposeTemplate → Bool
is_good_template v =
    valid_key v.id
    && not (is_blank v.name)
    && leb (byte_len v.name) 200
    && leb (byte_len v.subject) 1_000
    && not (any is_line_break v.subject)
    && leb (byte_len v.text) 64_000

unfoldable pub is_valid_preferences : CompositionPreferences → Bool
is_valid_preferences p =
    leb (length p.signatures) 100
    && leb (length p.templates) 100
    && all_new AccountSignature.account_id is_good_signature [] p.signatures
    && all_new ComposeTemplate.id is_good_template [] p.templates
