-- ===== src/Composition/Identifiers.antt =====
-- `normalize_message_id`, `ReplyHeaders` and `ComposeEnvelope` of
-- crates/imail-protocol/src/composition.rs. Texts are lists of code points.
use i_mail.Base.{
  ℕ, Bool, not, ◌&&◌, ◌||◌, Option, none, some, List, [], ◌∷◌, ◌++◌, all, length, leb, ◌==◌,
  is_some, if◌then◌else◌,
}
use i_mail.Base.Texts.{Text, trim, byte_len, rsplit_once, starts_with, ends_with}
use i_mail.Rules.Validation.{is_address_part, valid_mail_address}

abbrev pub strip_prefix : ℕ → Text → Option Text
strip_prefix d [] = none
strip_prefix d (c ∷ s) = if c == d then some s else none

abbrev pub before_text : ℕ → Option Text → Option Text
before_text c none = none
before_text c (some s) = some (c ∷ s)

abbrev pub strip_suffix : ℕ → Text → Option Text
strip_suffix d [] = none
strip_suffix d (c ∷ []) = if c == d then some [] else none
strip_suffix d (c ∷ e ∷ s) = before_text c (strip_suffix d (e ∷ s))

abbrev pub strip_brackets : Option Text → Option Text
strip_brackets none = none
strip_brackets (some s) = strip_suffix 62 s

-- `is_ascii_graphic`
abbrev pub is_graphic : ℕ → Bool
is_graphic c = leb 33 c && leb c 126

-- Not one of '<', '>', '"' and '\'.
abbrev pub is_id_char : ℕ → Bool
is_id_char c = is_graphic c && not (c == 60 || c == 62 || c == 34 || c == 92)

abbrev pub is_id : Text → Bool
is_id id = is_address_part (rsplit_once 64 id) && leb (byte_len id) 996 && all is_id_char id

abbrev pub bracket : Text → Text
bracket id = 60 ∷ id ++ 62 ∷ []

-- What stands between the brackets, if there is one of them.
abbrev pub inner_id : Text → Option Text
inner_id value =
    if starts_with 60 value || ends_with 62 value
    then strip_brackets (strip_prefix 60 value)
    else some value

abbrev pub checked_id : Option Text → Option Text
checked_id none = none
checked_id (some id) = if is_id id then some (bracket id) else none

unfoldable pub normalize_message_id : Text → Option Text
normalize_message_id value = checked_id (inner_id (trim value))

pub record ReplyHeaders : Type 0 where
  pub in_reply_to : List Text
  pub references : List Text

abbrev pub are_valid_ids : List Text → Bool
are_valid_ids ids = leb (length ids) 100 && all (λ id. is_some (normalize_message_id id)) ids

unfoldable pub is_valid_reply : ReplyHeaders → Bool
is_valid_reply r = are_valid_ids r.in_reply_to && are_valid_ids r.references

pub record ComposeEnvelope : Type 0 where
  pub bcc : List Text
  pub reply : ReplyHeaders

unfoldable pub is_valid_envelope : ComposeEnvelope → Bool
is_valid_envelope e =
    leb (length e.bcc) 100 && all valid_mail_address e.bcc && is_valid_reply e.reply
