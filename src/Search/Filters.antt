-- ===== src/Search/Filters.antt =====
-- `SearchFilters` and `SmartFolderInput` of crates/imail-core/src/search.rs. Texts are lists of code
-- points.
use i_mail.Base.{
  ℕ, Bool, true, false, not, ◌||◌, Option, none, some, List, any, length, ltb, leb, ◌==◌,
}
use i_mail.Base.Texts.{Text, is_whitespace}
use i_mail.Rules.Validation.{valid_text, is_role}

pub record SearchFilters : Type 0 where
  pub account_ids : List Text
  pub group : Option Text
  pub q : Option Text
  pub subject : Option Text
  pub body : Option Text
  pub sender : Option Text
  pub recipient : Option Text
  pub since : Option Text
  pub before : Option Text
  pub unread : Option Bool
  pub flagged : Option Bool
  pub has_attachments : Option Bool
  pub labels : List Text
  pub mailbox_role : Option Text
  pub mailbox : Option Text
  pub mailbox_name : Option Text
  pub snoozed : Option Bool

pub data SearchError : Type 0 where
  invalid_text invalid_accounts invalid_address invalid_role : SearchError
  invalid_since invalid_before invalid_interval invalid_name : SearchError

pub data Checked (A : Type 0) : Type 0 where
  ok : A → Checked A
  err : SearchError → Checked A

infixl 5 ◌>>=◌ ◌>>◌
abbrev pub ◌>>=◌ : {A B : Type 0} → Checked A → (A → Checked B) → Checked B
ok a >>= f = f a
err e >>= f = err e

abbrev pub ◌>>◌ : {B : Type 0} → Checked (Unit {0}) → Checked B → Checked B
m >> k = m >>= λ _. k

-- An early return of the error where the test passes.
abbrev pub fail_if : Bool → SearchError → Checked (Unit {0})
fail_if true e = err e
fail_if false e = ok tt

abbrev pub is_bad_text : Option Text → ℕ → Bool
is_bad_text none max = false
is_bad_text (some v) max = not (valid_text v max)

-- The loop over the text conditions with their limits.
abbrev pub has_bad_text : SearchFilters → Bool
has_bad_text f =
    is_bad_text f.group 200
    || is_bad_text f.q 200
    || is_bad_text f.subject 200
    || is_bad_text f.body 200
    || is_bad_text f.sender 320
    || is_bad_text f.recipient 320
    || is_bad_text f.mailbox 500
    || is_bad_text f.mailbox_name 500

abbrev pub has_bad_list : SearchFilters → Bool
has_bad_list f =
    ltb 100 (length f.account_ids)
    || any (λ v. not (valid_text v 200)) f.account_ids
    || ltb 30 (length f.labels)
    || any (λ v. not (valid_text v 80)) f.labels

abbrev pub is_bad_address : Option Text → Bool
is_bad_address none = false
is_bad_address (some a) = not (any (λ c. c == 64) a) || any is_whitespace a

abbrev pub is_bad_role : Option Text → Bool
is_bad_role none = false
is_bad_role (some role) = not (is_role role)

abbrev pub is_bad_interval : Option ℕ → Option ℕ → Bool
is_bad_interval (some start) (some end_) = leb end_ start
is_bad_interval _ _ = false

-- `parse_rfc3339` is chrono's, as the instant in a fixed unit.
module _ (parse_rfc3339 : Text → Option ℕ) where
  abbrev pub parse_found : Option ℕ → SearchError → Checked (Option ℕ)
  parse_found none e = err e
  parse_found (some t) e = ok (some t)

  abbrev pub parse : Option Text → SearchError → Checked (Option ℕ)
  parse none e = ok none
  parse (some v) e = parse_found (parse_rfc3339 v) e

  unfoldable pub validate_filters : SearchFilters → Checked (Unit {0})
  validate_filters f = do
    fail_if (has_bad_text f) invalid_text
    fail_if (has_bad_list f) invalid_accounts
    fail_if (is_bad_address f.sender || is_bad_address f.recipient) invalid_address
    fail_if (is_bad_role f.mailbox_role) invalid_role
    since ← parse f.since invalid_since
    before ← parse f.before invalid_before
    fail_if (is_bad_interval since before) invalid_interval

  unfoldable pub validate_folder : Text → SearchFilters → Checked (Unit {0})
  unfolding validate_filters
  validate_folder name filters = do
    fail_if (not (valid_text name 80)) invalid_name
    validate_filters filters
