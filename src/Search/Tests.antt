-- ===== src/Search/Tests.antt =====
-- A concrete saved search.
use i_mail.Base.{ℕ, ◌≡◌, refl, false, Option, none, some, [], ◌∷◌, length}
use i_mail.Base.Texts.{Text, codes, is_blank, is_whitespace, is_control}
use i_mail.Rules.Validation.{valid_text}
use i_mail.Search.Filters.{SearchFilters, validate_filters, ok}
use i_mail.Search.Conditions.{HasTexts, HasLists, Given, IsAddress, IsRole}
use i_mail.Search.Valid.{IsInstant, IsBefore, validate_filters-ok}

-- The instant of a text, for the tests its length.
abbrev instant : Text → Option ℕ
instant t = some (length t)

abbrev filters : SearchFilters
filters = record {
  account_ids = codes "a" ∷ [];
  group = none;
  q = some (codes "invoice");
  subject = none;
  body = none;
  sender = some (codes "ann@x.org");
  recipient = none;
  since = some (codes "1");
  before = some (codes "12");
  unread = some false;
  flagged = none;
  has_attachments = none;
  labels = [];
  mailbox_role = some (codes "inbox");
  mailbox = none;
  mailbox_name = none;
  snoozed = none;
}

filters-valid : validate_filters instant filters ≡ ok tt
unfolding validate_filters valid_text is_blank is_whitespace is_control
filters-valid = refl

validate_filters-ok_example :
    HasTexts filters
    × HasLists filters
    × (Given IsAddress filters.sender × Given IsAddress filters.recipient)
    × Given IsRole filters.mailbox_role
    × ((a : Option ℕ) × (b : Option ℕ) × IsInstant instant filters.since a
        × IsInstant instant filters.before b
        × IsBefore instant a b)
validate_filters-ok_example = validate_filters-ok instant filters filters-valid
