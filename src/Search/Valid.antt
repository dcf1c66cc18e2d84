-- ===== src/Search/Valid.antt =====
-- What a valid search guarantees to the query that is built of it.
use i_mail.Base.{ℕ, ◌<◌, Bool, true, false, ◌||◌, Option, none, some, ◌≡◌, refl, arith}
use i_mail.Base.Texts.{Text}
use i_mail.Search.Filters.{
  SearchFilters, SearchError, Checked, ok, ◌>>=◌, ◌>>◌, fail_if, has_bad_text, has_bad_list,
  is_bad_address, is_bad_role, is_bad_interval, parse, parse_found, validate_filters, invalid_text,
  invalid_accounts, invalid_address, invalid_role, invalid_since, invalid_before, invalid_interval,
}
use i_mail.Search.Conditions.{
  HasTexts, HasLists, Given, IsAddress, IsRole, good_texts, good_lists, good_addresses,
  is_bad_role-Given,
}

guard :
    (b : Bool) (e : SearchError) (m : Checked (Unit {0}))
    → (fail_if b e >> m) ≡ ok tt
    → (b ≡ false) × (m ≡ ok tt)
guard true e m h = cc
guard false e m h = (refl, h)

last_guard : (b : Bool) (e : SearchError) → fail_if b e ≡ ok tt → b ≡ false
last_guard true e h = cc
last_guard false e h = refl

module _ (parse_rfc3339 : Text → Option ℕ) where
  -- A time that is given is an instant.
  abbrev pub IsInstant : Option Text → Option ℕ → Type 0
  IsInstant none t = t ≡ none
  IsInstant (some v) t = (parse_rfc3339 v ≡ t) × ((n : ℕ) × (t ≡ some n))

  abbrev pub IsBefore : Option ℕ → Option ℕ → Type 0
  IsBefore (some a) (some b) = a < b
  IsBefore _ _ = Unit

  parse_found-bind :
      (o : Option ℕ) (e : SearchError) (k : Option ℕ → Checked (Unit {0}))
      → (parse_found parse_rfc3339 o e >>= k) ≡ ok tt
      → ((n : ℕ) × (o ≡ some n)) × (k o ≡ ok tt)
  parse_found-bind none e k h = cc
  parse_found-bind (some n) e k h = ((n, refl), h)

  parse-bind :
      (v : Option Text) (e : SearchError) (k : Option ℕ → Checked (Unit {0}))
      → (parse parse_rfc3339 v e >>= k) ≡ ok tt
      → (t : Option ℕ) × IsInstant v t × (k t ≡ ok tt)
  parse-bind none e k h = (none, refl, h)
  parse-bind (some v) e k h =
      let p = parse_found-bind (parse_rfc3339 v) e k h in (parse_rfc3339 v, (refl, p.0), p.1)

  interval : (a b : Option ℕ) → is_bad_interval a b ≡ false → IsBefore a b
  interval none b h = tt
  interval (some a) none h = tt
  interval (some a) (some b) h = ground (arith, h)

  -- A search that `validate` accepts has text conditions that are not all white space, within their
  -- limits and without control characters; at most 100 accounts and 30 labels, which are such texts
  -- of at most 200 and 80 units; a sender and a recipient with an '@' and no white space; and one of
  -- the seven roles; each where it is given. The times that it gives are instants, and where it gives
  -- both the first is strictly before the second.
  pub validate_filters-ok :
      (f : SearchFilters)
      → validate_filters parse_rfc3339 f ≡ ok tt
      → HasTexts f
        × HasLists f
        × (Given IsAddress f.sender × Given IsAddress f.recipient)
        × Given IsRole f.mailbox_role
        × ((a : Option ℕ) × (b : Option ℕ) × IsInstant f.since a
            × IsInstant f.before b
            × IsBefore a b)
  unfolding validate_filters
  validate_filters-ok f h =
      let x1 = guard (has_bad_text f) invalid_text _ h in
      let x2 = guard (has_bad_list f) invalid_accounts _ x1.1 in
      let x3 =
        guard (is_bad_address f.sender || is_bad_address f.recipient) invalid_address _ x2.1 in
      let x4 = guard (is_bad_role f.mailbox_role) invalid_role _ x3.1 in
      let (a, i, y) = parse-bind f.since invalid_since _ x4.1 in
      let (b, j, z) = parse-bind f.before invalid_before _ y in
      (
        good_texts f x1.0,
        good_lists f x2.0,
        good_addresses f.sender f.recipient x3.0,
        is_bad_role-Given f.mailbox_role x4.0,
        (a, b, i, j, interval a b (last_guard (is_bad_interval a b) invalid_interval z)),
      )
