-- ===== src/Search/Conditions.antt =====
-- What the tests of `SearchFilters::validate` of crates/imail-core/src/search.rs say of a condition.
use i_mail.Base.{
  ℕ, ◌≤◌, Bool, true, false, not, ◌&&◌, ◌||◌, Option, none, some, ◌≡◌, arith, String, List, [], ◌∷◌,
  Any, here, there, All, All-map, inl, inr, Bool-cases, any, all, length, leb, ltb, leb→le, ◌==◌,
}
use i_mail.Base.Unique.{Any-map}
use i_mail.Base.Texts.{
  Text, codes, is_blank, is_whitespace, is_control, utf16_len, text_eq, text_eq_sound,
}
use i_mail.Rules.Validation.{valid_text, is_role}
use i_mail.Search.Filters.{
  SearchFilters, has_bad_text, has_bad_list, is_bad_text, is_bad_address, is_bad_role,
}

-- Some character is no white space, and with at most `max` UTF-16 units none is a control character.
abbrev pub IsText : ℕ → Text → Type 0
IsText max t =
    Any (λ c. is_whitespace c ≡ false) t × (utf16_len t ≤ max) × All (λ c. is_control c ≡ false) t

-- A condition that is given satisfies the predicate.
abbrev pub Given : (Text → Type 0) → Option Text → Type 0
Given P none = Unit
Given P (some t) = P t

abbrev pub IsAddress : Text → Type 0
IsAddress t = Any (λ c. c ≡ b'@') t × All (λ c. is_whitespace c ≡ false) t

abbrev pub roles : List String
roles = "inbox" ∷ "sent" ∷ "archive" ∷ "drafts" ∷ "trash" ∷ "junk" ∷ "custom" ∷ []

abbrev pub IsRole : Text → Type 0
IsRole t = Any (λ r. t ≡ codes r) roles

any-Any : {A : Type 0} (p : A → Bool) (xs : List A) → any p xs ≡ true → Any (λ x. p x ≡ true) xs
any-Any p [] h = cc
any-Any p (x ∷ xs) h = elim (Bool-cases (p x)) [
  | inl e ↦ here e
  | inr e ↦ there (any-Any p xs (rw e at h))
]

not_any-All :
    {A : Type 0} (p : A → Bool) (xs : List A) → any p xs ≡ false → All (λ x. p x ≡ false) xs
not_any-All p [] h = tt
not_any-All p (x ∷ xs) h = elim (Bool-cases (p x)) [
  | inl e ↦ (let k : ◌≡◌ {A = Bool} true false = rw e at h in cc)
  | inr e ↦ (e, not_any-All p xs (rw e at h))
]

not_all-Any : (p : ℕ → Bool) (xs : Text) → all p xs ≡ false → Any (λ x. p x ≡ false) xs
not_all-Any p [] h = cc
not_all-Any p (x ∷ xs) h = elim (Bool-cases (p x)) [
  | inl e ↦ there (not_all-Any p xs (rw e at h))
  | inr e ↦ here e
]

three : (a b c : Bool) → not (not a && b && not c) ≡ false → (a ≡ false) × (b ≡ true) × (c ≡ false)
three a b c h = ground (arith, h)

valid_text-IsText : (t : Text) (max : ℕ) → not (valid_text t max) ≡ false → IsText max t
unfolding valid_text is_blank
valid_text-IsText t max h =
    let (a, b, c) = three (all is_whitespace t) (leb (utf16_len t) max) (any is_control t) h in
    (not_all-Any is_whitespace t a, leb→le (utf16_len t) max b, not_any-All is_control t c)

good_text : (o : Option Text) (max : ℕ) → is_bad_text o max ≡ false → Given (IsText max) o
good_text none max h = tt
good_text (some t) max h = valid_text-IsText t max h

is_bad_address-Given : (o : Option Text) → is_bad_address o ≡ false → Given IsAddress o
is_bad_address-Given none h = tt
is_bad_address-Given (some t) h =
    let (a, b) = two (any (λ c. c == 64) t) (any is_whitespace t) h in
    (
      Any-map (λ c. (c == 64) ≡ true) (λ c. c ≡ b'@') (λ c e. ground (arith, e)) t
          (any-Any (λ c. c == 64) t a),
      not_any-All is_whitespace t b,
    )
  where
    two : (a b : Bool) → (not a || b) ≡ false → (a ≡ true) × (b ≡ false)
    two a b h = ground (arith, h)

is_role-any : (t : Text) → is_role t ≡ true → any (λ r. text_eq t (codes r)) roles ≡ true
is_role-any t h = seven (text_eq t (codes "inbox")) _ _ _ _ _ _ h
  where
    seven :
        (a b c d e f g : Bool)
        → (a || b || c || d || e || f || g) ≡ true
        → (a || (b || (c || (d || (e || (f || (g || false))))))) ≡ true
    seven a b c d e f g h = ground (arith, h)

pub is_bad_role-Given : (o : Option Text) → is_bad_role o ≡ false → Given IsRole o
is_bad_role-Given none h = tt
is_bad_role-Given (some t) h =
    Any-map (λ r. text_eq t (codes r) ≡ true) (λ r. t ≡ codes r)
      (λ r e. text_eq_sound t (codes r) e) roles
      (any-Any (λ r. text_eq t (codes r)) roles (is_role-any t (unnegate (is_role t) h)))
  where
    unnegate : (b : Bool) → not b ≡ false → b ≡ true
    unnegate b h = ground (arith, h)

-- The text conditions with their limits.
abbrev pub HasTexts : SearchFilters → Type 0
HasTexts f =
    Given (IsText 200) f.group
    × Given (IsText 200) f.q
    × Given (IsText 200) f.subject
    × Given (IsText 200) f.body
    × Given (IsText 320) f.sender
    × Given (IsText 320) f.recipient
    × Given (IsText 500) f.mailbox
    × Given (IsText 500) f.mailbox_name

abbrev pub HasLists : SearchFilters → Type 0
HasLists f =
    (length f.account_ids ≤ 100)
    × All (IsText 200) f.account_ids
    × (length f.labels ≤ 30)
    × All (IsText 80) f.labels

pub good_texts : (f : SearchFilters) → has_bad_text f ≡ false → HasTexts f
good_texts f h =
    let (a, b, c, d, e, g, i, j) =
      eight (is_bad_text f.group 200) (is_bad_text f.q 200) (is_bad_text f.subject 200)
        (is_bad_text f.body 200) (is_bad_text f.sender 320) (is_bad_text f.recipient 320)
        (is_bad_text f.mailbox 500) (is_bad_text f.mailbox_name 500) h in
    (
      good_text f.group 200 a,
      good_text f.q 200 b,
      good_text f.subject 200 c,
      good_text f.body 200 d,
      good_text f.sender 320 e,
      good_text f.recipient 320 g,
      good_text f.mailbox 500 i,
      good_text f.mailbox_name 500 j,
    )
  where
    eight :
        (a b c d e f g h : Bool)
        → (a || b || c || d || e || f || g || h) ≡ false
        → (a ≡ false)
          × (b ≡ false)
          × (c ≡ false)
          × (d ≡ false)
          × (e ≡ false)
          × (f ≡ false)
          × (g ≡ false)
          × (h ≡ false)
    eight a b c d e f g h k = ground (arith, k)

pub good_lists : (f : SearchFilters) → has_bad_list f ≡ false → HasLists f
good_lists f h =
    let (a, b, c, d) =
      four (ltb 100 (length f.account_ids)) (any (λ v. not (valid_text v 200)) f.account_ids)
        (ltb 30 (length f.labels)) (any (λ v. not (valid_text v 80)) f.labels) h in
    (
      ground (arith, a),
      All-map _ _ (λ t k. valid_text-IsText t 200 k) f.account_ids
          (not_any-All (λ v. not (valid_text v 200)) f.account_ids b),
      ground (arith, c),
      All-map _ _ (λ t k. valid_text-IsText t 80 k) f.labels
          (not_any-All (λ v. not (valid_text v 80)) f.labels d),
    )
  where
    four :
        (a b c d : Bool)
        → (a || b || c || d) ≡ false
        → (a ≡ false) × (b ≡ false) × (c ≡ false) × (d ≡ false)
    four a b c d h = ground (arith, h)

pub good_addresses :
    (a b : Option Text)
    → (is_bad_address a || is_bad_address b) ≡ false
    → Given IsAddress a × Given IsAddress b
good_addresses a b h =
    let (x, y) = neither (is_bad_address a) (is_bad_address b) h in
    (is_bad_address-Given a x, is_bad_address-Given b y)
  where
    neither : (a b : Bool) → (a || b) ≡ false → (a ≡ false) × (b ≡ false)
    neither a b h = ground (arith, h)
