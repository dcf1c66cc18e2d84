-- ===== src/Targets/Roles.antt =====
-- `mailbox_role_for` and `decode_modified_utf7` of crates/imail-mail/src/sync.rs.
use i_mail.Base.{
  ℕ, ◌+◌, ◌*◌, Bool, ◌&&◌, ◌||◌, Option, none, some, List, [], ◌∷◌, ◌++◌, any, ltb, leb, ◌==◌,
  if◌then◌else◌, map, String, ◌-◌,
}
use i_mail.Base.Texts.{Text, codes, text_eq, lower_ascii, trim}

-- `from_be_bytes` of each pair; none for an odd number of bytes.
abbrev pub pairs : List ℕ → Option (List ℕ)
pairs [] = some []
pairs (a ∷ []) = none
pairs (a ∷ b ∷ bytes) = elim (pairs bytes) [ none ↦ none | some us ↦ some ((a * 256 + b) ∷ us) ]

abbrev pub cons_to : ℕ → Option Text → Option Text
cons_to c none = none
cons_to c (some t) = some (c ∷ t)

-- The code point of a pair of surrogates.
abbrev pub surrogates : ℕ → ℕ → ℕ
surrogates high low = 0x10000 + (high - 0xD800) * 1_024 + (low - 0xDC00)

-- `String::from_utf16`
abbrev pub from_utf16 : List ℕ → Option Text
from_utf16 [] = some []
from_utf16 (u ∷ []) = if ltb u 0xD800 || leb 0xE000 u then some (u ∷ []) else none
from_utf16 (u ∷ v ∷ us) =
    let next = from_utf16 (v ∷ us) in
    let after = from_utf16 us in
    if ltb u 0xD800 || leb 0xE000 u
    then cons_to u next
    else if ltb u 0xDC00 && leb 0xDC00 v && ltb v 0xE000
    then cons_to (surrogates u v) after
    else none

abbrev pub then_utf16 : Option (List ℕ) → Option Text
then_utf16 none = none
then_utf16 (some bytes) = elim (pairs bytes) [ none ↦ none | some us ↦ from_utf16 us ]

abbrev pub append_to : Option Text → Option Text → Option Text
append_to none t = none
append_to (some s) none = none
append_to (some s) (some t) = some (s ++ t)

-- `replace(',', "/")`
abbrev pub slashes : Text → Text
slashes t = map (λ c. if c == 44 then 47 else c) t

abbrev pub last_leaf : Text → Option Text → Text
last_leaf s none = s
last_leaf s (some t) = t

-- What follows the last '/', '.' or '\'.
abbrev pub after_last : Text → Option Text
after_last [] = none
after_last (c ∷ s) = elim (after_last s) [
  | some t ↦ some t
  | none ↦ if c == 47 || c == 46 || c == 92 then some s else none
]

abbrev pub leaf_of : Text → Text
leaf_of s = last_leaf s (after_last s)

abbrev pub one_of : Text → List String → Bool
one_of t names = any (λ n. text_eq t (codes n)) names

-- The role that the server's attribute names.
abbrev pub special_role : Option Text → Option String
special_role none = none
special_role (some use_) =
    let low = map lower_ascii use_ in
    if one_of low ("\\sent" ∷ [])
    then some "sent"
    else if one_of low ("\\archive" ∷ "\\all" ∷ [])
    then some "archive"
    else if one_of low ("\\drafts" ∷ [])
    then some "drafts"
    else if one_of low ("\\trash" ∷ [])
    then some "trash"
    else if one_of low ("\\junk" ∷ [])
    then some "junk"
    else none

abbrev pub named_role : Text → String
named_role leaf =
    if one_of leaf ("inbox" ∷ "收件箱" ∷ [])
    then "inbox"
    else if one_of leaf
        ("sent" ∷ "sent items" ∷ "sent messages" ∷ "sent mail" ∷ "已发送" ∷ "已发送邮件" ∷ "发件箱" ∷ [])
    then "sent"
    else if one_of leaf ("archive" ∷ "archives" ∷ "all mail" ∷ "归档" ∷ "归档邮件" ∷ "所有邮件" ∷ [])
    then "archive"
    else if one_of leaf ("draft" ∷ "drafts" ∷ "草稿" ∷ "草稿箱" ∷ [])
    then "drafts"
    else if one_of leaf (
        "trash" ∷ "bin" ∷ "deleted" ∷ "deleted items" ∷ "已删除" ∷ "已删除邮件" ∷ "废纸篓" ∷ "回收站" ∷ "垃圾箱"
        ∷ [])
    then "trash"
    else if one_of leaf ("junk" ∷ "spam" ∷ "junk mail" ∷ "junk email" ∷ "bulk mail" ∷ "垃圾邮件" ∷ [])
    then "junk"
    else "custom"

-- `decode_base64` is the decoder of the base64 crate, without padding; `to_lowercase` is Rust's, by
-- the tables of Unicode.
module _ (decode_base64 : Text → Option (List ℕ)) (to_lowercase : Text → Text) where
  -- A shift sequence between '&' and '-'.
  abbrev pub decode_shift : Text → Option Text
  decode_shift [] = some (38 ∷ [])
  decode_shift (c ∷ t) = then_utf16 (decode_base64 (slashes (c ∷ t)))

  -- Outside a shift sequence (none), or inside one with what has been read of it.
  abbrev pub decode_from : Option Text → Text → Option Text
  decode_from none [] = some []
  decode_from (some shift) [] = none
  decode_from none (c ∷ s) =
      let inside = decode_from (some []) s in
      let outside = decode_from none s in if c == 38 then inside else cons_to c outside
  decode_from (some shift) (c ∷ s) =
      let outside = decode_from none s in
      let inside = decode_from (some (shift ++ c ∷ [])) s in
      if c == 45 then append_to (decode_shift shift) outside else inside

  unfoldable pub decode_modified_utf7 : Text → Option Text
  decode_modified_utf7 value = decode_from none value

  abbrev pub or_path : Text → Option Text → Text
  or_path path none = path
  or_path path (some t) = t

  unfoldable pub mailbox_role_for : Text → Option Text → String
  mailbox_role_for path special_use = elim (special_role special_use) [
    | some role ↦ role
    | none ↦ named_role (to_lowercase (trim (leaf_of (or_path path (decode_modified_utf7 path)))))
  ]
