-- ===== src/Conversations/Related.antt =====
-- `related` of crates/imail-core/src/messages/conversation.rs. A HashMap or HashSet that is only asked
-- for keys is a list. Equality of JSON values is serde_json's, a parameter; a fingerprint is a text.
use i_mail.Base.{
  ℕ, suc, Bool, true, false, not, ◌&&◌, ◌||◌, Option, none, some, List, [], ◌∷◌, ◌++◌, length, take,
  if◌then◌else◌, ◌==◌, any,
}
use i_mail.Base.Table.{find_where}
use i_mail.Base.Sorting.{sort_by}
use i_mail.Base.Texts.{Text, text_eq, text_before}
use i_mail.Base.Json.{Value}
use i_mail.Composition.Identifiers.{ReplyHeaders, normalize_message_id}
use i_mail.Conversations.Union.{Parents, Link, root, link_all, separate, ◌>>=◌}

pub record MailAddressView : Type 0 where
  pub name : Text
  pub address : Text

pub record MailHeaders : Type 0 where
  pub cc : List MailAddressView
  pub reply_to : List MailAddressView
  pub reply : ReplyHeaders

-- The fields of `MessageReadModel` that `related` reads.
pub record Message : Type 0 where
  pub id : Text
  pub message_id : Option Text
  pub headers : MailHeaders
  pub from : Value
  pub to : Value
  pub subject : Text
  pub date : Text

-- The derived equalities.
abbrev pub same_list : {A : Type 0} → (A → A → Bool) → List A → List A → Bool
same_list eq [] [] = true
same_list eq (x ∷ xs) (y ∷ ys) = eq x y && same_list eq xs ys
same_list eq _ _ = false

abbrev pub same_address : MailAddressView → MailAddressView → Bool
same_address a b = text_eq a.name b.name && text_eq a.address b.address

abbrev pub same_headers : MailHeaders → MailHeaders → Bool
same_headers a b =
    same_list same_address a.cc b.cc
    && same_list same_address a.reply_to b.reply_to
    && same_list text_eq a.reply.in_reply_to b.reply.in_reply_to
    && same_list text_eq a.reply.references b.reply.references

abbrev pub same_print : Option Text → Option Text → Bool
same_print none none = true
same_print (some a) (some b) = text_eq a b
same_print _ _ = false

-- message.message_id.as_deref().and_then(normalize_message_id)
abbrev pub id_of : Message → Option Text
id_of m = m.message_id >>= normalize_message_id

abbrev pub contains_text : Text → List Text → Bool
contains_text id ids = any (λ x. text_eq x id) ids

abbrev pub filter_map : {A B : Type 0} → (A → Option B) → List A → List B
filter_map f [] = []
filter_map f (x ∷ xs) = let rest = filter_map f xs in elim (f x) [ none ↦ rest | some y ↦ y ∷ rest ]

abbrev pub to_list : {A : Type 0} → Option A → List A
to_list none = []
to_list (some a) = a ∷ []

module _ (value_eq : Value → Value → Bool) (fingerprints : Text → Option Text) where
  -- Two messages under one identifier that are not copies of each other.
  unfoldable pub conflicts : Message → Message → Bool
  conflicts a b =
      not (value_eq a.from b.from)
      || not (value_eq a.to b.to)
      || not (text_eq a.subject b.subject)
      || not (text_eq a.date b.date)
      || not (same_headers a.headers b.headers)
      || not (same_print (fingerprints a.id) (fingerprints b.id))

  -- `first` and `ambiguous`
  pub record Seen : Type 0 where
    pub first : List (Text × Message)
    pub ambiguous : List Text

  abbrev pub see_found : Text → Message → Seen → Option (Text × Message) → Seen
  see_found id m s none = record s { first = (id, m) ∷ s.first }
  see_found id m s (some previous) =
      if conflicts previous.1 m then record s { ambiguous = id ∷ s.ambiguous } else s

  abbrev pub see : Message → Seen → Option Text → Seen
  see m s none = s
  see m s (some id) = see_found id m s (find_where (λ x. text_eq x.0 id) s.first)

  -- The first loop.
  abbrev pub scan : List Message → Seen → Seen
  scan [] s = s
  scan (m ∷ ms) s = scan ms (see m s (id_of m))

  unfoldable pub ambiguous_ids : List Message → List Text
  ambiguous_ids ms = (scan ms (record { first = []; ambiguous = [] })).ambiguous

abbrev pub is_ambiguous : List Text → Option Text → Bool
is_ambiguous ambiguous none = false
is_ambiguous ambiguous (some id) = contains_text id ambiguous

abbrev pub named_ids : Message → List Text
named_ids m =
    to_list (id_of m)
    ++ filter_map normalize_message_id
        (take 200 (m.headers.reply.references ++ m.headers.reply.in_reply_to))

abbrev pub links_from : List Text → ℕ → List Text → List Link
links_from ambiguous index [] = []
links_from ambiguous index (id ∷ ids) =
    let rest = links_from ambiguous index ids in
    if contains_text id ambiguous then rest else (index, id) ∷ rest

-- What the two nested loops run over, without what they skip.
abbrev pub all_links : List Text → ℕ → List Message → List Link
all_links ambiguous index [] = []
all_links ambiguous index (m ∷ ms) =
    let rest = all_links ambiguous (suc index) ms in
    if is_ambiguous ambiguous (id_of m)
    then rest
    else links_from ambiguous index (named_ids m) ++ rest

unfoldable pub links_of : List Text → List Message → List Link
links_of ambiguous ms = all_links ambiguous 0 ms

-- The messages under the root `top`; `root` goes on to halve paths.
abbrev pub keep_if : Bool → Message → List Message → List Message
keep_if true m ms = m ∷ ms
keep_if false m ms = ms

abbrev pub select_under : ℕ → ℕ → Parents → ℕ → List Message → Option (List Message)
select_under fuel top p index [] = some []
select_under fuel top p index (m ∷ ms) = do
  (r, p') ← root fuel p index
  rest ← select_under fuel top p' (suc index) ms
  some (keep_if (r == top) m rest)

abbrev pub is_earlier : Message → Message → Bool
is_earlier a b = text_before a.date b.date || (text_eq a.date b.date && text_before a.id b.id)

-- messages.iter().position(…)
abbrev pub position_from : ℕ → Text → List Message → Option ℕ
position_from n id [] = none
position_from n id (m ∷ ms) =
    let rest = position_from (suc n) id ms in if text_eq m.id id then some n else rest

unfoldable pub group_of : ℕ → List Link → List Message → ℕ → Option (List Message)
group_of fuel links ms index = do
  s ← link_all fuel links separate
  (top, p) ← root fuel s.parents index
  result ← select_under fuel top p 0 ms
  some (sort_by is_earlier result)

-- The outer option is the fuel, the inner one the code's: one unit of fuel for each link.
abbrev pub group_at : List Text → List Message → Option ℕ → Option (Option (List Message))
group_at ambiguous ms none = some none
group_at ambiguous ms (some index) =
    let links = links_of ambiguous ms in
    group_of (length links) links ms index >>= λ result. some (some result)

unfoldable pub related :
    (Value → Value → Bool)
    → (Text → Option Text)
    → List Message
    → Text
    → Option (Option (List Message))
related value_eq fingerprints ms selected =
    group_at (ambiguous_ids value_eq fingerprints ms) ms (position_from 0 selected ms)
