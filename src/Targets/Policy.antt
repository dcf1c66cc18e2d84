-- ===== src/Targets/Policy.antt =====
-- `targets_for_policy`, `target_key` and `retry_minutes` of crates/imail-core/src/sync_runtime.rs.
use i_mail.Base.{
  ℕ, zero, suc, min, Bool, false, ◌&&◌, Option, none, some, List, [], ◌∷◌, ◌++◌, any, if◌then◌else◌,
  String, str_eq, get_elem?,
}
use i_mail.Base.Texts.{Text, codes, text_eq}
use i_mail.Base.Json.{Value, Values, array, object, boolean, end, item, as_str, get_member}
use i_mail.Targets.Roles.{mailbox_role_for}

pub record SyncTarget : Type 0 where
  pub mailbox_role : String
  pub requested_mailbox : Option Text

-- The fields of the account and the policy that the targets depend on.
pub record TargetPolicy : Type 0 where
  pub mailboxes : Value
  pub folder_mode : String
  pub selected_mailboxes : Value

unfoldable pub target_key : SyncTarget → Text
target_key t = elim t.requested_mailbox [
  | some mailbox ↦ mailbox
  | none ↦ codes "@role:" ++ codes t.mailbox_role
]

abbrev pub role_target : String → SyncTarget
role_target role = record { mailbox_role = role; requested_mailbox = none }

-- `value.get(key)`, which is none of a value that is no object.
abbrev pub get : Text → Value → Option Value
get key (object m) = get_member key m
get key _ = none

abbrev pub text_of : Option Value → Option Text
text_of none = none
text_of (some v) = as_str v

abbrev pub as_bool : Option Value → Bool
as_bool (some (boolean b)) = b
as_bool _ = false

abbrev pub is_text : Text → Option Text → Bool
is_text t none = false
is_text t (some s) = text_eq s t

abbrev pub is_folder : Text → Value → Bool
is_folder requested v =
    is_text requested (text_of (get (codes "path") v)) && as_bool (get (codes "selectable") v)

abbrev pub find_item : (Value → Bool) → Values → Option Value
find_item p end = none
find_item p (item v rest) = let r = find_item p rest in if p v then some v else r

abbrev pub find_folder : Text → Value → Option Value
find_folder requested (array vs) = find_item (is_folder requested) vs
find_folder requested _ = none

abbrev pub cons_text : Option Text → List Text → List Text
cons_text none ts = ts
cons_text (some t) ts = t ∷ ts

abbrev pub item_texts : Values → List Text
item_texts end = []
item_texts (item v rest) = cons_text (as_str v) (item_texts rest)

-- `.as_array().into_iter().flatten().filter_map(as_str)`
abbrev pub texts_of : Value → List Text
texts_of (array vs) = item_texts vs
texts_of _ = []

abbrev pub has_key : SyncTarget → SyncTarget → Bool
has_key t e = text_eq (target_key e) (target_key t)

abbrev pub push_target : SyncTarget → List SyncTarget → List SyncTarget
push_target t targets = if any (has_key t) targets then targets else targets ++ t ∷ []

module _ (decode_base64 : Text → Option (List ℕ)) (to_lowercase : Text → Text) where
  abbrev pub folder_target : Text → Value → SyncTarget
  folder_target requested folder =
      let role =
        mailbox_role_for decode_base64 to_lowercase requested
          (text_of (get (codes "specialUse") folder)) in
      record {
        mailbox_role = role;
        requested_mailbox = if str_eq role "custom" then some requested else none;
      }

  abbrev pub push_folder : Text → Option Value → List SyncTarget → List SyncTarget
  push_folder requested none targets = targets
  push_folder requested (some folder) targets = push_target (folder_target requested folder) targets

  -- The loop over the selected mailboxes.
  abbrev pub push_selected : List Text → Value → List SyncTarget → List SyncTarget
  push_selected [] mailboxes targets = targets
  push_selected (requested ∷ rest) mailboxes targets =
      push_selected rest mailboxes (push_folder requested (find_folder requested mailboxes) targets)

  unfoldable pub targets_for_policy : TargetPolicy → List SyncTarget
  targets_for_policy p =
      if str_eq p.folder_mode "standard"
      then role_target "inbox" ∷ role_target "sent" ∷ role_target "archive" ∷ []
      else if str_eq p.folder_mode "selected"
      then push_selected (texts_of p.selected_mailboxes) p.mailboxes (role_target "inbox" ∷ [])
      else role_target "inbox" ∷ []

abbrev pub retry_table : List ℕ
retry_table = 1 ∷ 5 ∷ 15 ∷ 30 ∷ 60 ∷ []

abbrev pub or_zero : Option ℕ → ℕ
or_zero none = 0
or_zero (some n) = n

-- `n.saturating_sub(1) as usize` of a number that is not negative: 0 becomes -1, whose bits are the
-- greatest usize.
abbrev pub index_before : ℕ → ℕ
index_before zero = 18_446_744_073_709_551_615
index_before (suc n) = n

-- The index is in the table, so the access does not panic.
unfoldable pub retry_minutes : ℕ → ℕ
retry_minutes consecutive_failures =
    or_zero (get_elem? retry_table (min (index_before consecutive_failures) 4))
