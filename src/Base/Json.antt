-- ===== src/Base/Json.antt =====
-- JSON values, and the parts of the interface of `serde_json::Value` that the program reads.
use mathlib.Core.Bool.{Bool, ◌||◌, false}
use mathlib.Core.Option.{Option, none, some}
use mathlib.Core.List.{[]}
use i_mail.Base.Tests.{if◌then◌else◌}
use i_mail.Base.Texts.{Text, text_eq}

-- `serde_json::Value`; a number by its digits.
mutual
  pub data Value : Type 0 where
    null : Value
    boolean : Bool → Value
    number : Text → Value
    string : Text → Value
    array : Values → Value
    object : Members → Value

  pub data Values : Type 0 where
    end : Values
    item : Value → Values → Values

  pub data Members : Type 0 where
    end_members : Members
    member : Text → Value → Members → Members

abbrev pub as_str : Value → Option Text
as_str (string t) = some t
as_str _ = none

abbrev pub or_default : Option Text → Text
or_default none = []
or_default (some t) = t

-- `value.get(key)` of an object, whose keys are distinct.
abbrev pub get_member : Text → Members → Option Value
get_member key end_members = none
get_member key (member k v rest) =
    let r = get_member key rest in if text_eq k key then some v else r

abbrev pub any_item : (Value → Bool) → Values → Bool
any_item p end = false
any_item p (item v rest) = p v || any_item p rest

-- `.as_array().into_iter().flatten().any(p)`
abbrev pub any_in : (Value → Bool) → Value → Bool
any_in p (array vs) = any_item p vs
any_in p _ = false
