-- ===== src/Targets/Tests.antt =====
-- Targets of concrete policies.
use i_mail.Base.{true, suc, ◌+◌, ◌≤◌, ℕ, Option, none, some, List, [], ◌∷◌, ◌≡◌, refl, map}
use i_mail.Base.Texts.{Text, codes, is_whitespace, push_end, lower_ascii}
use i_mail.Base.Json.{string, array, object, boolean, end, item, member, end_members}
use i_mail.Targets.Roles.{decode_modified_utf7, mailbox_role_for}
use i_mail.Targets.Policy.{TargetPolicy, targets_for_policy, target_key, role_target, retry_minutes}
use i_mail.Targets.Retries.{retry_minutes-bounds}
use i_mail.Targets.Distinct.{IsDistinct, Pairwise, targets_for_policy-IsDistinct}

abbrev no_base64 : Text → Option (List ℕ)
no_base64 t = none

abbrev lower : Text → Text
lower t = map lower_ascii t

abbrev policy : TargetPolicy
policy = record {
  mailboxes = array (
      item
        (object (
          member (codes "path") (string (codes "Work"))
            (member (codes "selectable") (boolean true) end_members)))
        (item
          (object (
            member (codes "path") (string (codes "INBOX"))
              (member (codes "selectable") (boolean true) end_members)))
          end));
  folder_mode = "selected";
  selected_mailboxes = array (
      item (string (codes "Work"))
        (item (string (codes "INBOX")) (item (string (codes "Work")) end)));
}

-- The mailbox that is named twice is one target, and the inbox is the role's.
selected_once :
    targets_for_policy no_base64 lower policy
    ≡ role_target "inbox"
      ∷ record { mailbox_role = "custom"; requested_mailbox = some (codes "Work") }
      ∷ []
unfolding targets_for_policy target_key mailbox_role_for decode_modified_utf7 is_whitespace push_end
selected_once = refl

targets_for_policy-IsDistinct_example :
    IsDistinct (targets_for_policy no_base64 lower policy)
    × Pairwise (targets_for_policy no_base64 lower policy)
targets_for_policy-IsDistinct_example = targets_for_policy-IsDistinct no_base64 lower policy

-- No failure yet is an index of -1, which ends at the last entry.
no_failure : retry_minutes 0 ≡ 60
unfolding retry_minutes
no_failure = refl

retry_minutes-bounds_example :
    (1 ≤ retry_minutes 3)
    × (retry_minutes 3 ≤ 60)
    × (retry_minutes (suc 3) ≤ retry_minutes (suc 3 + 4))
retry_minutes-bounds_example = retry_minutes-bounds 3 4
