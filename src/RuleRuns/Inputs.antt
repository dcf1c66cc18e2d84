-- ===== src/RuleRuns/Inputs.antt =====
-- The derived equality of `MailRuleInput` in crates/imail-core/src/rules.rs.
use i_mail.Base.{Bool, true, false, not, ◌&&◌, List, [], ◌∷◌, ◌==◌}
use i_mail.Base.Texts.{text_eq}
use i_mail.Rules.Types.{
  MailRuleInput, RuleCondition, RuleAction, RuleMatchMode, match_all, match_any, sender,
  sender_domain, recipient, subject_contains, body_contains, has_attachments, unread, flagged,
  mailbox_role, label, add_label, remove_label, mark_read, flag, mute, archive,
}

abbrev pub same_bool : Bool → Bool → Bool
same_bool true b = b
same_bool false b = not b

abbrev pub same_mode : RuleMatchMode → RuleMatchMode → Bool
same_mode match_all match_all = true
same_mode match_any match_any = true
same_mode _ _ = false

abbrev pub same_condition : RuleCondition → RuleCondition → Bool
same_condition (sender a) (sender b) = text_eq a b
same_condition (sender_domain a) (sender_domain b) = text_eq a b
same_condition (recipient a) (recipient b) = text_eq a b
same_condition (subject_contains a) (subject_contains b) = text_eq a b
same_condition (body_contains a) (body_contains b) = text_eq a b
same_condition (has_attachments a) (has_attachments b) = same_bool a b
same_condition (unread a) (unread b) = same_bool a b
same_condition (flagged a) (flagged b) = same_bool a b
same_condition (mailbox_role a) (mailbox_role b) = text_eq a b
same_condition (label a) (label b) = text_eq a b
same_condition _ _ = false

abbrev pub same_action : RuleAction → RuleAction → Bool
same_action (add_label a) (add_label b) = text_eq a b
same_action (remove_label a) (remove_label b) = text_eq a b
same_action (mark_read a) (mark_read b) = same_bool a b
same_action (flag a) (flag b) = same_bool a b
same_action (mute a) (mute b) = same_bool a b
same_action archive archive = true
same_action _ _ = false

abbrev pub same_items : {A : Type 0} → (A → A → Bool) → List A → List A → Bool
same_items eq [] [] = true
same_items eq (x ∷ xs) (y ∷ ys) = eq x y && same_items eq xs ys
same_items eq _ _ = false

abbrev pub same_input : MailRuleInput → MailRuleInput → Bool
same_input a b =
    text_eq a.name b.name
    && same_bool a.enabled b.enabled
    && a.priority == b.priority
    && same_items text_eq a.account_ids b.account_ids
    && same_mode a.match_mode b.match_mode
    && same_items same_condition a.conditions b.conditions
    && same_items same_action a.actions b.actions
    && same_bool a.stop_processing b.stop_processing
