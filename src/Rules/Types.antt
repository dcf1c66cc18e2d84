-- ===== src/Rules/Types.antt =====
-- The data of crates/imail-core/src/rules.rs, the read model of a message that it looks at. Texts are lists of code points.
use i_mail.Base.{ℕ, Bool, List}
use i_mail.Base.Texts.{Text}
use i_mail.Base.Json.{Value}

pub data RuleMatchMode : Type 0 where
  match_all match_any : RuleMatchMode

pub data RuleCondition : Type 0 where
  sender sender_domain recipient subject_contains body_contains : Text → RuleCondition
  has_attachments unread flagged : Bool → RuleCondition
  mailbox_role label : Text → RuleCondition

pub data RuleAction : Type 0 where
  add_label remove_label : Text → RuleAction
  mark_read flag mute : Bool → RuleAction
  archive : RuleAction

pub record MailRuleInput : Type 0 where
  pub name : Text
  pub enabled : Bool
  pub priority : ℕ
  pub account_ids : List Text
  pub match_mode : RuleMatchMode
  pub conditions : List RuleCondition
  pub actions : List RuleAction
  pub stop_processing : Bool

pub record MailRule : Type 0 where
  pub id : Text
  pub revision : ℕ
  pub input : MailRuleInput
  pub created_at : Text
  pub updated_at : Text

-- The fields of `MessageReadModel` that the rules read; `cc` holds the addresses of the header.
pub record MessageReadModel : Type 0 where
  pub account_id : Text
  pub mailbox_role : Text
  pub from : Value
  pub to : Value
  pub cc : List Text
  pub subject : Text
  pub text : Text
  pub unread : Bool
  pub flagged : Bool
  pub has_attachments : Bool
  pub labels : Value

pub data RuleError : Type 0 where
  invalid_name invalid_size invalid_condition invalid_label invalid_archive : RuleError
