-- ===== src/RuleRuns/Previews.antt =====
-- `preview_mail_rule` and `apply_mail_rule_preview` of crates/imail-storage-sqlite/src/rules.rs, and
-- `list_messages` of content_data.rs there.
use i_mail.Base.{
  ℕ, zero, suc, ◌+◌, Bool, true, false, not, ◌&&◌, ◌||◌, Option, none, some, List, [], ◌∷◌, ◌++◌,
  map, length, take, ltb, ◌==◌, is_some, all, any,
}
use i_mail.Base.Table.{update_where, delete_where, exists_where, find_where, select_where}
use i_mail.Base.Sorting.{sort_by}
use i_mail.Base.Texts.{Text, codes, text_eq, text_before}
use i_mail.Base.Json.{Value}
use i_mail.Base.Result.{Result, ok, ◌>>=◌, ◌>>◌, fail_if, ok_or}
use i_mail.Rules.Types.{MailRule, MailRuleInput}
use i_mail.Rules.Validation.{validate, is_remote}
use i_mail.Rules.Matching.{matches}
use i_mail.RuleRuns.Types.{
  RuleStore, MessageRow, PreviewRow, PreviewMessage, StoreError, account_not_owned,
  invalid_content_data, owns,
}
use i_mail.RuleRuns.Matches.{Matched, load_rules, enqueue_matches, is_run_for}
use i_mail.RuleRuns.Saving.{is_owned_account, has_rule_id, previous_rule}
use i_mail.RuleRuns.Actions.{rule_message, ten_minutes}
use i_mail.RuleRuns.Finish.{wake_sync}
use i_mail.RuleRuns.Inputs.{same_input}

-- ORDER BY m.received_at DESC, m.id
abbrev pub is_listed_before : MessageRow → MessageRow → Bool
is_listed_before a b =
    text_before b.received_at a.received_at
    || (text_eq a.received_at b.received_at && text_before a.id b.id)

unfoldable pub list_messages : Text → RuleStore → List MessageRow
list_messages owner s =
    sort_by is_listed_before
      (select_where (λ m. exists_where (owns owner m.view.account_id) s.accounts) s.messages)

pub record PreviewItem : Type 0 where
  pub id : Text
  pub account_id : Text
  pub subject : Text
  pub from : Value
  pub date : Text

pub record RulePreview : Type 0 where
  pub token : Option Text
  pub total : ℕ
  pub eligible : ℕ
  pub messages : List PreviewItem
  pub expires_at : Option ℕ

abbrev pub preview_item : MessageRow → PreviewItem
preview_item m = record {
  id = m.id;
  account_id = m.view.account_id;
  subject = m.view.subject;
  from = m.view.from;
  date = m.received_at;
}

-- A saved rule that is not there, or differs from what is previewed.
abbrev pub is_stale_input : MailRuleInput → Option Text → Option MailRule → Bool
is_stale_input input none saved = false
is_stale_input input (some id) none = true
is_stale_input input (some id) (some r) = not (same_input r.input input)

abbrev pub was_run : Text → Option MailRule → RuleStore → MessageRow → Bool
was_run owner none s m = false
was_run owner (some rule) s m = exists_where (is_run_for owner rule m) s.runs

module _ (to_lowercase : Text → Text) (fingerprint : MessageRow → Text) where
  abbrev pub snapshot_of : MessageRow → PreviewMessage
  snapshot_of m = record { id = m.id; fingerprint = fingerprint m }

  abbrev pub new_preview : Text → Text → MailRule → List MessageRow → ℕ → PreviewRow
  new_preview id owner rule eligible now = record {
    id = id;
    user_id = owner;
    rule_id = rule.id;
    revision = rule.revision;
    messages = map snapshot_of eligible;
    expires_at = now + ten_minutes;
  }

  abbrev pub answer_preview :
      Text
      → Text
      → ℕ
      → ℕ
      → List MessageRow
      → ℕ
      → Option MailRule
      → RuleStore
      → RulePreview × RuleStore
  answer_preview fresh owner now later eligible total none s = (
    record {
      token = none;
      total = total;
      eligible = length eligible;
      messages = map preview_item (take 50 eligible);
      expires_at = none;
    },
    s,
  )
  answer_preview fresh owner now later eligible total (some rule) s = (
    record {
      token = some fresh;
      total = total;
      eligible = length eligible;
      messages = map preview_item (take 50 eligible);
      expires_at = some (now + ten_minutes);
    },
    record s {
      previews =
          delete_where (λ p. ltb p.expires_at later || text_eq p.user_id owner) s.previews
          ++ new_preview fresh owner rule eligible now ∷ [];
    },
  )

  -- `now` and `later` are the readings of the clock before and in the transaction.
  unfoldable pub preview_mail_rule :
      Text
      → Text
      → MailRuleInput
      → Option Text
      → ℕ
      → ℕ
      → RuleStore
      → Result StoreError (RulePreview × RuleStore)
  preview_mail_rule fresh owner input saved_id now later s =
      let saved = previous_rule saved_id (load_rules owner s) in
      let matched = select_where (λ m. matches to_lowercase input m.view) (list_messages owner s) in
      let eligible = select_where (λ m. not (was_run owner saved s m)) matched in
      do
        fail_if (is_some (validate input)) invalid_content_data
        fail_if (not (all (is_owned_account owner s) input.account_ids)) account_not_owned
        fail_if (is_stale_input input saved_id saved) invalid_content_data
        ok (answer_preview fresh owner now later eligible (length matched) saved s)

  abbrev pub is_open_preview : Text → Text → ℕ → PreviewRow → Bool
  is_open_preview owner token now p =
      text_eq p.id token && text_eq p.user_id owner && ltb now p.expires_at

  abbrev pub is_revision : Text → ℕ → MailRule → Bool
  is_revision id revision r = has_rule_id id r && r.revision == revision

  -- Disabled rules can be run once.
  abbrev pub enable : MailRule → MailRule
  enable r = record r { input = record r.input { enabled = true } }

  abbrev pub store_labels : Matched → RuleStore
  store_labels w = record w.store {
    messages =
        update_where (λ m. text_eq m.id w.message.id)
          (λ m. record m { view = record m.view { labels = w.message.view.labels } })
          w.store.messages;
  }

  abbrev pub wake_if : Bool → Text → Text → ℕ → RuleStore → RuleStore
  wake_if false fresh account now s = s
  wake_if true fresh account now s = record s { jobs = wake_sync fresh account now s.jobs }

  -- The loop over the messages of the preview.
  abbrev pub apply_each :
      (ℕ → ℕ → Text)
      → ℕ
      → Text
      → MailRule
      → ℕ
      → List PreviewMessage
      → ℕ
      → RuleStore
      → Result StoreError (ℕ × RuleStore)
  apply_each fresh n owner rule now [] count s = ok (count, s)
  apply_each fresh n owner rule now (expected ∷ rest) count s = do
    m ← ok_or invalid_content_data (rule_message owner expected.id s)
    fail_if (not (text_eq (fingerprint m) expected.fingerprint)) invalid_content_data
    w ←
        enqueue_matches to_lowercase (λ k. fresh n (suc k)) owner (rule ∷ []) m (codes "manual") now
          s
    apply_each fresh (suc n) owner rule now rest (count + w.count) (
        wake_if (any is_remote rule.input.actions) (fresh n zero) m.view.account_id now
          (store_labels w))

  abbrev pub drop_preview : Text → ℕ × RuleStore → ℕ × RuleStore
  drop_preview token (count, s) =
      (count, record s { previews = delete_where (λ p. text_eq p.id token) s.previews })

  -- `fresh n k` are the random identifiers of the n-th message.
  unfoldable pub apply_mail_rule_preview :
      (ℕ → ℕ → Text) → Text → Text → ℕ → ℕ → RuleStore → Result StoreError (ℕ × RuleStore)
  apply_mail_rule_preview fresh owner token now later s = do
    p ← ok_or invalid_content_data (find_where (is_open_preview owner token now) s.previews)
    rule ←
        ok_or invalid_content_data
          (find_where (is_revision p.rule_id p.revision) (load_rules owner s))
    r ← apply_each fresh 0 owner (enable rule) later p.messages 0 s
    ok (drop_preview token r)
