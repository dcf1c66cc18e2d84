-- ===== src/RuleRuns/Matches.antt =====
-- `enqueue_matches`, `is_muted` and `load_rules` of crates/imail-storage-sqlite/src/rules.rs.
use i_mail.Base.{
  ℕ, suc, ◌-◌, Bool, false, not, ◌&&◌, ◌||◌, Option, none, some, List, [], ◌∷◌, ◌++◌, map, length,
  if◌then◌else◌, ◌==◌,
}
use i_mail.Base.Table.{update_where, exists_where, find_where, select_where}
use i_mail.Base.Sorting.{sort_by}
use i_mail.Base.Texts.{Text, text_eq}
use i_mail.Base.Json.{Value, Values, string, array, end, item, any_item, as_str}
use i_mail.Base.Result.{Result, ok, ◌>>=◌, ◌>>◌, fail_if}
use i_mail.Rules.Types.{MailRule, RuleAction, add_label, remove_label, mute}
use i_mail.Rules.Validation.{is_remote, is_empty}
use i_mail.Rules.Matching.{matching_rules, runs_before, text_is}
use i_mail.RuleRuns.Types.{
  RuleStore, RuleRow, RunRow, MessageRow, MuteRow, StoreError, sqlite, pending, succeeded,
  message_identity, has_run_id,
}

abbrev pub rules_of : Text → List RuleRow → List MailRule
rules_of owner rows = map RuleRow.rule (select_where (λ r. text_eq r.user_id owner) rows)

-- The rules of the owner, in the order in which they run.
unfoldable pub load_rules : Text → RuleStore → List MailRule
load_rules owner s = sort_by (runs_before (λ t. t)) (rules_of owner s.rules)

abbrev pub new_run : ℕ → Text → Text → MailRule → MessageRow → Text → ℕ → RunRow
new_run sequence id owner rule message source now =
    let remote = select_where is_remote rule.input.actions in
    record {
      sequence = sequence;
      id = id;
      user_id = owner;
      rule_id = rule.id;
      rule_name = rule.input.name;
      revision = rule.revision;
      account_id = message.view.account_id;
      message_id = message.id;
      identity = message_identity message;
      source = source;
      status = if is_empty remote then succeeded else pending;
      actions = remote;
      completed_actions = 0;
      local_actions = length rule.input.actions - length remote;
      attempts = 0;
      error_code = none;
      lease_until = none;
      created_at = now;
      updated_at = now;
    }

-- UNIQUE(user_id,rule_id,revision,account_id,identity)
abbrev pub is_run_for : Text → MailRule → MessageRow → RunRow → Bool
is_run_for owner rule m x =
    text_eq x.user_id owner
    && text_eq x.rule_id rule.id
    && x.revision == rule.revision
    && text_eq x.account_id m.view.account_id
    && text_eq x.identity (message_identity m)

-- A row that INSERT OR IGNORE finds in its way.
abbrev pub same_run : Text → Text → MailRule → MessageRow → RunRow → Bool
same_run id owner rule m x = has_run_id id x || is_run_for owner rule m x

abbrev pub has_account : Text → RuleStore → Bool
has_account account s = exists_where (λ a. text_eq a.id account) s.accounts

abbrev pub add_run : RunRow → RuleStore → RuleStore
add_run r s = record s { runs = s.runs ++ r ∷ []; next_sequence = suc s.next_sequence }

abbrev pub values : Value → Values
values (array vs) = vs
values _ = end

abbrev pub append_item : Values → Value → Values
append_item end v = item v end
append_item (item w vs) v = item w (append_item vs v)

abbrev pub retain_items : (Value → Bool) → Values → Values
retain_items p end = end
retain_items p (item v vs) = let rest = retain_items p vs in if p v then item v rest else rest

abbrev pub has_label : Text → Value → Bool
has_label l v = text_is l (as_str v)

abbrev pub apply_label : RuleAction → Values → Values
apply_label (add_label l) labels =
    if any_item (has_label l) labels then labels else append_item labels (string l)
apply_label (remove_label l) labels = retain_items (λ v. not (has_label l v)) labels
apply_label _ labels = labels

abbrev pub is_mute_of : Text → Text → MuteRow → Bool
is_mute_of account identity m = text_eq m.account_id account && text_eq m.identity identity

-- INSERT … ON CONFLICT(account_id,identity) DO UPDATE
abbrev pub set_mute : Text → Text → Bool → List MuteRow → List MuteRow
set_mute account identity muted mutes =
    if exists_where (is_mute_of account identity) mutes
    then update_where (is_mute_of account identity) (λ m. record m { muted = muted }) mutes
    else mutes ++ record { account_id = account; identity = identity; muted = muted } ∷ []

abbrev pub apply_mute : Text → Text → RuleAction → List MuteRow → List MuteRow
apply_mute account identity (mute b) mutes = set_mute account identity b mutes
apply_mute account identity _ mutes = mutes

-- The loop over the actions of a rule: its labels, and its mutes.
abbrev pub apply_labels : List RuleAction → Values → Values
apply_labels [] labels = labels
apply_labels (a ∷ as_) labels = apply_labels as_ (apply_label a labels)

abbrev pub apply_mutes : Text → Text → List RuleAction → List MuteRow → List MuteRow
apply_mutes account identity [] mutes = mutes
apply_mutes account identity (a ∷ as_) mutes =
    apply_mutes account identity as_ (apply_mute account identity a mutes)

abbrev pub set_labels : Values → MessageRow → MessageRow
set_labels labels m = record m { view = record m.view { labels = array labels } }

-- A run of the transaction: the store, the message with its labels, and the count.
pub record Matched : Type 0 where
  pub store : RuleStore
  pub message : MessageRow
  pub count : ℕ

abbrev pub local_effects : MailRule → Matched → Matched
local_effects rule w =
    let account = w.message.view.account_id in
    let identity = message_identity w.message in
    record {
      store = record w.store {
        mutes = apply_mutes account identity rule.input.actions w.store.mutes;
      };
      message =
          set_labels (apply_labels rule.input.actions (values w.message.view.labels)) w.message;
      count = suc w.count;
    }

abbrev pub with_run : RunRow → Matched → Matched
with_run run w = record w { store = add_run run w.store }

-- One matching rule: INSERT OR IGNORE, and its local actions where the row is new. A row whose account
-- does not exist breaks a foreign key, which IGNORE does not cover.
unfoldable pub enqueue_match :
    Text → Text → MailRule → Text → ℕ → Matched → Result StoreError Matched
enqueue_match id owner rule source now w =
    let run = new_run w.store.next_sequence id owner rule w.message source now in
    if exists_where (same_run id owner rule w.message) w.store.runs then ok w else (do
      fail_if (not (has_account run.account_id w.store)) sqlite
      ok (local_effects rule (with_run run w)))

-- The loop over the matching rules; `fresh` makes the identifiers, as `Uuid::new_v4()` does.
abbrev pub enqueue_rules :
    (ℕ → Text) → ℕ → Text → List MailRule → Text → ℕ → Matched → Result StoreError Matched
enqueue_rules fresh n owner [] source now w = ok w
enqueue_rules fresh n owner (rule ∷ rules) source now w = do
  w' ← enqueue_match (fresh n) owner rule source now w
  enqueue_rules fresh (suc n) owner rules source now w'

-- `to_lowercase` is Rust's. The rules are matched against the message as it was before their actions.
unfoldable pub enqueue_matches :
    (Text → Text)
    → (ℕ → Text)
    → Text
    → List MailRule
    → MessageRow
    → Text
    → ℕ
    → RuleStore
    → Result StoreError Matched
enqueue_matches to_lowercase fresh owner rules message source now s =
    enqueue_rules fresh 0 owner (matching_rules to_lowercase rules message.view) source now
      (record { store = s; message = message; count = 0 })

abbrev pub muted_or : Option MuteRow → Bool
muted_or none = false
muted_or (some m) = m.muted

unfoldable pub is_muted : MessageRow → RuleStore → Bool
is_muted m s = muted_or (find_where (is_mute_of m.view.account_id (message_identity m)) s.mutes)
