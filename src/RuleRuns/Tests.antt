-- ===== src/RuleRuns/Tests.antt =====
-- The work of the rules on concrete rows.
use i_mail.Base.{ℕ, ◌<◌, ◌≡◌, refl, true, false, none, some, [], ◌∷◌, here, Option}
use i_mail.Base.Texts.{Text, codes, is_blank, is_whitespace, is_control, push_end}
use i_mail.Base.Json.{string, array, end, null}
use i_mail.Base.Result.{ok, err}
use i_mail.Rules.Types.{unread, archive, flag, add_label, match_all, MailRuleInput, MailRule}
use i_mail.Rules.Validation.{validate, valid_text, valid_mail_address, is_remote}
use i_mail.RuleRuns.Types.{
  PreviewRow, RuleStore, RunRow, MessageRow, RuleWork, RemoteMove, pending, failed, active,
  cancelled, invalid_content_data, message_identity,
}
use i_mail.RuleRuns.Matches.{
  enqueue_matches, Matched, enqueue_match, load_rules, new_run, local_effects, with_run,
}
use i_mail.RuleRuns.Saving.{save_mail_rule}
use i_mail.RuleRuns.Actions.{claim_rule_action, rule_message, start_run}
use i_mail.RuleRuns.Finish.{done, failure, finish_rule_action, advance_run, set_archived, inbox_job}
use i_mail.Rules.Matching.{matches, condition_matches, matching_rules}
use i_mail.RuleRuns.Previews.{apply_mail_rule_preview, store_labels}
use i_mail.RuleRuns.Applied.{apply_once}
use i_mail.RuleRuns.Steps.{RuleState, state, finish, stop, next}
use i_mail.RuleRuns.Logged.{IsLogged}
use i_mail.RuleRuns.Kept.{step-IsLogged}
use i_mail.RuleRuns.Once.{archive_once}
use i_mail.RuleRuns.Chosen.{IsChosen}
use i_mail.RuleRuns.Claims.{claim_first}
use i_mail.RuleRuns.Effects.{IsSaved, finish_once, save_fences}
use i_mail.RuleRuns.Wakes.{enqueue_match_once}

abbrev input : MailRuleInput
input = record {
  name = codes "file";
  enabled = true;
  priority = 5;
  account_ids = codes "a" ∷ [];
  match_mode = match_all;
  conditions = unread true ∷ [];
  actions = add_label (codes "L") ∷ archive ∷ [];
  stop_processing = true;
}

abbrev rule : MailRule
rule = record {
  id = codes "r";
  revision = 1;
  input = input;
  created_at = codes "2026";
  updated_at = codes "2026";
}

abbrev message : MessageRow
message = record {
  id = codes "m";
  message_id = some (codes "x");
  mailbox = codes "INBOX";
  uid = 7;
  received_at = codes "2026";
  snoozed_until = none;
  view = record {
    account_id = codes "a";
    mailbox_role = codes "inbox";
    from = string (codes "Ann@x.org");
    to = array end;
    cc = [];
    subject = codes "invoice 7";
    text = [];
    unread = true;
    flagged = false;
    has_attachments = false;
    labels = null;
  };
}

-- A run of two actions.
abbrev waiting_run : RunRow
waiting_run = record {
  sequence = 1;
  id = codes "n";
  user_id = codes "u";
  rule_id = codes "r";
  rule_name = codes "file";
  revision = 1;
  account_id = codes "a";
  message_id = codes "m";
  identity = codes "rfc:x";
  source = codes "sync";
  status = pending;
  actions = archive ∷ flag true ∷ [];
  completed_actions = 0;
  local_actions = 1;
  attempts = 0;
  error_code = none;
  lease_until = none;
  created_at = 1;
  updated_at = 1;
}

abbrev store_of : RunRow → RuleStore
store_of r = record {
  accounts = record { id = codes "a"; user_id = codes "u" } ∷ [];
  rules = record { user_id = codes "u"; rule = rule } ∷ [];
  runs = r ∷ [];
  messages = message ∷ [];
  mutes = [];
  previews = [];
  jobs = [];
  next_sequence = 2;
}

abbrev store : RuleStore
store = store_of waiting_run

store-IsLogged : IsLogged store.runs []
store-IsLogged = record { unique = (tt, tt); issued = tt }

abbrev work : RuleWork
work = record {
  id = codes "n";
  message = message;
  action = archive;
  index = 0;
  lease = 600_000_000_006;
}

abbrev started : RuleStore
started = store_of (start_run 600_000_000_006 5 waiting_run)

claimed : claim_rule_action (codes "u") (codes "a") 5 6 store ≡ ok (some work, started)
unfolding claim_rule_action rule_message
claimed = refl

-- The archive is confirmed at another place of the mailbox.
abbrev archived : MessageRow
archived = set_archived (codes "Archive") 3 message

abbrev moved : RuleStore
moved = record (store_of (advance_run started.rules 8 (start_run 600_000_000_006 5 waiting_run))) {
  messages = archived ∷ [];
}

abbrev receipt : Option RemoteMove
receipt = some (record { mailbox = codes "Archive"; uid = some 3 })

finished : finish_rule_action (codes "u") work (done receipt) 8 9 started ≡ ok moved
unfolding finish_rule_action
finished = refl

abbrev second : RuleWork
second = record {
  id = codes "n";
  message = archived;
  action = flag true;
  index = 1;
  lease = 600_000_000_011;
}

abbrev restarted : RuleStore
restarted = record moved {
  runs =
      start_run 600_000_000_011 10
        (advance_run started.rules 8 (start_run 600_000_000_006 5 waiting_run))
      ∷ [];
}

claimed_again : claim_rule_action (codes "u") (codes "a") 10 11 moved ≡ ok (some second, restarted)
unfolding claim_rule_action rule_message
claimed_again = refl

abbrev logged : RuleState
logged = state started (work ∷ [])

archive_once_example : 0 < 1
archive_once_example =
    archive_once (codes "u") (codes "a") 5 6 (state store []) (state moved (work ∷ [])) work started
      store-IsLogged claimed refl
      (next (finish (codes "u") 0 work (done receipt) 8 9 logged moved refl finished) stop)
      (codes "u") (codes "a") 10 11 second restarted claimed_again refl

step-IsLogged_example : IsLogged moved.runs (work ∷ [])
step-IsLogged_example =
    step-IsLogged (finish (codes "u") 0 work (done receipt) 8 9 logged moved refl finished)
      (record {
        unique = (tt, tt);
        issued = (record { exists = here refl; action = (λ e. refl, tt) }, tt);
      })

claim_first_example : (r : RunRow) × IsChosen (codes "u") (codes "a") 5 store work r
claim_first_example = claim_first (codes "u") (codes "a") 5 6 store started work claimed

finish_once_example :
    finish_rule_action (codes "v") work (failure (codes "CANCELLED")) 12 13 moved
    ≡ err invalid_content_data
finish_once_example =
    finish_once (codes "u") work (done receipt) 8 9 started moved finished (codes "v")
      (failure (codes "CANCELLED")) 12 13

abbrev stamp : ℕ → Text
stamp n = codes "2027"

abbrev revised : MailRule
revised = record {
  id = codes "r";
  revision = 2;
  input = input;
  created_at = codes "2026";
  updated_at = codes "2027";
}

abbrev saved : RuleStore
saved = record store {
  rules = record { user_id = codes "u"; rule = revised } ∷ [];
  runs = record waiting_run { status = cancelled; updated_at = 20 } ∷ [];
}

was_saved :
    save_mail_rule stamp (codes "f") (codes "u") (some (codes "r")) input 20 store
    ≡ ok (some revised, saved)
unfolding save_mail_rule load_rules validate valid_text valid_mail_address is_blank is_whitespace
    is_control
was_saved = refl

save_fences_example : IsSaved (codes "u") revised store.runs saved × (revised.input ≡ input)
save_fences_example =
    save_fences stamp (codes "f") (codes "u") (some (codes "r")) input 20 store saved revised
      was_saved

abbrev failing : RuleStore
failing = record (store_of (record waiting_run { status = failed })) {
  jobs =
      record {
        id = codes "j";
        account_id = codes "a";
        mailbox = none;
        mailbox_role = codes "inbox";
        reason = codes "scheduled";
        status = active;
        priority = 5;
        not_before = 0;
        rerun_requested = false;
      }
      ∷ [];
}

-- A rule of another identifier matches the message.
abbrev other : MailRule
other = record rule { id = codes "o" }

abbrev before : Matched
before = record { store = store; message = message; count = 0 }

abbrev matched : Matched
matched =
    let run = new_run 2 (codes "k") (codes "u") other message (codes "sync") 3 in
    local_effects other (with_run run before)

was_matched : enqueue_match (codes "k") (codes "u") other (codes "sync") 3 before ≡ ok matched
unfolding enqueue_match message_identity is_remote is_blank is_whitespace
was_matched = refl

enqueue_match_once_example :
    enqueue_match (codes "l") (codes "u") other (codes "manual") 4 matched ≡ ok matched
enqueue_match_once_example =
    enqueue_match_once (codes "k") (codes "l") (codes "u") other (codes "sync") (codes "manual") 3 4
      before matched (refl, tt) was_matched

-- A preview of the rule on the message, and what is left when it is applied.
abbrev to_lower : Text → Text
to_lower t = t

abbrev print_of : MessageRow → Text
print_of m = m.id

abbrev ids : ℕ → ℕ → Text
ids n k = n ∷ k ∷ []

abbrev preview : PreviewRow
preview = record {
  id = codes "t";
  user_id = codes "u";
  rule_id = codes "r";
  revision = 1;
  messages = record { id = codes "m"; fingerprint = codes "m" } ∷ [];
  expires_at = 50;
}

abbrev previewed : RuleStore
previewed = record store { runs = []; previews = preview ∷ [] }

abbrev applied_match : Matched
applied_match =
    let w : Matched = record { store = previewed; message = message; count = 0 } in
    local_effects rule
      (with_run (new_run 2 (0 ∷ 1 ∷ []) (codes "u") rule message (codes "manual") 31) w)

abbrev applied : RuleStore
applied = record (store_labels to_lower print_of applied_match) {
  jobs = inbox_job (0 ∷ 0 ∷ []) (codes "a") 31 ∷ [];
  previews = [];
}

was_applied :
    apply_mail_rule_preview to_lower print_of ids (codes "u") (codes "t") 30 31 previewed
    ≡ ok (1, applied)
unfolding apply_mail_rule_preview load_rules rule_message enqueue_matches enqueue_match
    matching_rules matches condition_matches validate valid_text valid_mail_address message_identity
    is_remote is_blank is_whitespace is_control push_end
was_applied = refl

apply_once_example :
    apply_mail_rule_preview to_lower print_of ids (codes "u") (codes "t") 40 41 applied
    ≡ err invalid_content_data
apply_once_example =
    apply_once to_lower print_of ids (codes "u") (codes "t") 30 31 previewed applied 1 was_applied
      ids (codes "u") 40 41
