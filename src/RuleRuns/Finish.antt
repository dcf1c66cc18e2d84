-- ===== src/RuleRuns/Finish.antt =====
-- `finish_rule_action` and `retry_mail_rule_run` of crates/imail-storage-sqlite/src/rules.rs.
use i_mail.Base.{
  ℕ, ◌+◌, suc, Bool, true, false, not, ◌&&◌, ◌||◌, Option, none, some, List, [], ◌∷◌, ◌++◌, length,
  if◌then◌else◌, leb, ◌==◌,
}
use i_mail.Base.Table.{update_where, exists_where, find_where}
use i_mail.Base.Texts.{Text, codes, text_eq}
use i_mail.Base.Result.{Result, ok, err, ◌>>=◌, ◌>>◌, fail_if, ok_or}
use i_mail.Rules.Types.{RuleAction, mark_read, flag, archive}
use i_mail.RuleRuns.Types.{
  RuleStore, RuleRow, RunRow, MessageRow, JobRow, RuleWork, RemoteMove, RunStatus, StoreError,
  invalid_content_data, pending, succeeded, failed, needs_review, cancelled, is_running, has_failed,
  has_run_id, SyncJobStatus, queued, active,
}
use i_mail.RuleRuns.Actions.{is_current, is_archive, one_minute}

-- What a worker reports: what the server answered, or the code of an error.
pub data ActionOutcome : Type 0 where
  done : Option RemoteMove → ActionOutcome
  failure : Text → ActionOutcome

abbrev pub is_lease : Option ℕ → ℕ → Bool
is_lease none lease = false
is_lease (some t) lease = t == lease

-- The run is still the one that the work was handed out for.
abbrev pub holds : Text → RuleWork → RunRow → Bool
holds owner w r =
    has_run_id w.id r
    && text_eq r.user_id owner
    && is_running r.status
    && r.completed_actions == w.index
    && is_lease r.lease_until w.lease

abbrev pub is_work_message : RuleWork → MessageRow → Bool
is_work_message w m =
    text_eq m.id w.message.id && text_eq m.view.account_id w.message.view.account_id

abbrev pub set_unread : Bool → MessageRow → MessageRow
set_unread b m = record m { view = record m.view { unread = b } }

abbrev pub set_flagged : Bool → MessageRow → MessageRow
set_flagged b m = record m { view = record m.view { flagged = b } }

abbrev pub set_archived : Text → ℕ → MessageRow → MessageRow
set_archived mailbox uid m = record m {
  mailbox = mailbox;
  uid = uid;
  snoozed_until = none;
  view = record m.view { mailbox_role = codes "archive" };
}

abbrev pub move_uid : Option RemoteMove → Option ℕ
move_uid none = none
move_uid (some v) = v.uid

abbrev pub move_mailbox : Option RemoteMove → Text
move_mailbox none = []
move_mailbox (some v) = v.mailbox

-- The change of the message that an action confirms.
abbrev pub message_change :
    RuleAction → Option RemoteMove → Result StoreError (MessageRow → MessageRow)
message_change (mark_read b) moved = ok (set_unread (not b))
message_change (flag b) moved = ok (set_flagged b)
message_change archive moved = do
  uid ← ok_or invalid_content_data (move_uid moved)
  ok (set_archived (move_mailbox moved) uid)
message_change _ moved = err invalid_content_data

abbrev pub done_status : List RuleRow → RunRow → RunStatus
done_status rules r =
    if r.completed_actions + 1 == length r.actions
    then succeeded
    else if is_current rules r
    then pending
    else cancelled

abbrev pub advance_run : List RuleRow → ℕ → RunRow → RunRow
advance_run rules now r = record r {
  completed_actions = suc r.completed_actions;
  status = done_status rules r;
  attempts = 0;
  error_code = none;
  lease_until = none;
  updated_at = now;
}

-- The codes that are kept; any other text could hold what a provider said.
abbrev pub public_code : Text → Text
public_code code =
    if text_eq code (codes "MESSAGE_NOT_FOUND")
      || text_eq code (codes "MOVE_UNCONFIRMED")
      || text_eq code (codes "CANCELLED")
    then code
    else codes "REMOTE_ACTION_FAILED"

abbrev pub failed_status : Bool → List RuleRow → RunRow → RunStatus
failed_status uncertain rules r =
    if uncertain
    then needs_review
    else if is_current rules r
    then if leb 3 r.attempts then failed else pending
    else cancelled

abbrev pub fail_run : Bool → Text → List RuleRow → ℕ → ℕ → RunRow → RunRow
fail_run uncertain code rules now later r = record r {
  status = failed_status uncertain rules r;
  error_code = some (public_code code);
  lease_until = some (later + one_minute);
  updated_at = now;
}

abbrev pub finish_with : RuleWork → ℕ → ℕ → RuleStore → ActionOutcome → Result StoreError RuleStore
finish_with w now later s (done moved) = do
  change ← message_change w.action moved
  ok (record s {
    messages = update_where (is_work_message w) change s.messages;
    runs = update_where (has_run_id w.id) (advance_run s.rules now) s.runs;
  })
finish_with w now later s (failure code) = ok (record s {
  runs =
      update_where (has_run_id w.id) (fail_run (is_archive (some w.action)) code s.rules now later)
        s.runs;
})

-- An action that is done, or that failed; `now` and `later` are the two readings of the clock.
unfoldable pub finish_rule_action :
    Text → RuleWork → ActionOutcome → ℕ → ℕ → RuleStore → Result StoreError RuleStore
finish_rule_action owner w outcome now later s = do
  fail_if (not (exists_where (holds owner w) s.runs)) invalid_content_data
  finish_with w now later s outcome

abbrev pub is_retryable : Text → Text → List RuleRow → RunRow → Bool
is_retryable owner id rules r =
    is_current rules r && has_run_id id r && text_eq r.user_id owner && has_failed r.status

abbrev pub retry_run : ℕ → RunRow → RunRow
retry_run now r = record r {
  status = pending;
  attempts = 0;
  error_code = none;
  lease_until = none;
  updated_at = now;
}

abbrev pub inbox_job : Text → Text → ℕ → JobRow
inbox_job id account now = record {
  id = id;
  account_id = account;
  mailbox = none;
  mailbox_role = codes "inbox";
  reason = codes "manual";
  status = queued;
  priority = 10;
  not_before = now;
  rerun_requested = false;
}

abbrev pub is_waiting : SyncJobStatus → Bool
is_waiting queued = true
is_waiting active = true
is_waiting _ = false

abbrev pub is_active_job : SyncJobStatus → Bool
is_active_job active = true
is_active_job _ = false

abbrev pub or_empty : Option Text → Text
or_empty none = []
or_empty (some t) = t

-- A waiting job for the target of `j`, of which the index `sync_jobs_active_target` allows one.
abbrev pub is_same_target : JobRow → JobRow → Bool
is_same_target j x =
    is_waiting x.status
    && text_eq x.account_id j.account_id
    && text_eq (or_empty x.mailbox) (or_empty j.mailbox)
    && text_eq x.mailbox_role j.mailbox_role

-- The primary key, and that index.
abbrev pub job_clash : JobRow → JobRow → Bool
job_clash j x = text_eq x.id j.id || is_same_target j x

abbrev pub is_active_of : Text → JobRow → Bool
is_active_of account j = text_eq j.account_id account && is_active_job j.status

abbrev pub ask_rerun : JobRow → JobRow
ask_rerun j = record j { rerun_requested = true }

-- INSERT OR IGNORE of an inbox job, then the request to the jobs that run.
abbrev pub wake_sync : Text → Text → ℕ → List JobRow → List JobRow
wake_sync fresh account now jobs =
    let job = inbox_job fresh account now in
    update_where (is_active_of account) ask_rerun
      (if exists_where (job_clash job) jobs then jobs else jobs ++ job ∷ [])

abbrev pub retry_found : Text → Text → ℕ → RuleStore → Option RunRow → Bool × RuleStore
retry_found fresh id now s none = (false, s)
retry_found fresh id now s (some r) = (
  true,
  record s {
    runs = update_where (has_run_id id) (retry_run now) s.runs;
    jobs = wake_sync fresh r.account_id now s.jobs;
  },
)

unfoldable pub retry_mail_rule_run : Text → Text → Text → ℕ → RuleStore → Bool × RuleStore
retry_mail_rule_run fresh owner id now s =
    retry_found fresh id now s (find_where (is_retryable owner id s.rules) s.runs)
