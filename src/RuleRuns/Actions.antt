-- ===== src/RuleRuns/Actions.antt =====
-- `has_pending_rule_actions` and `claim_rule_action` of crates/imail-storage-sqlite/src/rules.rs, and
-- `rule_message` of content_data.rs there.
use i_mail.Base.{
  ℕ, ◌+◌, suc, Bool, true, false, not, ◌&&◌, ◌||◌, Option, none, some, List, get_elem?,
  if◌then◌else◌, ltb, leb, ◌==◌,
}
use i_mail.Base.Table.{update_where, exists_where, find_where, first_where}
use i_mail.Base.Texts.{Text, codes, text_eq}
use i_mail.Base.Result.{Result, ok, ◌>>=◌, ◌>>◌, fail_if, ok_or}
use i_mail.Rules.Types.{RuleAction, archive}
use i_mail.RuleRuns.Types.{
  RuleStore, RuleRow, RunRow, MessageRow, RuleWork, StoreError, account_not_owned,
  invalid_content_data, pending, running, failed, needs_review, cancelled, is_pending, is_running,
  is_unfinished, owns, has_run_id,
}

abbrev pub is_run_of : Text → Text → RunRow → Bool
is_run_of owner account r = text_eq r.user_id owner && text_eq r.account_id account

unfoldable pub has_pending_rule_actions : Text → Text → RuleStore → Bool
has_pending_rule_actions owner account s =
    exists_where (λ r. is_run_of owner account r && (is_pending r.status || is_running r.status))
      s.runs

abbrev pub is_archive : Option RuleAction → Bool
is_archive (some archive) = true
is_archive _ = false

abbrev pub next_action : RunRow → Option RuleAction
next_action r = get_elem? r.actions r.completed_actions

abbrev pub passed : Option ℕ → ℕ → Bool
passed none now = false
passed (some t) now = ltb t now

-- A command whose lease has run out.
abbrev pub is_interrupted : Text → Text → ℕ → RunRow → Bool
is_interrupted owner account now r =
    is_run_of owner account r && is_running r.status && passed r.lease_until now

abbrev pub interrupt : ℕ → RunRow → RunRow
interrupt now r = record r {
  status = if is_archive (next_action r) then needs_review else pending;
  error_code = some (codes "INTERRUPTED");
  updated_at = now;
}

-- The rule of the run still stands at the revision of the run.
abbrev pub is_current : List RuleRow → RunRow → Bool
is_current rules r =
    exists_where
      (λ x.
        text_eq x.rule.id r.rule_id && text_eq x.user_id r.user_id && x.rule.revision == r.revision)
      rules

abbrev pub is_outdated : Text → Text → List RuleRow → RunRow → Bool
is_outdated owner account rules r =
    is_run_of owner account r && is_pending r.status && not (is_current rules r)

abbrev pub cancel_outdated : ℕ → RunRow → RunRow
cancel_outdated now r = record r { status = cancelled; lease_until = none; updated_at = now }

abbrev pub is_free : Option ℕ → ℕ → Bool
is_free none now = true
is_free (some t) now = leb t now

-- An unfinished run on the same message that was made earlier.
abbrev pub is_before : RunRow → RunRow → Bool
is_before r e =
    text_eq e.account_id r.account_id
    && text_eq e.identity r.identity
    && ltb e.sequence r.sequence
    && is_unfinished e.status

abbrev pub is_ready_run : Text → Text → ℕ → List RunRow → RunRow → Bool
is_ready_run owner account now runs r =
    is_run_of owner account r
    && is_pending r.status
    && is_free r.lease_until now
    && not (exists_where (is_before r) runs)

abbrev pub sequence_before : RunRow → RunRow → Bool
sequence_before a b = ltb a.sequence b.sequence

-- The two updates before a run is picked.
abbrev pub recover_runs : Text → Text → ℕ → List RuleRow → List RunRow → List RunRow
recover_runs owner account now rules runs =
    update_where (is_outdated owner account rules) (cancel_outdated now)
      (update_where (is_interrupted owner account now) (interrupt now) runs)

unfoldable pub rule_message : Text → Text → RuleStore → Option MessageRow
rule_message owner id s =
    find_where (λ m. text_eq m.id id && exists_where (owns owner m.view.account_id) s.accounts)
      s.messages

abbrev pub start_run : ℕ → ℕ → RunRow → RunRow
start_run lease now r = record r {
  status = running;
  lease_until = some lease;
  attempts = suc r.attempts;
  updated_at = now;
}

abbrev pub lose_message : ℕ → RunRow → RunRow
lose_message now r = record r {
  status = failed;
  error_code = some (codes "MESSAGE_NOT_FOUND");
  updated_at = now;
}

-- Ten minutes and one minute, in nanoseconds.
abbrev pub ten_minutes : ℕ
ten_minutes = 600_000_000_000

abbrev pub one_minute : ℕ
one_minute = 60_000_000_000

abbrev pub hand_out :
    RunRow → RuleAction → ℕ → ℕ → RuleStore → Option MessageRow → Option RuleWork × RuleStore
hand_out r action now later s none =
    (none, record s { runs = update_where (has_run_id r.id) (lose_message now) s.runs })
hand_out r action now later s (some m) =
    let lease = later + ten_minutes in
    (
      some (record {
        id = r.id;
        message = m;
        action = action;
        index = r.completed_actions;
        lease = lease;
      }),
      record s { runs = update_where (has_run_id r.id) (start_run lease now) s.runs },
    )

-- The rest of the claim, for the run that was picked.
abbrev pub claim_run :
    Text → ℕ → ℕ → RuleStore → Option RunRow → Result StoreError (Option RuleWork × RuleStore)
claim_run owner now later s none = ok (none, s)
claim_run owner now later s (some r) = do
  action ← ok_or invalid_content_data (next_action r)
  ok (hand_out r action now later s (rule_message owner r.message_id s))

-- `now` and `later` are the two readings of the clock.
unfoldable pub claim_rule_action :
    Text → Text → ℕ → ℕ → RuleStore → Result StoreError (Option RuleWork × RuleStore)
claim_rule_action owner account now later s =
    let runs = recover_runs owner account now s.rules s.runs in
    do
      fail_if (not (exists_where (owns owner account) s.accounts)) account_not_owned
      claim_run owner now later (record s { runs = runs })
          (first_where sequence_before (is_ready_run owner account now runs) runs)
