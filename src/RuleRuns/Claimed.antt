-- ===== src/RuleRuns/Claimed.antt =====
-- The cases of `claim_rule_action` in crates/imail-storage-sqlite/src/rules.rs.
use i_mail.Base.{
  arith, ◌+◌, ℕ, ◌≡◌, refl, Bool, true, not, ◌&&◌, Option, none, some, List, get_elem?, All,
  All-map, All-refl, Any,
}
use i_mail.Base.Table.{update_where, exists_where, first_where}
use i_mail.Base.Selection.{first_where-Any, first_where-All}
use i_mail.Base.Unique.{IsUnique, All-only, Any-map}
use i_mail.Base.Texts.{Text, text_eq, text_eq_refl}
use i_mail.Base.Result.{Returns, Returns-bind, Returns-any, Returns-guard, ok, ok_or, ok_or-some}
use i_mail.Rules.Types.{RuleAction}
use i_mail.RuleRuns.Types.{
  RuleStore, RunRow, MessageRow, RuleWork, has_run_id, invalid_content_data, account_not_owned,
  owns, is_pending,
}
use i_mail.RuleRuns.Actions.{
  is_run_of, is_free, is_before, is_interrupted, interrupt, is_outdated, cancel_outdated,
  recover_runs, start_run, lose_message, is_ready_run, sequence_before, next_action, hand_out,
  claim_run, claim_rule_action, rule_message, ten_minutes,
}
use i_mail.RuleRuns.Steps.{note}
use i_mail.RuleRuns.Logged.{
  same_run_id, has_run_id-IsOnly, IsIssued, IsIssued-update, IsLogged, IsLogged-update,
}

pub recover_runs-IsLogged :
    (owner account : Text) (now : ℕ) (s : RuleStore) (ws : List RuleWork)
    → IsLogged s.runs ws
    → IsLogged (recover_runs owner account now s.rules s.runs) ws
recover_runs-IsLogged owner account now s ws h =
    IsLogged-update (is_outdated owner account s.rules) (cancel_outdated now) (λ r. refl)
      (λ r. refl) (update_where (is_interrupted owner account now) (interrupt now) s.runs) ws
      (IsLogged-update (is_interrupted owner account now) (interrupt now) (λ r. refl) (λ r. refl)
        s.runs ws h)

-- A claim, case by case: no run is ready; the message of the ready run is gone; or its next action is
-- handed out.
and_parts : (a b c d : Bool) → (a && b && c && d) ≡ true → b ≡ true
and_parts a b c d h = ground (arith, h)

module _ (owner account : Text) (now later : ℕ) (s : RuleStore) where
  abbrev pub recovered : List RunRow
  recovered = recover_runs owner account now s.rules s.runs

  abbrev pub after : RuleStore
  after = record s { runs = recovered }

  pub claim-Returns :
      (Q : Option RuleWork × RuleStore → Type 0)
      → Q (none, after)
      → ((r : RunRow) (a : RuleAction)
          → first_where sequence_before (is_ready_run owner account now recovered) recovered
            ≡ some r
          → next_action r ≡ some a
          → (m : Option MessageRow) → m ≡ rule_message owner r.message_id after
          → Q (hand_out r a now later after m))
      → Returns Q (claim_rule_action owner account now later s)
  unfolding claim_rule_action
  claim-Returns Q q k =
      let best = first_where sequence_before (is_ready_run owner account now recovered) recovered in
      Returns-guard Q (not (exists_where (owns owner account) s.accounts)) account_not_owned
        (claim_run owner now later after best) (λ g. cases best refl)
    where
      cases :
          (o : Option RunRow)
          → first_where sequence_before (is_ready_run owner account now recovered) recovered ≡ o
          → Returns Q (claim_run owner now later after o)
      cases none e = q
      cases (some r) e =
          Returns-bind (λ a. Unit) Q (ok_or invalid_content_data (next_action r))
            (λ a. ok (hand_out r a now later after (rule_message owner r.message_id after)))
            (Returns-any (ok_or invalid_content_data (next_action r)))
            (λ a e' h.
              k r a e (ok_or-some invalid_content_data (next_action r) a e')
                (rule_message owner r.message_id after) refl)

  -- The run that is picked is a row of the recovered table, and is pending.
  pub picked :
      (r : RunRow)
      → first_where sequence_before (is_ready_run owner account now recovered) recovered ≡ some r
      → Any (λ x. x ≡ r) recovered × (is_pending r.status ≡ true)
  picked r e =
      let ready =
        (first_where-All (λ x. x ≡ x) (is_ready_run owner account now recovered) sequence_before
          recovered r (All-refl recovered) e).1 in
      (
        first_where-Any sequence_before (is_ready_run owner account now recovered) recovered r e,
        and_parts (is_run_of owner account r) (is_pending r.status) (is_free r.lease_until now)
            (not (exists_where (is_before r) recovered)) ready,
      )

-- In a table with unique identifiers the test of the update finds the run only.
pub only_run :
    (runs : List RunRow) (r : RunRow)
    → IsUnique same_run_id runs
    → Any (λ x. x ≡ r) runs
    → All (λ x. has_run_id r.id x ≡ true → x ≡ r) runs
only_run runs r u m = All-only same_run_id (has_run_id r.id) r runs (has_run_id-IsOnly r) u m

hand_out-IsLogged :
    (now later : ℕ) (r : RunRow) (a : RuleAction) (s : RuleStore) (ws : List RuleWork)
    → IsLogged s.runs ws
    → Any (λ x. x ≡ r) s.runs
    → next_action r ≡ some a
    → (m : Option MessageRow)
    → IsLogged (hand_out r a now later s m).1.runs (note (hand_out r a now later s m).0 ws)
hand_out-IsLogged now later r a s ws h m e none =
    IsLogged-update (has_run_id r.id) (lose_message now) (λ x. refl) (λ x. refl) s.runs ws h
hand_out-IsLogged now later r a s ws h m e (some msg) =
    let f = start_run (later + ten_minutes) now in
    let kept = IsLogged-update (has_run_id r.id) f (λ x. refl) (λ x. refl) s.runs ws h in
    let w : RuleWork = record {
      id = r.id;
      message = msg;
      action = a;
      index = r.completed_actions;
      lease = later + ten_minutes;
    } in
    let issued : IsIssued s.runs w = record {
      exists =
          Any-map (λ x. x ≡ r) (λ x. text_eq x.id r.id ≡ true) (λ x t. rw t (text_eq_refl r.id))
            s.runs m;
      action =
          All-map (λ x. has_run_id r.id x ≡ true → x ≡ r)
            (λ x. text_eq x.id r.id ≡ true → get_elem? x.actions r.completed_actions ≡ some a)
            (λ x k t. rw (k t) e) s.runs (only_run s.runs r h.unique m);
    } in
    record {
      unique = kept.unique;
      issued = (
        IsIssued-update (has_run_id r.id) f (λ x. refl) (λ x. refl) s.runs w issued,
        kept.issued,
      );
    }

pub claim-IsLogged :
    (owner account : Text) (now later : ℕ) (s : RuleStore) (ws : List RuleWork)
    → IsLogged s.runs ws
    → Returns (λ q. IsLogged q.1.runs (note q.0 ws)) (claim_rule_action owner account now later s)
claim-IsLogged owner account now later s ws h =
    let kept = recover_runs-IsLogged owner account now s ws h in
    claim-Returns owner account now later s (λ q. IsLogged q.1.runs (note q.0 ws)) kept
      (λ r a e n m f.
        hand_out-IsLogged now later r a (after owner account now later s) ws kept
          (picked owner account now later s r e).0 n m)
