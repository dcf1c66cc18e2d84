-- ===== src/RuleRuns/Spending.antt =====
-- `claim_rule_action` of crates/imail-storage-sqlite/src/rules.rs and a spent archive action.
use i_mail.Base.{
  ℕ, ◌≡◌, refl, sym, subst, Bool, true, false, Option, none, some, List, ltb, ◌+◌, All, All-map,
  All-Any, Any, contradict, arith,
}
use mathlib.Core.Option.{some-injective}
use i_mail.Base.Table.{update_where, All-update_map}
use i_mail.Base.Unique.{IsUnique, All-always, Any-update_where, Any-map}
use i_mail.Base.Texts.{Text, text_eq, text_eq_refl}
use i_mail.Base.Result.{Returns}
use i_mail.Rules.Types.{RuleAction}
use i_mail.RuleRuns.Types.{
  RuleStore, RunRow, MessageRow, RuleWork, RunStatus, running, is_pending, has_run_id, failed,
}
use i_mail.RuleRuns.Actions.{
  is_interrupted, interrupt, is_outdated, cancel_outdated, recover_runs, start_run, lose_message,
  next_action, hand_out, claim_rule_action, ten_minutes, is_archive,
}
use i_mail.RuleRuns.Spent.{
  waits, has_archive, spent_by, is_spent, IsSpent, IsSpent-update, spent_by-status, spent_by-behind,
  interrupt-spent,
}
use i_mail.RuleRuns.Logged.{IsLogged, same_run_id}
use i_mail.RuleRuns.Claimed.{
  recovered, after, claim-Returns, picked, only_run, recover_runs-IsLogged,
}

module _ (i : Text) (k : ℕ) where
  -- An update that leaves the completed actions alone and makes no run wait.
  pub quiet-IsSpent :
      (p : RunRow → Bool) (f : RunRow → RunRow)
      → ((r : RunRow) → (f r).id ≡ r.id)
      → ((r : RunRow) → (f r).actions ≡ r.actions)
      → ((r : RunRow) → (f r).completed_actions ≡ r.completed_actions)
      → ((r : RunRow) → waits (f r).status ≡ false)
      → (runs : List RunRow) → IsSpent i k runs
      → IsSpent i k (update_where p f runs)
  quiet-IsSpent p f ids acts done calm runs s =
      IsSpent-update i k p f ids acts runs
        (All-always _
          (λ r t e a h.
            rw (done r)
              (spent_by-status k r.completed_actions r.status (f r).status h (λ c w. calm r)))
          runs)
        s

  recover_runs-IsSpent :
      (owner account : Text) (now : ℕ) (s : RuleStore)
      → IsSpent i k s.runs
      → IsSpent i k (recover_runs owner account now s.rules s.runs)
  recover_runs-IsSpent owner account now s h =
      quiet-IsSpent (is_outdated owner account s.rules) (cancel_outdated now) (λ r. refl)
        (λ r. refl) (λ r. refl) (λ r. refl)
        (update_where (is_interrupted owner account now) (interrupt now) s.runs)
        (IsSpent-update i k (is_interrupted owner account now) (interrupt now) (λ r. refl)
          (λ r. refl) s.runs (All-always _ (λ r t e a g. interrupt-spent now k r a g) s.runs) h)

  -- A run that waits is past its action `k`, and stays so in any status.
  pub waiting-spent :
      (r x : RunRow) (st : RunStatus)
      → x ≡ r
      → waits r.status ≡ true
      → is_spent k x ≡ true
      → spent_by k x.completed_actions st ≡ true
  waiting-spent r x st e w h =
      let b : ltb k x.completed_actions ≡ true =
        spent_by-behind k x.completed_actions x.status h
          (subst (λ y. waits y.status ≡ true) (sym e) w) in
      rw b refl

  hand_out-IsSpent :
      (now later : ℕ) (r : RunRow) (a : RuleAction) (s : RuleStore)
      → IsUnique same_run_id s.runs
      → Any (λ x. x ≡ r) s.runs
      → is_pending r.status ≡ true
      → IsSpent i k s.runs
      → (m : Option MessageRow) → IsSpent i k (hand_out r a now later s m).1.runs
  hand_out-IsSpent now later r a s u m p h (some msg) =
      quiet-IsSpent (has_run_id r.id) (start_run (later + ten_minutes) now) (λ x. refl) (λ x. refl)
        (λ x. refl) (λ x. refl) s.runs h
  hand_out-IsSpent now later r a s u m p h none =
      IsSpent-update i k (has_run_id r.id) (lose_message now) (λ x. refl) (λ x. refl) s.runs
        (All-map (λ x. has_run_id r.id x ≡ true → x ≡ r) _
          (λ x only t e g d.
            (let w : waits r.status ≡ true = rw p refl in waiting-spent r x failed (only t) w d))
          s.runs (only_run s.runs r u m))
        h

  pub claim-IsSpent :
      (owner account : Text) (now later : ℕ) (s : RuleStore) (ws : List RuleWork)
      → IsLogged s.runs ws
      → IsSpent i k s.runs
      → Returns (λ q. IsSpent i k q.1.runs) (claim_rule_action owner account now later s)
  claim-IsSpent owner account now later s ws l h =
      let kept = recover_runs-IsSpent owner account now s h in
      let logged = recover_runs-IsLogged owner account now s ws l in
      claim-Returns owner account now later s (λ q. IsSpent i k q.1.runs) kept
        (λ r a e n m g.
          let (listed, waiting) = picked owner account now later s r e in
          hand_out-IsSpent now later r a (after owner account now later s) logged.unique listed
            waiting kept m)

  -- What is handed out of a spent run is a later action.
  pub claim-later :
      (owner account : Text) (now later : ℕ) (s : RuleStore)
      → IsSpent i k s.runs
      → Returns
          (λ q. (w : RuleWork) → q.0 ≡ some w → text_eq w.id i ≡ true → ltb k w.index ≡ true)
          (claim_rule_action owner account now later s)
  claim-later owner account now later s h =
      let kept = recover_runs-IsSpent owner account now s h in
      claim-Returns owner account now later s _ (λ w e t. cc)
        (λ r a e n m g.
          let (listed, waiting) = picked owner account now later s r e in
          cases r a
            (All-Any (λ x. text_eq x.id i ≡ true → is_spent k x ≡ true) _ r kept.spent listed)
            waiting m)
    where
      cases :
          (r : RunRow) (a : RuleAction)
          → (text_eq r.id i ≡ true → is_spent k r ≡ true)
          → is_pending r.status ≡ true
          → (m : Option MessageRow) (w : RuleWork)
          → (hand_out r a now later (after owner account now later s) m).0 ≡ some w
          → text_eq w.id i ≡ true
          → ltb k w.index ≡ true
      cases r a sp p none w e t = cc
      cases r a sp p (some msg) w e t =
          let v = some-injective _ w e in
          let t' : text_eq r.id i ≡ true = subst (λ x. text_eq x.id i ≡ true) (sym v) t in
          let pending : waits r.status ≡ true = rw p refl in
          subst (λ x. ltb k x.index ≡ true) v
            (spent_by-behind k r.completed_actions r.status (sp t') pending)

running-spent : (k : ℕ) → spent_by k k running ≡ true
running-spent k = ground arith

-- A claim that hands out an archive spends it.
pub claim-IsSpent_new :
    (owner account : Text) (now later : ℕ) (s : RuleStore) (ws : List RuleWork)
    → IsLogged s.runs ws
    → Returns
        (λ q.
          (w : RuleWork)
          → q.0 ≡ some w
          → is_archive (some w.action) ≡ true
          → IsSpent w.id w.index q.1.runs)
        (claim_rule_action owner account now later s)
claim-IsSpent_new owner account now later s ws l =
    let logged = recover_runs-IsLogged owner account now s ws l in
    claim-Returns owner account now later s _ (λ w e t. cc)
      (λ r a e n m g.
        cases r a n (picked owner account now later s r e).0
          (only_run (recovered owner account now later s) r logged.unique
            (picked owner account now later s r e).0)
          m)
  where
    started :
        (r : RunRow) (a : RuleAction) (lease : ℕ)
        → next_action r ≡ some a
        → is_archive (some a) ≡ true
        → (runs : List RunRow) → Any (λ x. x ≡ r) runs
        → All (λ x. has_run_id r.id x ≡ true → x ≡ r) runs
        → IsSpent r.id r.completed_actions
            (update_where (has_run_id r.id) (start_run lease now) runs)
    started r a lease n t runs m only = record {
      exists =
          Any-update_where (λ x. text_eq x.id r.id ≡ true) (has_run_id r.id) (start_run lease now)
            (λ x e. e) runs
            (Any-map (λ x. x ≡ r) (λ x. text_eq x.id r.id ≡ true) (λ x e. rw e (text_eq_refl r.id))
              runs m);
      archives =
          All-update_map (λ x. has_run_id r.id x ≡ true → x ≡ r)
            (λ x. text_eq x.id r.id ≡ true → has_archive r.completed_actions x ≡ true)
            (has_run_id r.id) (start_run lease now) (λ x h o e. rw (o h, n) t)
            (λ x h o e. contradict (has_run_id r.id x) e h) runs only;
      spent =
          All-update_map (λ x. has_run_id r.id x ≡ true → x ≡ r)
            (λ x. text_eq x.id r.id ≡ true → is_spent r.completed_actions x ≡ true)
            (has_run_id r.id) (start_run lease now)
            (λ x h o e. rw (o h) (running-spent r.completed_actions))
            (λ x h o e. contradict (has_run_id r.id x) e h) runs only;
    }

    cases :
        (r : RunRow) (a : RuleAction)
        → next_action r ≡ some a
        → Any (λ x. x ≡ r) (recovered owner account now later s)
        → All (λ x. has_run_id r.id x ≡ true → x ≡ r) (recovered owner account now later s)
        → (m : Option MessageRow) (w : RuleWork)
        → (hand_out r a now later (after owner account now later s) m).0 ≡ some w
        → is_archive (some w.action) ≡ true
        → IsSpent w.id w.index (hand_out r a now later (after owner account now later s) m).1.runs
    cases r a n listed only none w e t = cc
    cases r a n listed only (some msg) w e t =
        let runs =
          update_where (has_run_id r.id) (start_run (later + ten_minutes) now)
            (recovered owner account now later s) in
        let v = some-injective _ w e in
        let t' : is_archive (some a) ≡ true =
          subst (λ x. is_archive (some x.action) ≡ true) (sym v) t in
        subst (λ x. IsSpent x.id x.index runs) v
          (started r a (later + ten_minutes) n t' (recovered owner account now later s) listed only)
