-- ===== src/RuleRuns/Once.antt =====
-- Archive actions through runs of the methods of crates/imail-storage-sqlite/src/rules.rs.
use i_mail.Base.{
  ◌<◌, ℕ, ◌≡◌, refl, sym, subst, ◌∙◌, inl, inr, Bool, true, false, ◌&&◌, some, List, [], ◌∷◌, ◌++◌,
  get_elem?, ltb, ◌==◌, All, All-map, All-get_elem?, All-both, All-refl, Bool-cases, arith,
}
use i_mail.Base.Table.{update_where, exists_where, exists_where-true, find_where, find_where-All}
use i_mail.Base.Unique.{All-always, find_where-Any}
use i_mail.Base.Texts.{Text, text_eq, text_eq_refl, text_eq_sound}
use i_mail.Base.Result.{ok, Returns-ok}
use i_mail.RuleRuns.Types.{RuleStore, RunRow, RuleWork, pending, has_failed, is_running, has_run_id}
use i_mail.RuleRuns.Matches.{enqueue_matches}
use i_mail.RuleRuns.Saving.{save_mail_rule, delete_mail_rule, is_unstarted, cancel_run}
use i_mail.RuleRuns.Actions.{claim_rule_action, is_archive, is_current}
use i_mail.RuleRuns.Finish.{
  holds, is_lease, advance_run, fail_run, finish_rule_action, is_retryable, retry_run,
}
use i_mail.RuleRuns.Steps.{
  RuleState, RuleStep, RuleSteps, state, note, claim, finish, retry, save, delete, match_rules,
  stop, next,
}
use i_mail.RuleRuns.Spent.{
  waits, has_archive, is_spent, IsSpent, IsSpent-update, IsSpent-append, spent_by-status,
  spent_by-next,
}
use i_mail.RuleRuns.Logged.{IsLogged, IsIssued, apart}
use i_mail.RuleRuns.Claimed.{only_run, claim-IsLogged}
use i_mail.RuleRuns.Spending.{
  quiet-IsSpent, waiting-spent, claim-IsSpent, claim-later, claim-IsSpent_new,
}
use i_mail.RuleRuns.Kept.{finish-Returns, retry-keeps, save-Returns, enqueue-Returns, step-IsLogged}

-- The parts of a test.
five_parts : (a b c d e : Bool) → (a && b && c && d && e) ≡ true → (a ≡ true) × (d ≡ true)
five_parts a b c d e h = ground (arith, h)

four_parts : (a b c d : Bool) → (a && b && c && d) ≡ true → (b ≡ true) × (d ≡ true)
four_parts a b c d h = ground (arith, h)

module _ (i : Text) (k : ℕ) where
  -- The archive that failed goes under review, and nothing else of the run is touched.
  fail_run-spent :
      (w : RuleWork) (code : Text) (now later : ℕ) (a : RuleState) (r x : RunRow)
      → x ≡ r
      → r.completed_actions ≡ w.index
      → get_elem? x.actions w.index ≡ some w.action
      → has_archive k x ≡ true
      → is_spent k x ≡ true
      → is_spent k (fail_run (is_archive (some w.action)) code a.store.rules now later x) ≡ true
  fail_run-spent w code now later a r x e c g t s =
      spent_by-status k x.completed_actions x.status _ s (λ same calm.
        let n : k ≡ w.index = same ∙ subst (λ y. y.completed_actions ≡ w.index) (sym e) c in
        let t' : is_archive (get_elem? x.actions w.index) ≡ true =
          subst (λ j. is_archive (get_elem? x.actions j) ≡ true) n t in
        let uncertain : is_archive (some w.action) ≡ true = subst (λ o. is_archive o ≡ true) g t' in
        rw uncertain refl)

  finish-IsSpent :
      (owner : Text) (w : RuleWork) (now later : ℕ) (a : RuleState)
      → IsLogged a.store.runs a.works
      → IsIssued a.store.runs w
      → IsSpent i k a.store.runs
      → exists_where (holds owner w) a.store.runs ≡ true
      → IsSpent i k (update_where (has_run_id w.id) (advance_run a.store.rules now) a.store.runs)
        × ((code : Text)
            → IsSpent i k (
                update_where
                  (has_run_id w.id)
                  (fail_run (is_archive (some w.action)) code a.store.rules now later)
                  a.store.runs))
  finish-IsSpent owner w now later a l issued h e =
      let (r, listed, t) = exists_where-true (holds owner w) a.store.runs e in
      let (held, at) =
        five_parts (has_run_id w.id r) (text_eq r.user_id owner) (is_running r.status)
          (r.completed_actions == w.index) (is_lease r.lease_until w.lease) t in
      let same : r.id ≡ w.id = text_eq_sound r.id w.id held in
      let index : r.completed_actions ≡ w.index = ground (arith, at) in
      let only =
        subst (λ j. All (λ x. has_run_id j x ≡ true → x ≡ r) a.store.runs) same
          (only_run a.store.runs r l.unique listed) in
      (
        IsSpent-update i k (has_run_id w.id) (advance_run a.store.rules now) (λ x. refl) (λ x. refl)
            a.store.runs
            (All-always _ (λ x p e' g s. spent_by-next k x.completed_actions x.status _ s)
              a.store.runs)
            h,
        λ code.
            IsSpent-update i k (has_run_id w.id)
              (fail_run (is_archive (some w.action)) code a.store.rules now later) (λ x. refl)
              (λ x. refl) a.store.runs
              (All-both (λ x. has_run_id w.id x ≡ true → x ≡ r) _ _
                (λ x o g p e' t' s. fail_run-spent w code now later a r x (o p) index (g p) t' s)
                a.store.runs only issued.action)
              h,
      )

  retry-IsSpent :
      (owner id : Text) (now : ℕ) (s : RuleStore) (ws : List RuleWork)
      → IsLogged s.runs ws
      → IsSpent i k s.runs
      → (r : RunRow) → find_where (is_retryable owner id s.rules) s.runs ≡ some r
      → IsSpent i k (update_where (has_run_id id) (retry_run now) s.runs)
  retry-IsSpent owner id now s ws l h r e =
      let t =
        (find_where-All (λ x. x ≡ x) (is_retryable owner id s.rules) s.runs (All-refl s.runs)
          e).1 in
      let (named, status) =
        four_parts (is_current s.rules r) (has_run_id id r) (text_eq r.user_id owner)
          (has_failed r.status) t in
      let same : r.id ≡ id = text_eq_sound r.id id named in
      let listed = find_where-Any (is_retryable owner id s.rules) s.runs r e in
      let only =
        subst (λ j. All (λ x. has_run_id j x ≡ true → x ≡ r) s.runs) same
          (only_run s.runs r l.unique listed) in
      let waiting : waits r.status ≡ true = ground (arith, status) in
      IsSpent-update i k (has_run_id id) (retry_run now) (λ x. refl) (λ x. refl) s.runs
        (All-map (λ x. has_run_id id x ≡ true → x ≡ r) _
          (λ x o p e' g d. waiting-spent i k r x pending (o p) waiting d) s.runs only)
        h

  IsSpent-fresh :
      (runs : List RunRow) (r : RunRow)
      → All (λ x. has_run_id r.id x ≡ false) runs
      → IsSpent i k runs
      → IsSpent i k (runs ++ r ∷ [])
  IsSpent-fresh runs r n h = elim (Bool-cases (text_eq r.id i)) [
    | inl e ↦ elim (apart i r runs e n h.exists) [ ]
    | inr e ↦ IsSpent-append i k runs r e h
  ]

  cancel-IsSpent :
      (owner rule : Text) (now : ℕ) (runs : List RunRow)
      → IsSpent i k runs
      → IsSpent i k (update_where (is_unstarted owner rule) (cancel_run now) runs)
  cancel-IsSpent owner rule now runs h =
      quiet-IsSpent i k (is_unstarted owner rule) (cancel_run now) (λ r. refl) (λ r. refl)
        (λ r. refl) (λ r. refl) runs h

  pub step-IsSpent :
      {a b : RuleState}
      → RuleStep a b
      → IsLogged a.store.runs a.works
      → IsSpent i k a.store.runs
      → IsSpent i k b.store.runs
  unfolding delete_mail_rule
  step-IsSpent (claim owner account now later a o s e) l h =
      Returns-ok (λ q. IsSpent i k q.1.runs) (claim_rule_action owner account now later a.store)
        (o, s) e (claim-IsSpent i k owner account now later a.store a.works l h)
  step-IsSpent (finish owner n w outcome now later a s g e) l h =
      Returns-ok (λ t. IsSpent i k t.runs) (finish_rule_action owner w outcome now later a.store) s
        e
        (finish-Returns (IsSpent i k) owner w outcome now later a.store (
          finish-IsSpent owner w now later a l
            (All-get_elem? (IsIssued a.store.runs) a.works n w l.issued g) h))
  step-IsSpent (retry fresh owner id now a) l h =
      retry-keeps (IsSpent i k) fresh owner id now a.store h
        (retry-IsSpent owner id now a.store a.works l h)
  step-IsSpent (save to_rfc3339 fresh owner id input now a o s e) l h =
      Returns-ok (λ q. IsSpent i k q.1.runs)
        (save_mail_rule to_rfc3339 fresh owner id input now a.store) (o, s) e
        (save-Returns (IsSpent i k) to_rfc3339 fresh owner id input now a.store h
          (λ rule. cancel-IsSpent owner rule now a.store.runs h))
  step-IsSpent (delete owner id now a) l h = cancel-IsSpent owner id now a.store.runs h
  step-IsSpent (match_rules to_lowercase fresh owner rules message source now a m e) l h =
      Returns-ok (λ w. IsSpent i k w.store.runs)
        (enqueue_matches to_lowercase fresh owner rules message source now a.store) m e
        (enqueue-Returns (IsSpent i k) IsSpent-fresh to_lowercase fresh owner rules message source
          now a.store h)

  steps-IsSpent :
      {a b : RuleState}
      → RuleSteps a b
      → IsLogged a.store.runs a.works
      → IsSpent i k a.store.runs
      → IsSpent i k b.store.runs
  steps-IsSpent stop l h = h
  steps-IsSpent (next st rest) l h = steps-IsSpent rest (step-IsLogged st l) (step-IsSpent st l h)

-- In a state where the runs are unique and the works are true to them, let a claim hand out an archive
-- action. After any further calls, a claim that hands out work of the same run hands out a later action.
pub archive_once :
    (owner account : Text) (now later : ℕ) (a b : RuleState) (w : RuleWork) (s : RuleStore)
    → IsLogged a.store.runs a.works
    → claim_rule_action owner account now later a.store ≡ ok (some w, s)
    → is_archive (some w.action) ≡ true
    → RuleSteps (state s (w ∷ a.works)) b
    → (owner' account' : Text) (now' later' : ℕ) (w' : RuleWork) (s' : RuleStore)
    → claim_rule_action owner' account' now' later' b.store ≡ ok (some w', s')
    → w'.id ≡ w.id
    → w.index < w'.index
archive_once owner account now later a b w s l e t steps owner' account' now' later' w' s' e' same =
    let spent =
      Returns-ok _ (claim_rule_action owner account now later a.store) (some w, s) e
        (claim-IsSpent_new owner account now later a.store a.works l) w refl t in
    let logged =
      Returns-ok (λ q. IsLogged q.1.runs (note q.0 a.works))
        (claim_rule_action owner account now later a.store) (some w, s) e
        (claim-IsLogged owner account now later a.store a.works l) in
    let still = steps-IsSpent w.id w.index steps logged spent in
    let named : text_eq w'.id w.id ≡ true = rw same (text_eq_refl w.id) in
    let later_one : ltb w.index w'.index ≡ true =
      Returns-ok _ (claim_rule_action owner' account' now' later' b.store) (some w', s') e'
        (claim-later w.id w.index owner' account' now' later' b.store still) w' refl named in
    ground (arith, later_one)
