-- ===== src/RuleRuns/Kept.antt =====
-- What each method of crates/imail-storage-sqlite/src/rules.rs makes of the table of runs, for any
-- property `P` of that table.
use i_mail.Base.{
  ◌&&◌, ℕ, suc, ◌≡◌, refl, inl, inr, Bool, true, false, not, Option, none, some, List, [], ◌∷◌,
  ◌++◌, if◌then◌else◌, All, All-map, Bool-cases, is_some, all, leb, length, arith,
}
use i_mail.Base.Table.{update_where, exists_where, exists_where-false, find_where}
use i_mail.Base.Texts.{Text}
use i_mail.Base.Result.{ok, Returns, Returns-bind, Returns-any, Returns-guard, Returns-ok}
use i_mail.Rules.Types.{MailRule, MailRuleInput}
use i_mail.Rules.Validation.{validate}
use i_mail.Rules.Matching.{matching_rules}
use i_mail.RuleRuns.Types.{
  RuleStore, RunRow, MessageRow, RuleWork, sqlite, has_run_id, invalid_content_data,
  account_not_owned,
}
use i_mail.RuleRuns.Matches.{
  Matched, enqueue_match, enqueue_rules, enqueue_matches, new_run, same_run, has_account,
  load_rules, local_effects, with_run,
}
use i_mail.RuleRuns.Saving.{
  save_mail_rule, delete_mail_rule, is_unstarted, cancel_run, save_rule, saved_rule, previous_rule,
  id_or, is_owned_account,
}
use i_mail.RuleRuns.Actions.{claim_rule_action, is_archive}
use i_mail.RuleRuns.Finish.{
  ActionOutcome, done, failure, holds, advance_run, fail_run, finish_with, finish_rule_action,
  is_retryable, retry_run, retry_found, retry_mail_rule_run, message_change,
}
use i_mail.RuleRuns.Steps.{
  RuleState, RuleStep, note, claim, finish, retry, save, delete, match_rules,
}
use i_mail.RuleRuns.Logged.{IsLogged, IsLogged-update, IsLogged-append}
use i_mail.RuleRuns.Claimed.{claim-IsLogged}

module _ (P : List RunRow → Type 0) where
  -- An action that is done advances its run; one that failed ends or delays it.
  pub finish-Returns :
      (owner : Text) (w : RuleWork) (outcome : ActionOutcome) (now later : ℕ) (s : RuleStore)
      → (exists_where (holds owner w) s.runs ≡ true
          → P (update_where (has_run_id w.id) (advance_run s.rules now) s.runs)
            × ((code : Text)
                → P (
                    update_where
                      (has_run_id w.id)
                      (fail_run (is_archive (some w.action)) code s.rules now later)
                      s.runs)))
      → Returns (λ t. P t.runs) (finish_rule_action owner w outcome now later s)
  unfolding finish_rule_action
  finish-Returns owner w outcome now later s k =
      Returns-guard (λ t. P t.runs) (not (exists_where (holds owner w) s.runs)) invalid_content_data
        (finish_with w now later s outcome)
        (λ g.
          (let held : exists_where (holds owner w) s.runs ≡ true = ground (arith, g) in
            cases outcome (k held)))
    where
      cases :
          (o : ActionOutcome)
          → P (update_where (has_run_id w.id) (advance_run s.rules now) s.runs)
            × ((code : Text)
                → P (
                    update_where
                      (has_run_id w.id)
                      (fail_run (is_archive (some w.action)) code s.rules now later)
                      s.runs))
          → Returns (λ t. P t.runs) (finish_with w now later s o)
      cases (failure code) h = h.1 code
      cases (done moved) h =
          Returns-bind (λ c. Unit) (λ t. P t.runs) (message_change w.action moved) _
            (Returns-any (message_change w.action moved)) (λ c e u. h.0)

  pub retry-keeps :
      (fresh owner id : Text) (now : ℕ) (s : RuleStore)
      → P s.runs
      → ((r : RunRow)
          → find_where (is_retryable owner id s.rules) s.runs ≡ some r
          → P (update_where (has_run_id id) (retry_run now) s.runs))
      → P (retry_mail_rule_run fresh owner id now s).1.runs
  unfolding retry_mail_rule_run
  retry-keeps fresh owner id now s p k =
      cases (find_where (is_retryable owner id s.rules) s.runs) refl
    where
      cases :
          (o : Option RunRow)
          → find_where (is_retryable owner id s.rules) s.runs ≡ o
          → P (retry_found fresh id now s o).1.runs
      cases none e = p
      cases (some r) e = k r e

  pub save-Returns :
      (to_rfc3339 : ℕ → Text) (fresh owner : Text) (id : Option Text) (input : MailRuleInput)
      (now : ℕ) (s : RuleStore)
      → P s.runs
      → ((rule : Text) → P (update_where (is_unstarted owner rule) (cancel_run now) s.runs))
      → Returns (λ q. P q.1.runs) (save_mail_rule to_rfc3339 fresh owner id input now s)
  unfolding save_mail_rule
  save-Returns to_rfc3339 fresh owner id input now s p k =
      let previous = previous_rule id (load_rules owner s) in
      let rule = saved_rule (id_or fresh id) input (to_rfc3339 now) previous in
      let Q = λ (q : Option MailRule × RuleStore). P q.1.runs in
      Returns-guard Q (is_some (validate input)) invalid_content_data _ (λ v.
        Returns-guard Q (not (all (is_owned_account owner s) input.account_ids)) account_not_owned _
          (λ a. saved rule (is_some id && not (is_some previous)) (not (is_some previous))))
    where
      saved :
          (rule : MailRule) (b c : Bool)
          → Returns
              (λ (q : Option MailRule × RuleStore). P q.1.runs)
              (if b then ok (none, s) else save_rule owner rule (load_rules owner s) c now s)
      saved rule true c = p
      saved rule false c =
          Returns-guard (λ (q : Option MailRule × RuleStore). P q.1.runs)
            (c && leb 100 (length (load_rules owner s))) invalid_content_data _ (λ g. k rule.id)

  -- Each row that is added has an identifier of its own.
  module _
      (append : (runs : List RunRow) (r : RunRow)
        → All (λ x. has_run_id r.id x ≡ false) runs
        → P runs
        → P (runs ++ r ∷ [])) where
    enqueue_match-Returns :
        (id owner : Text) (rule : MailRule) (source : Text) (now : ℕ) (w : Matched)
        → P w.store.runs
        → Returns (λ m. P m.store.runs) (enqueue_match id owner rule source now w)
    unfolding enqueue_match
    enqueue_match-Returns id owner rule source now w p =
        let run = new_run w.store.next_sequence id owner rule w.message source now in
        elim (Bool-cases (exists_where (same_run id owner rule w.message) w.store.runs)) [
          | inl e ↦ rw e p
          | inr e ↦ rw e (
              Returns-guard (λ m. P m.store.runs) (not (has_account run.account_id w.store)) sqlite
                (ok (local_effects rule (with_run run w)))
                (λ g.
                  append w.store.runs run
                    (All-map (λ x. same_run id owner rule w.message x ≡ false)
                      (λ x. has_run_id run.id x ≡ false) (λ x h. ground (arith, h)) w.store.runs
                      (exists_where-false (same_run id owner rule w.message) w.store.runs e))
                    p))
        ]

    enqueue_rules-Returns :
        (fresh : ℕ → Text) (n : ℕ) (owner : Text) (rules : List MailRule) (source : Text) (now : ℕ)
        (w : Matched)
        → P w.store.runs
        → Returns (λ m. P m.store.runs) (enqueue_rules fresh n owner rules source now w)
    enqueue_rules-Returns fresh n owner [] source now w p = p
    enqueue_rules-Returns fresh n owner (rule ∷ rules) source now w p =
        Returns-bind (λ m. P m.store.runs) (λ m. P m.store.runs)
          (enqueue_match (fresh n) owner rule source now w)
          (λ v. enqueue_rules fresh (suc n) owner rules source now v)
          (enqueue_match-Returns (fresh n) owner rule source now w p)
          (λ v e q. enqueue_rules-Returns fresh (suc n) owner rules source now v q)

    pub enqueue-Returns :
        (to_lowercase : Text → Text) (fresh : ℕ → Text) (owner : Text) (rules : List MailRule)
        (message : MessageRow) (source : Text) (now : ℕ) (s : RuleStore)
        → P s.runs
        → Returns
            (λ m. P m.store.runs)
            (enqueue_matches to_lowercase fresh owner rules message source now s)
    unfolding enqueue_matches
    enqueue-Returns to_lowercase fresh owner rules message source now s p =
        enqueue_rules-Returns fresh 0 owner (matching_rules to_lowercase rules message.view) source
          now _ p

-- Every call keeps the identifiers of the runs unique, and the run and the action of every work that
-- was handed out.
pub step-IsLogged :
    {a b : RuleState} → RuleStep a b → IsLogged a.store.runs a.works → IsLogged b.store.runs b.works
unfolding delete_mail_rule
step-IsLogged (claim owner account now later a o s e) h =
    Returns-ok (λ q. IsLogged q.1.runs (note q.0 a.works))
      (claim_rule_action owner account now later a.store) (o, s) e
      (claim-IsLogged owner account now later a.store a.works h)
step-IsLogged (finish owner n w outcome now later a s g e) h =
    let P = λ (runs : List RunRow). IsLogged runs a.works in
    Returns-ok (λ t. P t.runs) (finish_rule_action owner w outcome now later a.store) s e
      (finish-Returns P owner w outcome now later a.store (λ t. (
        IsLogged-update (has_run_id w.id) (advance_run a.store.rules now) (λ r. refl) (λ r. refl)
            a.store.runs a.works h,
        λ code.
            IsLogged-update (has_run_id w.id)
              (fail_run (is_archive (some w.action)) code a.store.rules now later) (λ r. refl)
              (λ r. refl) a.store.runs a.works h,
      )))
step-IsLogged (retry fresh owner id now a) h =
    retry-keeps (λ runs. IsLogged runs a.works) fresh owner id now a.store h
      (λ r e.
        IsLogged-update (has_run_id id) (retry_run now) (λ x. refl) (λ x. refl) a.store.runs a.works
          h)
step-IsLogged (save to_rfc3339 fresh owner id input now a o s e) h =
    let P = λ (runs : List RunRow). IsLogged runs a.works in
    Returns-ok (λ q. P q.1.runs) (save_mail_rule to_rfc3339 fresh owner id input now a.store) (o, s)
      e
      (save-Returns P to_rfc3339 fresh owner id input now a.store h (λ rule.
        IsLogged-update (is_unstarted owner rule) (cancel_run now) (λ r. refl) (λ r. refl)
          a.store.runs a.works h))
step-IsLogged (delete owner id now a) h =
    IsLogged-update (is_unstarted owner id) (cancel_run now) (λ r. refl) (λ r. refl) a.store.runs
      a.works h
step-IsLogged (match_rules to_lowercase fresh owner rules message source now a m e) h =
    let P = λ (runs : List RunRow). IsLogged runs a.works in
    Returns-ok (λ w. P w.store.runs)
      (enqueue_matches to_lowercase fresh owner rules message source now a.store) m e
      (enqueue-Returns P (λ runs r n p. IsLogged-append runs r a.works n p) to_lowercase fresh owner
        rules message source now a.store h)
