-- ===== src/RuleRuns/Effects.antt =====
-- What `finish_rule_action`, `save_mail_rule`, `retry_mail_rule_run` and `enqueue_matches` of
-- crates/imail-storage-sqlite/src/rules.rs leave behind.
use i_mail.Base.{
  ℕ, ◌≡◌, ◌≢◌, ◌⊎◌, refl, sym, subst, inl, inr, Bool, true, false, not, ◌&&◌, Option, none, some,
  List, [], ◌∷◌, if◌then◌else◌, ◌==◌, All, All-append, All-map, Any, Bool-cases, contradict, arith,
  is_some, all, leb, length, ◌+◌,
}
use mathlib.Core.Option.{some-injective}
use i_mail.Base.Table.{
  update_where, update_where-All, exists_where, exists_where-All, exists_where-false,
  exists_where-true,
}
use i_mail.Base.Unique.{Any-update, Any-update_where, Any-unchanged, Any-map, last-Any}
use i_mail.Base.Texts.{Text, text_eq, text_eq_refl}
use i_mail.Base.Result.{ok, err, Returns, Returns-ok, Returns-guard}
use i_mail.Rules.Types.{MailRule, MailRuleInput}
use i_mail.Rules.Validation.{validate}
use i_mail.RuleRuns.Types.{
  RuleStore, RuleRow, RunRow, RuleWork, pending, running, failed, cancelled, has_run_id, is_running,
  invalid_content_data, account_not_owned,
}
use i_mail.RuleRuns.Matches.{load_rules}
use i_mail.RuleRuns.Saving.{
  save_mail_rule, is_unstarted, cancel_run, save_rule, saved_rule, previous_rule, id_or,
  is_owned_account, drop_work, has_rule_id, upsert_rule, revise_row,
}
use i_mail.RuleRuns.Actions.{is_current, is_archive}
use i_mail.RuleRuns.Finish.{
  ActionOutcome, holds, is_lease, advance_run, fail_run, done_status, failed_status,
  finish_rule_action,
}
use i_mail.RuleRuns.Kept.{finish-Returns}

done_status-stopped : (rules : List RuleRow) (r : RunRow) → is_running (done_status rules r) ≡ false
done_status-stopped rules r = elim (Bool-cases (r.completed_actions + 1 == length r.actions)) [
  | inl e ↦ rw e refl
  | inr e ↦ elim (Bool-cases (is_current rules r)) [
    | inl c ↦ rw (e, c) refl
    | inr c ↦ rw (e, c) refl
  ]
]

failed_status-stopped :
    (b : Bool) (rules : List RuleRow) (r : RunRow) → is_running (failed_status b rules r) ≡ false
failed_status-stopped true rules r = refl
failed_status-stopped false rules r = elim (Bool-cases (is_current rules r)) [
  | inr c ↦ rw c refl
  | inl c ↦ elim (Bool-cases (leb 3 r.attempts)) [ inl e ↦ rw (c, e) refl | inr e ↦ rw (c, e) refl ]
]

stopped-not_held : (a b c d e : Bool) → c ≡ false → (a && b && c && d && e) ≡ false
stopped-not_held a b c d e h = ground (arith, h)

other-not_held : (a b c d e : Bool) → a ≡ false → (a && b && c && d && e) ≡ false
other-not_held a b c d e h = ground (arith, h)

-- No run is held under the work once the runs of its name have stopped.
released :
    (owner : Text) (w : RuleWork) (f : RunRow → RunRow)
    → ((r : RunRow) → is_running (f r).status ≡ false)
    → (runs : List RunRow)
    → All (λ r. holds owner w r ≡ false) (update_where (has_run_id w.id) f runs)
released owner w f stop runs =
    update_where-All (λ r. holds owner w r ≡ false) (has_run_id w.id) f
      (λ r t.
        stopped-not_held (has_run_id w.id (f r)) (text_eq (f r).user_id owner)
          (is_running (f r).status) ((f r).completed_actions == w.index)
          (is_lease (f r).lease_until w.lease) (stop r))
      (λ r t.
        other-not_held (has_run_id w.id r) (text_eq r.user_id owner) (is_running r.status)
          (r.completed_actions == w.index) (is_lease r.lease_until w.lease) t)
      runs

-- Once a work is finished, whatever its outcome, it is refused when it is finished again, by any owner
-- and with any outcome.
pub finish_once :
    (owner : Text) (w : RuleWork) (outcome : ActionOutcome) (now later : ℕ) (s s' : RuleStore)
    → finish_rule_action owner w outcome now later s ≡ ok s'
    → (owner' : Text) (outcome' : ActionOutcome) (now' later' : ℕ)
    → finish_rule_action owner' w outcome' now' later' s' ≡ err invalid_content_data
unfolding finish_rule_action
finish_once owner w outcome now later s s' e owner' outcome' now' later' =
    let none_held =
      Returns-ok (λ t. All (λ r. holds owner' w r ≡ false) t.runs)
        (finish_rule_action owner w outcome now later s) s' e
        (finish-Returns (λ runs. All (λ r. holds owner' w r ≡ false) runs) owner w outcome now later
          s
          (λ h. (
            released owner' w (advance_run s.rules now) (λ r. done_status-stopped s.rules r) s.runs,
            λ code.
                released owner' w (fail_run (is_archive (some w.action)) code s.rules now later)
                  (λ r. failed_status-stopped (is_archive (some w.action)) s.rules r) s.runs,
          ))) in
    rw (exists_where-All (holds owner' w) s'.runs none_held) refl

-- A run that was left is not waiting and has not failed.
abbrev pub IsSettled : Text → MailRule → RunRow → Type 0
IsSettled owner rule r =
    r.user_id ≡ owner → r.rule_id ≡ rule.id → (r.status ≢ pending) × (r.status ≢ failed)

-- What a save that answers with `rule` leaves of the runs and the rules.
pub record IsSaved (owner : Text) (rule : MailRule) (runs : List RunRow) (s : RuleStore)
    : Type 0 where
  pub settled : All (IsSettled owner rule) s.runs
  -- Each run of the rule that waited or had failed is cancelled.
  pub withdrawn :
      (r : RunRow)
      → Any (λ x. x ≡ r) runs
      → r.user_id ≡ owner
      → r.rule_id ≡ rule.id
      → (r.status ≡ pending) ⊎ (r.status ≡ failed)
      → Any (λ x. (x.id ≡ r.id) × (x.status ≡ cancelled)) s.runs
  -- A command under way is left alone.
  pub underway : (r : RunRow) → Any (λ x. x ≡ r) runs → r.status ≡ running → Any (λ x. x ≡ r) s.runs
  -- The row of the rule holds what was saved.
  pub stored :
      All
        (λ x.
          has_rule_id rule.id x.rule ≡ true
          → (x.rule.revision ≡ rule.revision) × (x.rule.input ≡ rule.input))
        s.rules
  pub exists : Any (λ x. has_rule_id rule.id x.rule ≡ true) s.rules

same_text : (s t : Text) → s ≡ t → text_eq s t ≡ true
same_text s t e = subst (λ v. text_eq s v ≡ true) e (text_eq_refl s)

unstarted :
    (owner id : Text) (r : RunRow)
    → r.user_id ≡ owner
    → r.rule_id ≡ id
    → (r.status ≡ pending) ⊎ (r.status ≡ failed)
    → is_unstarted owner id r ≡ true
unstarted owner id r u i (inl e) =
    rw (same_text r.user_id owner u, same_text r.rule_id id i, e) refl
unstarted owner id r u i (inr e) =
    rw (same_text r.user_id owner u, same_text r.rule_id id i, e) refl

running-started :
    (owner id : Text) (r : RunRow) → r.status ≡ running → is_unstarted owner id r ≡ false
running-started owner id r e = ground (arith, e)

cancelled-IsSettled :
    (owner : Text) (rule : MailRule) (now : ℕ) (r : RunRow)
    → IsSettled owner rule (cancel_run now r)
cancelled-IsSettled owner rule now r u i = (λ e. cc, λ e. cc)

started-IsSettled :
    (owner : Text) (rule : MailRule) (r : RunRow)
    → is_unstarted owner rule.id r ≡ false
    → IsSettled owner rule r
started-IsSettled owner rule r f u i = (
  λ e. contradict (is_unstarted owner rule.id r) (unstarted owner rule.id r u i (inl e)) f,
  λ e. contradict (is_unstarted owner rule.id r) (unstarted owner rule.id r u i (inr e)) f,
)

upsert_rule-stored :
    (owner : Text) (rule : MailRule) (rows : List RuleRow)
    → All
        (λ x.
          has_rule_id rule.id x.rule ≡ true
          → (x.rule.revision ≡ rule.revision) × (x.rule.input ≡ rule.input))
        (upsert_rule owner rule rows)
      × Any (λ x. has_rule_id rule.id x.rule ≡ true) (upsert_rule owner rule rows)
upsert_rule-stored owner rule rows =
    let named = λ (x : RuleRow). has_rule_id rule.id x.rule in
    let Stored = λ (x : RuleRow).
      named x ≡ true → (x.rule.revision ≡ rule.revision) × (x.rule.input ≡ rule.input) in
    let new : RuleRow = record { user_id = owner; rule = rule } in
    elim (Bool-cases (exists_where named rows)) [
      | inl e ↦
          (let (x, listed, t) = exists_where-true named rows e in
            rw e (
              update_where-All Stored named (revise_row rule) (λ y t u. (refl, refl))
                  (λ y f u. contradict (named y) u f) rows,
              Any-update_where (λ y. named y ≡ true) named (revise_row rule) (λ y h. h) rows
                  (Any-map (λ y. y ≡ x) (λ y. named y ≡ true)
                    (λ y h. subst (λ v. named v ≡ true) (sym h) t) rows listed),
            ))
      | inr e ↦ rw e (
        All-append Stored rows (new ∷ [])
            (All-map (λ y. named y ≡ false) Stored (λ y f u. contradict (named y) u f) rows
              (exists_where-false named rows e))
            (λ u. (refl, refl), tt),
        last-Any (λ y. named y ≡ true) rows new (text_eq_refl rule.id),
      )
    ]

saved_rule-input :
    (id : Text) (input : MailRuleInput) (stamp : Text) (o : Option MailRule)
    → (saved_rule id input stamp o).input ≡ input
saved_rule-input id input stamp none = refl
saved_rule-input id input stamp (some r) = refl

-- A save that answers with a rule has stored that rule with the input, at its revision. Every run of
-- it that was waiting or had failed is cancelled, no run of it waits or has failed any more, and runs
-- whose command is under way are left as they were.
pub save_fences :
    (to_rfc3339 : ℕ → Text) (fresh owner : Text) (id : Option Text) (input : MailRuleInput)
    (now : ℕ) (s s' : RuleStore) (rule : MailRule)
    → save_mail_rule to_rfc3339 fresh owner id input now s ≡ ok (some rule, s')
    → IsSaved owner rule s.runs s' × (rule.input ≡ input)
unfolding save_mail_rule
save_fences to_rfc3339 fresh owner id input now s s' rule e =
    let previous = previous_rule id (load_rules owner s) in
    let new = saved_rule (id_or fresh id) input (to_rfc3339 now) previous in
    Returns-ok Saved (save_mail_rule to_rfc3339 fresh owner id input now s) (some rule, s') e
      (Returns-guard Saved (is_some (validate input)) invalid_content_data _ (λ v.
        Returns-guard Saved (not (all (is_owned_account owner s) input.account_ids))
          account_not_owned _
          (λ a.
            saved new (saved_rule-input (id_or fresh id) input (to_rfc3339 now) previous)
              (is_some id && not (is_some previous)) (not (is_some previous)))))
      rule refl
  where
    Saved : Option MailRule × RuleStore → Type 0
    Saved q = (v : MailRule) → q.0 ≡ some v → IsSaved owner v s.runs q.1 × (v.input ≡ input)

    saved :
        (new : MailRule)
        → new.input ≡ input
        → (b c : Bool)
        → Returns Saved
            (if b then ok (none, s) else save_rule owner new (load_rules owner s) c now s)
    saved new i true c = λ v h. cc
    saved new i false c =
        Returns-guard Saved (c && leb 100 (length (load_rules owner s))) invalid_content_data _
          (λ g v h.
            subst
              (λ u.
                IsSaved owner u s.runs
                  (drop_work owner new.id now (record s { rules = upsert_rule owner new s.rules }))
                × (u.input ≡ input))
              (some-injective new v h)
              (
                record {
                  settled =
                      update_where-All (IsSettled owner new) (is_unstarted owner new.id)
                        (cancel_run now) (λ r t. cancelled-IsSettled owner new now r)
                        (started-IsSettled owner new) s.runs;
                  withdrawn = λ r m u n w.
                      Any-map _ (λ x. (x.id ≡ r.id) × (x.status ≡ cancelled))
                        (λ x k.
                          subst (λ z. (z.id ≡ r.id) × (z.status ≡ cancelled)) (sym k) (refl, refl))
                        (update_where (is_unstarted owner new.id) (cancel_run now) s.runs)
                        (Any-update (is_unstarted owner new.id) (cancel_run now) r s.runs
                          (unstarted owner new.id r u n w) m);
                  underway = λ r m q.
                      Any-unchanged (is_unstarted owner new.id) (cancel_run now) r s.runs
                        (running-started owner new.id r q) m;
                  stored = (upsert_rule-stored owner new s.rules).0;
                  exists = (upsert_rule-stored owner new s.rules).1;
                },
                i,
              ))
