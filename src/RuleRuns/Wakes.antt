-- ===== src/RuleRuns/Wakes.antt =====
-- `retry_mail_rule_run` and the jobs of its account, and `enqueue_matches` called again:
-- crates/imail-storage-sqlite/src/rules.rs.
use i_mail.Base.{
  ℕ, ◌≡◌, refl, sym, subst, inl, inr, Bool, true, false, not, ◌||◌, List, nat_eq_refl, All, All-Any,
  Any, Bool-cases, arith,
}
use i_mail.Base.Table.{exists_where, Any-exists_where, exists_where-true}
use i_mail.Base.Unique.{Any-map, last-Any}
use i_mail.Base.Texts.{Text, text_eq_refl}
use i_mail.Base.Result.{ok, Returns, Returns-ok, Returns-guard}
use i_mail.Rules.Types.{MailRule}
use i_mail.RuleRuns.Types.{message_identity, MessageRow, JobRow, sqlite, has_run_id}
use i_mail.RuleRuns.Matches.{
  Matched, enqueue_match, new_run, same_run, is_run_for, has_account, local_effects, with_run,
}
use i_mail.RuleRuns.Finish.{inbox_job, is_same_target, is_active_of}

or_right : (a b : Bool) → (a || b) ≡ true → a ≡ false → b ≡ true
or_right a b h n = ground (arith, h, n)

module _ (fresh account : Text) (now : ℕ) where
  -- What an account is left with: a waiting inbox job, and jobs that run are to run again.
  pub record IsWoken (jobs : List JobRow) : Type 0 where
    pub waiting : Any (λ j. is_same_target (inbox_job fresh account now) j ≡ true) jobs
    pub repeated : All (λ j. is_active_of account j ≡ true → j.rerun_requested ≡ true) jobs

key_of : (a b : Bool) → b ≡ true → (a || b) ≡ true
key_of a b h = ground (arith, h)

is_run_for-new :
    (sequence : ℕ) (id owner : Text) (rule : MailRule) (m : MessageRow) (source : Text) (now : ℕ)
    → is_run_for owner rule m (new_run sequence id owner rule m source now) ≡ true
is_run_for-new sequence id owner rule m source now =
    rw
      (
        text_eq_refl owner,
        text_eq_refl rule.id,
        nat_eq_refl rule.revision,
        text_eq_refl m.view.account_id,
        text_eq_refl (message_identity m),
      )
      refl

-- After a match the run of the rule and the message is there.
match-Any :
    (id owner : Text) (rule : MailRule) (source : Text) (now : ℕ) (w : Matched)
    → All (λ r. has_run_id id r ≡ false) w.store.runs
    → Returns
        (λ m. Any (λ x. is_run_for owner rule m.message x ≡ true) m.store.runs)
        (enqueue_match id owner rule source now w)
unfolding enqueue_match message_identity
match-Any id owner rule source now w n =
    let run = new_run w.store.next_sequence id owner rule w.message source now in
    let Q = λ (m : Matched). Any (λ x. is_run_for owner rule m.message x ≡ true) m.store.runs in
    elim (Bool-cases (exists_where (same_run id owner rule w.message) w.store.runs)) [
      | inl e ↦
          (let (x, listed, t) =
              exists_where-true (same_run id owner rule w.message) w.store.runs e in
            let key =
              or_right (has_run_id id x) (is_run_for owner rule w.message x) t
                (All-Any (λ r. has_run_id id r ≡ false) w.store.runs x n listed) in
            rw e (
              Any-map (λ y. y ≡ x) (λ y. is_run_for owner rule w.message y ≡ true)
                (λ y h. subst (λ v. is_run_for owner rule w.message v ≡ true) (sym h) key)
                w.store.runs listed))
      | inr e ↦ rw e (
          Returns-guard Q (not (has_account run.account_id w.store)) sqlite
            (ok (local_effects rule (with_run run w)))
            (λ g.
              last-Any (λ x. is_run_for owner rule w.message x ≡ true) w.store.runs run
                (is_run_for-new w.store.next_sequence id owner rule w.message source now)))
    ]

-- Where the identifier is not in use, a match of a rule and a message that was stored once is not stored
-- again at another time, from another source or under another identifier: the second call changes nothing.
pub enqueue_match_once :
    (id id' owner : Text) (rule : MailRule) (source source' : Text) (now now' : ℕ) (w w' : Matched)
    → All (λ r. has_run_id id r ≡ false) w.store.runs
    → enqueue_match id owner rule source now w ≡ ok w'
    → enqueue_match id' owner rule source' now' w' ≡ ok w'
unfolding enqueue_match
enqueue_match_once id id' owner rule source source' now now' w w' n e =
    let there_ =
      Returns-ok _ (enqueue_match id owner rule source now w) w' e
        (match-Any id owner rule source now w n) in
    rw
      (Any-exists_where (same_run id' owner rule w'.message) w'.store.runs (
        Any-map (λ x. is_run_for owner rule w'.message x ≡ true)
          (λ x. same_run id' owner rule w'.message x ≡ true)
          (λ x h. key_of (has_run_id id' x) (is_run_for owner rule w'.message x) h) w'.store.runs
          there_))
      refl
