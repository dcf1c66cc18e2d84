-- ===== src/RuleRuns/Picked.antt =====
-- Which run the queries of `claim_rule_action` of crates/imail-storage-sqlite/src/rules.rs pick.
use i_mail.Base.{
  ℕ, ◌≡◌, refl, subst, Bool, true, false, not, ◌&&◌, Option, none, some, All, All-Any, All-refl,
  Any, arith,
}
use mathlib.Core.Option.{some-injective}
use i_mail.Base.Table.{
  update_where, update_where-All, exists_where, exists_where-false, first_where,
}
use i_mail.Base.Selection.{first_where-All}
use i_mail.Base.Texts.{Text}
use i_mail.Rules.Types.{RuleAction}
use i_mail.RuleRuns.Types.{RuleStore, RunRow, MessageRow, RuleWork, is_pending}
use i_mail.RuleRuns.Actions.{
  is_run_of, is_current, is_outdated, cancel_outdated, is_interrupted, interrupt, is_free,
  is_before, is_ready_run, sequence_before, next_action, hand_out,
}
use i_mail.RuleRuns.Claimed.{recovered, after, picked}

-- The run `r` of the recovered table is the one that the work `w` is for: a pending run of the owner's
-- account, at the revision of its rule, with no unfinished run before it on the same message, by the
-- tests of the queries.
pub record IsPicked (owner account : Text) (now : ℕ) (s : RuleStore) (w : RuleWork) (r : RunRow)
    : Type 0 where
  pub listed : Any (λ x. x ≡ r) (recovered owner account now now s)
  pub named : r.id ≡ w.id
  pub next : next_action r ≡ some w.action
  pub index : r.completed_actions ≡ w.index
  pub mine : is_run_of owner account r ≡ true
  pub waiting : is_pending r.status ≡ true
  pub free : is_free r.lease_until now ≡ true
  pub current : is_current s.rules r ≡ true
  pub first : All (λ e. is_before r e ≡ false) (recovered owner account now now s)

not_outdated : (a b c : Bool) → (a && b && not c) ≡ false → a ≡ true → b ≡ true → c ≡ true
not_outdated a b c h p q = ground (arith, h, p, q)

ready_parts :
    (a b c d : Bool)
    → (a && b && c && not d) ≡ true
    → (a ≡ true) × (b ≡ true) × (c ≡ true) × (d ≡ false)
ready_parts a b c d h = ground (arith, h)

module _ (owner account : Text) (now later : ℕ) (s : RuleStore) where
  -- What is still pending after the recovery is at the revision of its rule.
  recovered-current :
      All
        (λ r.
          is_run_of owner account r ≡ true
          → is_pending r.status ≡ true
          → is_current s.rules r ≡ true)
        (recovered owner account now later s)
  recovered-current =
      update_where-All _ (is_outdated owner account s.rules) (cancel_outdated now) (λ r t m p. cc)
        (λ r t m p.
          not_outdated (is_run_of owner account r) (is_pending r.status) (is_current s.rules r) t m
            p)
        (update_where (is_interrupted owner account now) (interrupt now) s.runs)

  pub chosen :
      (r : RunRow) (a : RuleAction)
      → first_where sequence_before
          (is_ready_run owner account now (recovered owner account now later s))
          (recovered owner account now later s)
        ≡ some r
      → next_action r ≡ some a
      → (m : Option MessageRow) (w : RuleWork)
      → (hand_out r a now later (after owner account now later s) m).0 ≡ some w
      → IsPicked owner account now s w r
  chosen r a e n none w h = cc
  chosen r a e n (some msg) w h =
      let table = recovered owner account now later s in
      let t =
        (first_where-All (λ x. x ≡ x) (is_ready_run owner account now table) sequence_before table r
          (All-refl table) e).1 in
      let (mine, waiting, free, first) =
        ready_parts (is_run_of owner account r) (is_pending r.status) (is_free r.lease_until now)
          (exists_where (is_before r) table) t in
      let listed = (picked owner account now later s r e).0 in
      subst (λ v. IsPicked owner account now s v r) (some-injective _ w h)
        (record {
          listed = listed;
          named = refl;
          next = n;
          index = refl;
          mine = mine;
          waiting = waiting;
          free = free;
          current =
              All-Any
                (λ x.
                  is_run_of owner account x ≡ true
                  → is_pending x.status ≡ true
                  → is_current s.rules x ≡ true)
                table r recovered-current listed mine waiting;
          first = exists_where-false (is_before r) table first;
        })
