-- ===== src/RuleRuns/Chosen.antt =====
-- What a run that `claim_rule_action` of crates/imail-storage-sqlite/src/rules.rs hands out is, apart
-- from its queries.
use i_mail.Base.{
  ℕ, ◌<◌, ◌≤◌, ◌≡◌, ◌≢◌, ◌⊎◌, inl, inr, refl, sym, subst, Bool, true, false, ◌&&◌, Option, none,
  some, List, All, Any, arith, contradict, get_elem?, leb→le, ◌==◌, nat_eq_refl,
}
use i_mail.Base.Unique.{Any-map}
use i_mail.Base.Table.{exists_where-true, Any-exists_where}
use i_mail.Base.Texts.{Text, text_eq, text_eq_sound, text_eq_refl}
use i_mail.Rules.Types.{RuleAction, archive}
use i_mail.RuleRuns.Types.{
  RuleStore, RuleRow, RunRow, RunStatus, RuleWork, pending, running, succeeded, failed,
  needs_review, cancelled, is_pending, is_running, is_unfinished,
}
use i_mail.RuleRuns.Actions.{is_current, is_free, is_archive, next_action}

-- A rule of the run's user stands at the revision that the run was made for.
abbrev pub IsCurrent : List RuleRow → RunRow → Type 0
IsCurrent rules r =
    Any (λ x. (x.rule.id ≡ r.rule_id) × (x.user_id ≡ r.user_id) × (x.rule.revision ≡ r.revision))
      rules

abbrev pub IsOver : RunRow → Type 0
IsOver r = (r.status ≡ succeeded) ⊎ (r.status ≡ cancelled)

-- An earlier run on the message of `r` is over, or its rule has changed.
abbrev pub LetsPass : List RuleRow → RunRow → RunRow → Type 0
LetsPass rules r e =
    e.account_id ≡ r.account_id
    → e.identity ≡ r.identity
    → e.sequence < r.sequence
    → IsOver e ⊎ (¬ IsCurrent rules e)

-- The run waits, or is a command other than an archive whose lease has run out.
abbrev pub IsWaiting : RunRow → Type 0
IsWaiting r = (r.status ≡ pending) ⊎ ((r.status ≡ running) × (next_action r ≢ some archive))

abbrev pub IsReleased : ℕ → Option ℕ → Type 0
IsReleased now none = Unit
IsReleased now (some until) = until ≤ now

-- The run `r` of the table before the claim is the one that the work `w` is for.
pub record IsChosen (owner account : Text) (now : ℕ) (s : RuleStore) (w : RuleWork) (r : RunRow)
    : Type 0 where
  pub listed : Any (λ x. x ≡ r) s.runs
  pub named : r.id ≡ w.id
  pub next : get_elem? r.actions r.completed_actions ≡ some w.action
  pub index : r.completed_actions ≡ w.index
  pub user : r.user_id ≡ owner
  pub account_id : r.account_id ≡ account
  pub waiting : IsWaiting r
  pub free : IsReleased now r.lease_until
  pub current : IsCurrent s.rules r
  pub first : All (LetsPass s.rules r) s.runs

pub is_current-IsCurrent :
    (rules : List RuleRow) (r : RunRow) → is_current rules r ≡ true → IsCurrent rules r
is_current-IsCurrent rules r h =
    let (x, m, t) = exists_where-true _ rules h in
    let (a, b, c) =
      three (text_eq x.rule.id r.rule_id) (text_eq x.user_id r.user_id)
        (x.rule.revision == r.revision) t in
    Any-map (λ y. y ≡ x) _
      (λ y e.
        subst
          (λ v. (v.rule.id ≡ r.rule_id) × (v.user_id ≡ r.user_id) × (v.rule.revision ≡ r.revision))
          (sym e)
          (
            text_eq_sound x.rule.id r.rule_id a,
            text_eq_sound x.user_id r.user_id b,
            ground (arith, c),
          ))
      rules m
  where
    three : (a b c : Bool) → (a && b && c) ≡ true → (a ≡ true) × (b ≡ true) × (c ≡ true)
    three a b c h = ground (arith, h)

pub text_same : (s t : Text) → s ≡ t → text_eq s t ≡ true
text_same s t e = subst (λ v. text_eq s v ≡ true) e (text_eq_refl s)

pub IsCurrent-is_current :
    (rules : List RuleRow) (r : RunRow) → IsCurrent rules r → is_current rules r ≡ true
IsCurrent-is_current rules r h = Any-exists_where _ rules (
    Any-map _ _
      (λ x k.
        rw
          (
            text_same x.rule.id r.rule_id k.0,
            text_same x.user_id r.user_id k.1,
            k.2,
            nat_eq_refl r.revision,
          )
          refl)
      rules h)

pub released : (now : ℕ) (l : Option ℕ) → is_free l now ≡ true → IsReleased now l
released now none h = tt
released now (some t) h = leb→le t now h

pub not_archive : (a : Option RuleAction) → is_archive a ≡ false → a ≢ some archive
not_archive a h e = contradict (is_archive a) (rw e refl) h

pub is_pending-pending : (st : RunStatus) → is_pending st ≡ true → st ≡ pending
is_pending-pending pending h = refl
is_pending-pending running h = cc
is_pending-pending succeeded h = cc
is_pending-pending failed h = cc
is_pending-pending needs_review h = cc
is_pending-pending cancelled h = cc

pub is_running-running : (st : RunStatus) → is_running st ≡ true → st ≡ running
is_running-running pending h = cc
is_running-running running h = refl
is_running-running succeeded h = cc
is_running-running failed h = cc
is_running-running needs_review h = cc
is_running-running cancelled h = cc

pub finished-IsOver :
    (e : RunRow) (st : RunStatus) → e.status ≡ st → is_unfinished st ≡ false → IsOver e
finished-IsOver e pending p h = cc
finished-IsOver e running p h = cc
finished-IsOver e succeeded p h = inl p
finished-IsOver e failed p h = cc
finished-IsOver e needs_review p h = cc
finished-IsOver e cancelled p h = inr p
