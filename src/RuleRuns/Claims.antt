-- ===== src/RuleRuns/Claims.antt =====
-- Which run of the table before `claim_rule_action` of crates/imail-storage-sqlite/src/rules.rs picks.
use i_mail.Base.{
  ℕ, ◌<◌, ◌≡◌, inl, inr, refl, sym, subst, Bool, true, false, not, ◌&&◌, Option, some, All-map, Any,
  arith, Bool-cases, contradict, if◌then◌else◌, ltb, &&-eq-true,
}
use i_mail.Base.Unique.{Any-member}
use i_mail.Base.Table.{update_where, All-updated, Any-updated}
use i_mail.Base.Texts.{Text, text_eq, text_eq_sound}
use i_mail.Base.Result.{ok, Returns-ok}
use i_mail.RuleRuns.Types.{
  RuleStore, RunRow, RunStatus, RuleWork, pending, needs_review, is_pending, is_running,
  is_unfinished,
}
use i_mail.RuleRuns.Actions.{
  is_run_of, is_current, is_outdated, cancel_outdated, is_interrupted, interrupt, is_archive,
  is_before, next_action, claim_rule_action,
}
use i_mail.RuleRuns.Claimed.{recovered, claim-Returns}
use i_mail.RuleRuns.Picked.{IsPicked, chosen}
use i_mail.RuleRuns.Chosen.{
  IsOver, LetsPass, IsWaiting, IsChosen, is_current-IsCurrent, text_same, IsCurrent-is_current,
  released, not_archive, is_pending-pending, is_running-running, finished-IsOver,
}

-- The conjunctions of the queries' tests, taken apart.
last_of_three : (a b c : Bool) → (a && b && not c) ≡ true → c ≡ false
last_of_three a b c h = ground (arith, h)

middle_of_three : (a b c : Bool) → (a && b && c) ≡ true → b ≡ true
middle_of_three a b c h = ground (arith, h)

last_of_four :
    (a b c d : Bool) → (a && b && c && d) ≡ false → a ≡ true → b ≡ true → c ≡ true → d ≡ false
last_of_four a b c d h x y z = ground (arith, h, x, y, z)

pending-not_archive :
    (b : Bool) → is_pending (if b then needs_review else pending) ≡ true → b ≡ false
pending-not_archive true h = cc
pending-not_archive false h = refl

interrupted-unfinished : (b : Bool) → is_unfinished (if b then needs_review else pending) ≡ true
interrupted-unfinished true = refl
interrupted-unfinished false = refl

module _ (owner account : Text) (now later : ℕ) (s : RuleStore) where
  -- What the two updates of the recovery make of a row.
  abbrev returned : RunRow → RunRow
  returned x = if is_interrupted owner account now x then interrupt now x else x

  abbrev revisited : RunRow → RunRow
  revisited x = if is_outdated owner account s.rules x then cancel_outdated now x else x

  -- The pending row `r` is the row `x`, which may have been interrupted.
  record IsFrom (x r : RunRow) : Type 0 where
    status : RunStatus
    error_code : Option Text
    updated_at : ℕ
    same : r ≡ record x { status = status; error_code = error_code; updated_at = updated_at }
    waiting : IsWaiting x

  returned-IsFrom : (x r : RunRow) → returned x ≡ r → is_pending r.status ≡ true → IsFrom x r
  returned-IsFrom x r e h = elim (Bool-cases (is_interrupted owner account now x)) [
    | inl t ↦
        let e' : interrupt now x ≡ r = rw t at e in
        let still = subst (λ v. is_pending v.status ≡ true) (sym e') h in
        record {
          status = (interrupt now x).status;
          error_code = (interrupt now x).error_code;
          updated_at = now;
          same = sym e';
          waiting = inr (
            is_running-running x.status
                (middle_of_three (is_run_of owner account x) (is_running x.status) _ t),
            not_archive (next_action x) (pending-not_archive (is_archive (next_action x)) still),
          );
        }
    | inr t ↦
        let e' : x ≡ r = rw t at e in
        record {
          status = x.status;
          error_code = x.error_code;
          updated_at = x.updated_at;
          same = sym e';
          waiting =
              inl
                (is_pending-pending x.status (subst (λ v. is_pending v.status ≡ true) (sym e') h));
        }
  ]

  recovered-IsFrom :
      (x r : RunRow) → revisited (returned x) ≡ r → is_pending r.status ≡ true → IsFrom x r
  recovered-IsFrom x r e h = elim (Bool-cases (is_outdated owner account s.rules (returned x))) [
    | inl t ↦
        (let e' : cancel_outdated now (returned x) ≡ r = rw t at e in
          let k : ◌≡◌ {A = Bool} false true = subst (λ v. is_pending v.status ≡ true) (sym e') h in
          cc)
    | inr t ↦ returned-IsFrom x r (rw t at e) h
  ]

  -- The row of the table before the recovery.
  origin :
      (r : RunRow)
      → Any (λ x. x ≡ r) (recovered owner account now later s)
      → is_pending r.status ≡ true
      → (x : RunRow) × Any (λ y. y ≡ x) s.runs × IsFrom x r
  origin r m h =
      let runs = update_where (is_interrupted owner account now) (interrupt now) s.runs in
      let (y, n, e) =
        Any-member _ runs
          (Any-updated (is_outdated owner account s.rules) (cancel_outdated now) r runs m) in
      let (x, l, f) =
        Any-member _ s.runs
          (Any-updated (is_interrupted owner account now) (interrupt now) y s.runs n) in
      (x, l, recovered-IsFrom x r (subst (λ v. revisited v ≡ r) (sym f) e) h)

  not_outdated_yet :
      (e : RunRow) → is_current s.rules e ≡ true → is_outdated owner account s.rules e ≡ false
  not_outdated_yet e c = elim (Bool-cases (is_outdated owner account s.rules e)) [
    | inl t ↦
        contradict (is_current s.rules e) c
          (last_of_three (is_run_of owner account e) (is_pending e.status) (is_current s.rules e) t)
    | inr t ↦ t
  ]

  before-finished :
      (x e : RunRow)
      → is_before x e ≡ false
      → e.account_id ≡ x.account_id
      → e.identity ≡ x.identity
      → e.sequence < x.sequence
      → is_unfinished e.status ≡ false
  before-finished x e h a i q =
      last_of_four (text_eq e.account_id x.account_id) (text_eq e.identity x.identity)
        (ltb e.sequence x.sequence) (is_unfinished e.status) h
        (text_same e.account_id x.account_id a) (text_same e.identity x.identity i)
        (ground (arith, q))

  before-IsOver :
      (x e : RunRow)
      → is_current s.rules e ≡ true
      → is_before x (revisited (returned e)) ≡ false
      → e.account_id ≡ x.account_id
      → e.identity ≡ x.identity
      → e.sequence < x.sequence
      → IsOver e
  before-IsOver x e c h a i q = elim (Bool-cases (is_interrupted owner account now e)) [
    | inl t ↦
        let f = not_outdated_yet (interrupt now e) c in
        let g : is_before x (interrupt now e) ≡ false = rw (t, f) at h in
        contradict _ (interrupted-unfinished (is_archive (next_action e)))
          (before-finished x (interrupt now e) g a i q)
    | inr t ↦
        let f = not_outdated_yet e c in
        let g : is_before x e ≡ false = rw (t, f) at h in
        finished-IsOver e e.status refl (before-finished x e g a i q)
  ]

  before-LetsPass :
      (x e : RunRow) → is_before x (revisited (returned e)) ≡ false → LetsPass s.rules x e
  before-LetsPass x e h a i q = elim (Bool-cases (is_current s.rules e)) [
    | inl c ↦ inl (before-IsOver x e c h a i q)
    | inr c ↦ inr (λ k. contradict (is_current s.rules e) (IsCurrent-is_current s.rules e k) c)
  ]

  picked-IsChosen :
      (w : RuleWork) (x : RunRow) (status : RunStatus) (error_code : Option Text) (updated_at : ℕ)
      → IsWaiting x
      → Any (λ y. y ≡ x) s.runs
      → IsPicked owner account now s w
          (record x { status = status; error_code = error_code; updated_at = updated_at })
      → IsChosen owner account now s w x
  picked-IsChosen w x status error_code updated_at waits listed p =
      let (u, a) = &&-eq-true (text_eq x.user_id owner) (text_eq x.account_id account) p.mine in
      let runs = update_where (is_interrupted owner account now) (interrupt now) s.runs in
      record {
        listed = listed;
        named = p.named;
        next = p.next;
        index = p.index;
        user = text_eq_sound x.user_id owner u;
        account_id = text_eq_sound x.account_id account a;
        waiting = waits;
        free = released now x.lease_until p.free;
        current = is_current-IsCurrent s.rules x p.current;
        first =
            All-map _ _ (λ e h. before-LetsPass x e h) s.runs
              (All-updated (λ e. is_before x (revisited e) ≡ false)
                (is_interrupted owner account now) (interrupt now) s.runs
                (All-updated (λ e. is_before x e ≡ false) (is_outdated owner account s.rules)
                  (cancel_outdated now) runs p.first));
      }

  picked-original :
      (w : RuleWork) (r : RunRow)
      → IsPicked owner account now s w r
      → (x : RunRow) × IsChosen owner account now s w x
  picked-original w r p =
      let (x, listed, f) = origin r p.listed p.waiting in
      (
        x,
        picked-IsChosen w x f.status f.error_code f.updated_at f.waiting listed
            (subst (IsPicked owner account now s w) f.same p),
      )

-- Work that is handed out is the next action of a run of that owner and account in the table before:
-- one that was pending, or whose command other than an archive was interrupted; whose lease, if it had
-- one, is over; and with a rule of its user that stands at the revision of the run. Every earlier run
-- on the same message of the account was over by then, or its rule had changed.
pub claim_first :
    (owner account : Text) (now later : ℕ) (s s' : RuleStore) (w : RuleWork)
    → claim_rule_action owner account now later s ≡ ok (some w, s')
    → (r : RunRow) × IsChosen owner account now s w r
claim_first owner account now later s s' w e =
    let Q = λ (q : Option RuleWork × RuleStore).
      (v : RuleWork) → q.0 ≡ some v → (r : RunRow) × IsPicked owner account now s v r in
    let (r, p) =
      Returns-ok Q (claim_rule_action owner account now later s) (some w, s') e
        (claim-Returns owner account now later s Q (λ v h. cc)
          (λ r a h n m g v k. (r, chosen owner account now later s r a h n m v k)))
        w refl in
    picked-original owner account now later s w r p
