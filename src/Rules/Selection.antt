-- ===== src/Rules/Selection.antt =====
-- Which rules `matching_rules` selects, and in which order.
use i_mail.Base.{
  ◌≡◌, refl, sym, subst, Bool, true, false, List, [], ◌∷◌, All, All-map, All-Any, Any, here, there,
  inl, inr, ◌⊎◌, if◌then◌else◌, arith,
}
use i_mail.Base.Table.{select_where, select_where-All, select_where-Any}
use i_mail.Base.Sorting.{
  sort_by, IsSorted, sort_by-IsSorted, sort_by-All, sort_by-Any, text_before_asym,
  text_before_trans, text_eq-sym, equal_not_before, equal_between,
}
use i_mail.Base.Texts.{Text}
use i_mail.Rules.Types.{MailRule, MessageReadModel}
use i_mail.Rules.Matching.{matches, runs_before, collect, matching_rules}

module _ (to_lowercase : Text → Text) where
  runs_before_asym :
      (a b : MailRule) → runs_before to_lowercase a b ≡ true → runs_before to_lowercase b a ≡ false
  runs_before_asym a b h = ground (
    arith,
    h,
    text_before_asym a.created_at b.created_at,
    text_before_asym a.id b.id,
    text_eq-sym a.created_at b.created_at,
    equal_not_before a.created_at b.created_at,
    equal_not_before b.created_at a.created_at,
  )

  runs_before_trans :
      (a b c : MailRule)
      → runs_before to_lowercase b a ≡ false
      → runs_before to_lowercase c b ≡ false
      → runs_before to_lowercase c a ≡ false
  runs_before_trans a b c h k = ground (
    arith,
    h,
    k,
    text_before_trans a.created_at b.created_at c.created_at,
    text_before_trans a.id b.id c.id,
    equal_between a.created_at b.created_at c.created_at,
  )

  -- The rule is enabled, matches the message and has the property.
  abbrev pub Selected : (MailRule → Type 0) → MessageReadModel → MailRule → Type 0
  Selected P m r = P r × (r.input.enabled ≡ true) × (matches to_lowercase r.input m ≡ true)

  -- Rules in the order in which they run: none comes strictly before an earlier one, and only the last
  -- one stops the processing.
  abbrev pub IsRun : List MailRule → Type 0
  IsRun [] = Unit
  IsRun (r ∷ rs) =
      All (λ q. (runs_before to_lowercase q r ≡ false) × (r.input.stop_processing ≡ false)) rs
      × IsRun rs

  -- Left out only behind a selected rule that stops the processing and does not run after it.
  abbrev pub IsStopped : MailRule → MailRule → Type 0
  IsStopped r q = (q.input.stop_processing ≡ true) × (runs_before to_lowercase r q ≡ false)

  -- One round of the loop: whether the rule matches, and whether it stops the processing.
  abbrev round : Bool → Bool → MailRule → List MailRule → List MailRule
  round b c r rest = if b then r ∷ (if c then [] else rest) else rest

  round-All :
      (Q : MailRule → Type 0) (b c : Bool) (r : MailRule) (rest : List MailRule)
      → (b ≡ true → Q r)
      → All Q rest
      → All Q (round b c r rest)
  round-All Q true true r rest k h = (k refl, tt)
  round-All Q true false r rest k h = (k refl, h)
  round-All Q false c r rest k h = h

  round-IsRun :
      (b c : Bool) (r : MailRule) (rest : List MailRule)
      → r.input.stop_processing ≡ c
      → All (λ q. runs_before to_lowercase q r ≡ false) rest
      → IsRun rest
      → IsRun (round b c r rest)
  round-IsRun true true r rest e k h = (tt, tt)
  round-IsRun true false r rest e k h = (
    All-map (λ q. runs_before to_lowercase q r ≡ false)
        (λ q. (runs_before to_lowercase q r ≡ false) × (r.input.stop_processing ≡ false))
        (λ q l. (l, e)) rest k,
    h,
  )
  round-IsRun false c r rest e k h = h

  round-Any :
      (r : MailRule) (b c : Bool) (q : MailRule) (rest : List MailRule)
      → q.input.stop_processing ≡ c
      → runs_before to_lowercase r q ≡ false
      → Any (λ v. (v ≡ r) ⊎ IsStopped r v) rest
      → Any (λ v. (v ≡ r) ⊎ IsStopped r v) (round b c q rest)
  round-Any r true true q rest e k a = here (inr (e, k))
  round-Any r true false q rest e k a = there a
  round-Any r false c q rest e k a = a

  module _ (m : MessageReadModel) where
    collect-All :
        (P : MailRule → Type 0) (rs : List MailRule)
        → All P rs
        → All (λ r. P r × (matches to_lowercase r.input m ≡ true)) (collect to_lowercase m rs)
    collect-All P [] h = tt
    collect-All P (r ∷ rs) h =
        round-All (λ v. P v × (matches to_lowercase v.input m ≡ true))
          (matches to_lowercase r.input m) r.input.stop_processing r (collect to_lowercase m rs)
          (λ e. (h.0, e)) (collect-All P rs h.1)

    collect-IsRun :
        (rs : List MailRule)
        → IsSorted (runs_before to_lowercase) rs
        → IsRun (collect to_lowercase m rs)
    collect-IsRun [] h = tt
    collect-IsRun (r ∷ rs) h =
        round-IsRun (matches to_lowercase r.input m) r.input.stop_processing r
          (collect to_lowercase m rs) refl
          (All-map
            (λ q. (runs_before to_lowercase q r ≡ false) × (matches to_lowercase q.input m ≡ true))
            (λ q. runs_before to_lowercase q r ≡ false) (λ q k. k.0) (collect to_lowercase m rs)
            (collect-All (λ q. runs_before to_lowercase q r ≡ false) rs h.0))
          (collect-IsRun rs h.1)

    collect-Any :
        (r : MailRule) (rs : List MailRule)
        → IsSorted (runs_before to_lowercase) rs
        → matches to_lowercase r.input m ≡ true
        → Any (λ q. q ≡ r) rs
        → Any (λ q. (q ≡ r) ⊎ IsStopped r q) (collect to_lowercase m rs)
    collect-Any r [] h t a = elim a [ ]
    collect-Any r (q ∷ rs) h t (here e) =
        let found : matches to_lowercase q.input m ≡ true =
          subst (λ v. matches to_lowercase v.input m ≡ true) (sym e) t in
        rw found (here (inl e))
    collect-Any r (q ∷ rs) h t (there a) =
        round-Any r (matches to_lowercase q.input m) q.input.stop_processing q
          (collect to_lowercase m rs) refl
          (All-Any (λ v. runs_before to_lowercase v q ≡ false) rs r h.0 a)
          (collect-Any r rs h.1 t a)

  -- What `matching_rules` returns are rules of the list, each enabled and matching the message; no rule
  -- of the result comes, by priority, creation and identifier, strictly before an earlier one; and
  -- only its last rule stops the processing.
  pub matching_rules-IsRun :
      (P : MailRule → Type 0) (rules : List MailRule) (m : MessageReadModel)
      → All P rules
      → All (Selected P m) (matching_rules to_lowercase rules m)
        × IsRun (matching_rules to_lowercase rules m)
  unfolding matching_rules
  matching_rules-IsRun P rules m h =
      let before = runs_before to_lowercase in
      let enabled = select_where (λ r. r.input.enabled) rules in
      (
        All-map (λ r. (P r × (r.input.enabled ≡ true)) × (matches to_lowercase r.input m ≡ true))
            (Selected P m) (λ r k. (k.0.0, k.0.1, k.1)) (matching_rules to_lowercase rules m)
            (collect-All m (λ r. P r × (r.input.enabled ≡ true)) (sort_by before enabled)
              (sort_by-All before (λ r. P r × (r.input.enabled ≡ true)) enabled
                (select_where-All P (λ q. q.input.enabled) rules h))),
        collect-IsRun m (sort_by before enabled)
            (sort_by-IsSorted before runs_before_asym runs_before_trans enabled),
      )

  -- An enabled rule of the list that matches the message is in the result of `matching_rules`, or the
  -- result has a rule that stops the processing and that this rule does not run before.
  pub matching_rules-Any :
      (rules : List MailRule) (m : MessageReadModel) (r : MailRule)
      → Any (λ q. q ≡ r) rules
      → r.input.enabled ≡ true
      → matches to_lowercase r.input m ≡ true
      → Any (λ q. (q ≡ r) ⊎ IsStopped r q) (matching_rules to_lowercase rules m)
  unfolding matching_rules
  matching_rules-Any rules m r a e t =
      let before = runs_before to_lowercase in
      let enabled = select_where (λ q. q.input.enabled) rules in
      collect-Any m r (sort_by before enabled)
        (sort_by-IsSorted before runs_before_asym runs_before_trans enabled) t
        (sort_by-Any before (λ q. q ≡ r) enabled
          (select_where-Any (λ q. q.input.enabled) r rules e a))
