-- ===== src/Rules/Soundness.antt =====
-- Valid rules of crates/imail-core/src/rules.rs, and which rules act.
use Prim.Native.Nat.{zero}
use mathlib.Core.Option.{some-injective}
use i_mail.Base.{
  subst, ℕ, suc, ◌≡◌, refl, sym, ap, Bool, true, false, not, ◌&&◌, ◌||◌, Option, none, some, List,
  [], ◌∷◌, Any, here, there, inl, inr, Bool-cases, any, all, length, get_elem?, arith, is_some, ltb,
  &&-eq-true, if◌then◌else◌,
}
use i_mail.Base.Texts.{Text, text_eq}
use i_mail.Rules.Types.{
  RuleCondition, RuleAction, archive, MailRuleInput, MessageReadModel, RuleMatchMode, match_all,
  match_any, RuleError, invalid_size, invalid_condition, invalid_name,
}
use i_mail.Rules.Validation.{
  validate, valid_text, or_else, error_if, action_error, actions_error, in_range,
  is_valid_condition, is_empty,
}
use i_mail.Rules.Matching.{matches, mode_matches, condition_matches}

or_else-none : (e f : Option RuleError) → or_else e f ≡ none → (e ≡ none) × (f ≡ none)
or_else-none none f h = (refl, h)
or_else-none (some e) f h = cc

error_if-none : (b : Bool) (e : RuleError) → error_if b e ≡ none → b ≡ false
error_if-none true e h = cc
error_if-none false e h = refl

action-last : (rest : List RuleAction) → action_error archive rest ≡ none → length rest ≡ 0
action-last [] h = refl
action-last (a ∷ rest) h = cc

archive-last :
    (actions : List RuleAction) (i : ℕ)
    → actions_error actions ≡ none
    → get_elem? actions i ≡ some archive
    → suc i ≡ length actions
archive-last [] i h e = cc
archive-last (a ∷ rest) zero h e =
    let same : a ≡ archive = some-injective a archive e in
    let first = (or_else-none (action_error a rest) (actions_error rest) h).0 in
    let moved : action_error archive rest ≡ none =
      subst (λ v. action_error v rest ≡ none) same first in
    ap suc (sym (action-last rest moved))
archive-last (a ∷ rest) (suc i) h e =
    ap suc (archive-last rest i (or_else-none (action_error a rest) (actions_error rest) h).1 e)

in_range-true : (a b c d : Bool) → (a || b || not c || not d) ≡ false → c ≡ true
in_range-true a b c d h = ground (arith, h)

-- What `validate` establishes of the sizes, the conditions and the actions.
validate-parts :
    (r : MailRuleInput)
    → validate r ≡ none
    → (in_range (length r.conditions) ≡ true)
      × (any (λ c. not (is_valid_condition c)) r.conditions ≡ false)
      × (actions_error r.actions ≡ none)
unfolding validate
validate-parts r h =
    let name = error_if (not (valid_text r.name 80) || ltb 10_000 r.priority) invalid_name in
    let bad =
      ltb 100 (length r.account_ids)
      || any (λ id. not (valid_text id 200)) r.account_ids
      || not (in_range (length r.conditions))
      || not (in_range (length r.actions)) in
    let conditions = any (λ c. not (is_valid_condition c)) r.conditions in
    let b = (or_else-none name _ h).1 in
    let c = or_else-none (error_if bad invalid_size) _ b in
    let d = or_else-none (error_if conditions invalid_condition) (actions_error r.actions) c.1 in
    let size = error_if-none bad invalid_size c.0 in
    (
      in_range-true (ltb 100 (length r.account_ids))
          (any (λ id. not (valid_text id 200)) r.account_ids) (in_range (length r.conditions))
          (in_range (length r.actions)) size,
      error_if-none conditions invalid_condition d.0,
      d.1,
    )

-- In a rule that `validate` accepts, an archive action can only be the last one, so there is at most
-- one.
pub validate-archive :
    (r : MailRuleInput) (i : ℕ)
    → validate r ≡ none
    → get_elem? r.actions i ≡ some archive
    → suc i ≡ length r.actions
validate-archive r i h e = archive-last r.actions i (validate-parts r h).2 e

module _ (to_lowercase : Text → Text) where
  guards :
      (a b : Bool) (e : Option RuleError) (k : Bool)
      → (if not a && not b then false else if is_some e then false else k) ≡ true
      → ((a || b) ≡ true) × (e ≡ none) × (k ≡ true)
  guards true b none k h = (refl, refl, h)
  guards true b (some e) k h = cc
  guards false true none k h = (refl, refl, h)
  guards false true (some e) k h = cc
  guards false false e k h = cc

  any-Any :
      (p : RuleCondition → Bool) (cs : List RuleCondition)
      → any p cs ≡ true
      → Any (λ c. p c ≡ true) cs
  any-Any p [] h = cc
  any-Any p (c ∷ cs) h = elim (Bool-cases (p c)) [
    | inl e ↦ here e
    | inr e ↦ there (any-Any p cs (rw e at h))
  ]

  mode-Any :
      (mode : RuleMatchMode) (cs : List RuleCondition) (m : MessageReadModel)
      → in_range (length cs) ≡ true
      → mode_matches to_lowercase mode cs m ≡ true
      → Any (λ c. condition_matches to_lowercase c m ≡ true) cs
  mode-Any match_all [] m i h = cc
  mode-Any match_all (c ∷ cs) m i h =
      here
        (&&-eq-true (condition_matches to_lowercase c m)
          (all (λ d. condition_matches to_lowercase d m) cs) h).0
  mode-Any match_any cs m i h = any-Any (λ c. condition_matches to_lowercase c m) cs h

  -- A rule that matches a message is valid and covers the message's account, and one of its conditions
  -- at least holds of the message: no empty or malformed rule matches anything.
  pub matches-Any :
      (r : MailRuleInput) (m : MessageReadModel)
      → matches to_lowercase r m ≡ true
      → (validate r ≡ none)
        × ((is_empty r.account_ids || any (λ id. text_eq id m.account_id) r.account_ids) ≡ true)
        × Any (λ c. condition_matches to_lowercase c m ≡ true) r.conditions
  unfolding matches
  matches-Any r m h =
      let (a, v, k) =
        guards (is_empty r.account_ids) (any (λ id. text_eq id m.account_id) r.account_ids)
          (validate r) (mode_matches to_lowercase r.match_mode r.conditions m) h in
      (v, a, mode-Any r.match_mode r.conditions m (validate-parts r v).0 k)
