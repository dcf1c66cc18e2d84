-- ===== src/RuleRuns/Steps.antt =====
-- The methods of crates/imail-storage-sqlite/src/rules.rs in any order: which works were handed out, and
-- what becomes of the store.
use i_mail.Base.{ℕ, ◌≡◌, Option, none, some, List, ◌∷◌, get_elem?}
use i_mail.Base.Texts.{Text}
use i_mail.Base.Result.{ok}
use i_mail.Rules.Types.{MailRule, MailRuleInput}
use i_mail.RuleRuns.Types.{RuleStore, MessageRow, RuleWork}
use i_mail.RuleRuns.Matches.{Matched, enqueue_matches}
use i_mail.RuleRuns.Saving.{save_mail_rule, delete_mail_rule}
use i_mail.RuleRuns.Actions.{claim_rule_action}
use i_mail.RuleRuns.Finish.{ActionOutcome, finish_rule_action, retry_mail_rule_run}

-- The store, and the works that workers were handed, the last one first.
pub record RuleState : Type 0 where
  pub store : RuleStore
  pub works : List RuleWork

abbrev pub note : Option RuleWork → List RuleWork → List RuleWork
note none ws = ws
note (some w) ws = w ∷ ws

abbrev pub state : RuleStore → List RuleWork → RuleState
state s ws = record { store = s; works = ws }

-- One call that does not fail; a work is finished by a worker that was handed it, once or more often,
-- late or in time.
pub data RuleStep : RuleState → RuleState → Type 0 where
  claim :
      (owner account : Text) (now later : ℕ) (a : RuleState) (o : Option RuleWork) (s : RuleStore)
      → claim_rule_action owner account now later a.store ≡ ok (o, s)
      → RuleStep a (state s (note o a.works))
  finish :
      (owner : Text) (n : ℕ) (w : RuleWork) (outcome : ActionOutcome) (now later : ℕ)
      (a : RuleState) (s : RuleStore)
      → get_elem? a.works n ≡ some w
      → finish_rule_action owner w outcome now later a.store ≡ ok s
      → RuleStep a (state s a.works)
  retry :
      (fresh owner id : Text) (now : ℕ) (a : RuleState)
      → RuleStep a (state (retry_mail_rule_run fresh owner id now a.store).1 a.works)
  save :
      (to_rfc3339 : ℕ → Text) (fresh owner : Text) (id : Option Text) (input : MailRuleInput)
      (now : ℕ) (a : RuleState) (o : Option MailRule) (s : RuleStore)
      → save_mail_rule to_rfc3339 fresh owner id input now a.store ≡ ok (o, s)
      → RuleStep a (state s a.works)
  delete :
      (owner id : Text) (now : ℕ) (a : RuleState)
      → RuleStep a (state (delete_mail_rule owner id now a.store).1 a.works)
  match_rules :
      (to_lowercase : Text → Text) (fresh : ℕ → Text) (owner : Text) (rules : List MailRule)
      (message : MessageRow) (source : Text) (now : ℕ) (a : RuleState) (m : Matched)
      → enqueue_matches to_lowercase fresh owner rules message source now a.store ≡ ok m
      → RuleStep a (state m.store a.works)

pub data RuleSteps : RuleState → RuleState → Type 0 where
  stop : {a : RuleState} → RuleSteps a a
  next : {a b c : RuleState} → RuleStep a b → RuleSteps b c → RuleSteps a c
