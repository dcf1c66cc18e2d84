-- ===== src/Outbox/Steps.antt =====
-- The calls that the HTTP handlers and the send worker make on the outbox, as one step function, so
-- that a run of the service is a list of calls in the order in which their transactions commit.
use i_mail.Base.{ℕ, String, Bool, Option, none, List, [], ◌∷◌}
use i_mail.Outbox.Types.{
  SendMessageInput, OutboxItem, OutboxStore, OutboxSchedule, OutboxWorkItem, Result, ok, err,
}
use i_mail.Outbox.Calls.{schedule_outbox, cancel_outbox, retry_outbox, resolve_outbox}
use i_mail.Outbox.Sending.{claim_due_outbox, complete_outbox, fail_outbox, prune_outbox}

pub data Call : Type 0 where
  schedule : (owner : String) → OutboxSchedule → Call
  cancel retry : (owner id : String) → (now : ℕ) → Call
  resolve : (owner id : String) → (was_sent : Bool) → (now : ℕ) → Call
  claim : (now : ℕ) → Call
  complete : (id message_id : String) → (now : ℕ) → Call
  fail : (id code message : String) → (uncertain : Bool) → (now : ℕ) → Call
  prune : (before : ℕ) → Call

-- The store after a call that may fail: an error has rolled the transaction back.
abbrev pub commit : Result (OutboxItem × OutboxStore) → OutboxStore → OutboxStore
commit (ok (item, s')) s = s'
commit (err e) s = s

module _ (digest : SendMessageInput → String → ℕ → String) where
  abbrev pub step : Call → OutboxStore → OutboxStore
  step (schedule owner input) s = commit (schedule_outbox digest owner input s) s
  step (cancel owner id now) s = (cancel_outbox owner id now s).1
  step (retry owner id now) s = (retry_outbox owner id now s).1
  step (resolve owner id was_sent now) s = (resolve_outbox owner id was_sent now s).1
  step (claim now) s = (claim_due_outbox now s).1
  step (complete id message_id now) s = (complete_outbox id message_id now s).1
  step (fail id code message uncertain now) s = (fail_outbox id code message uncertain now s).1
  step (prune before) s = (prune_outbox before s).1

  -- The work item that the call hands to the sender.
  abbrev pub handed : Call → OutboxStore → Option OutboxWorkItem
  handed (claim now) s = (claim_due_outbox now s).0
  handed _ s = none

  abbrev pub run : List Call → OutboxStore → OutboxStore
  run [] s = s
  run (c ∷ cs) s = run cs (step c s)
