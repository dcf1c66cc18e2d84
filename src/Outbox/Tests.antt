-- ===== src/Outbox/Tests.antt =====
-- Runs of the outbox at concrete inputs, and the theorems applied to them.
use i_mail.Base.{
  ◌⊎◌, ℕ, ◌≡◌, refl, ◌≢◌, String, true, false, none, some, List, [], ◌∷◌, All, arith, eq_iff,
}
use i_mail.Outbox.Types.{
  OutboxItem, OutboxSchedule, OutboxStore, OutboxWorkItem, SendMessageInput, ok, err,
  idempotency_conflict, new_item,
}
use i_mail.Outbox.Calls.{schedule_outbox}
use i_mail.Outbox.Sending.{claim_due_outbox, complete_outbox, recover_expired, start_sending}
use i_mail.Outbox.Steps.{Call, schedule, retry, claim, fail, run, step}
use i_mail.Outbox.Lifecycle.{Evolves}
use i_mail.Outbox.Progress.{step-Evolves}
use i_mail.Outbox.Delivery.{deliveries, claim_once}
use i_mail.Outbox.Claims.{IsDue, IsHanded, claim_choice}
use i_mail.Outbox.Completion.{complete_not_sending}
use i_mail.Outbox.Invariant.{IsValid, run-IsValid}
use i_mail.Outbox.Scheduling.{fingerprint_of, schedule_repeat, schedule_conflict}

abbrev plain_digest : SendMessageInput → String → ℕ → String
plain_digest m draft at = m.subject

abbrev letter : SendMessageInput
letter = record {
  account_id = "account-1";
  to = "recipient@example.com" ∷ [];
  cc = none;
  bcc = [];
  subject = "Scheduled";
  text = "Body";
  html = none;
  attachments = none;
}

abbrev request : OutboxSchedule
request = record {
  id = "item-1";
  message = letter;
  draft_id = some "draft-1";
  idempotency_key = "request-1";
  scheduled_at = 1000;
  now = 900;
}

abbrev start_store : OutboxStore
start_store = record {
  accounts = record { id = "account-1"; user_id = "owner-1" } ∷ [];
  drafts = "draft-1" ∷ "draft-2" ∷ [];
  items = [];
}

abbrev first_item : OutboxItem
first_item = new_item "owner-1" "Scheduled" request

abbrev one_item : OutboxStore
one_item = record start_store { items = first_item ∷ [] }

first_schedule :
    schedule_outbox plain_digest "owner-1" request start_store ≡ ok (first_item, one_item)
unfolding schedule_outbox
first_schedule = refl

schedule_repeat_example :
    schedule_outbox plain_digest "owner-1" (record request { id = "item-2"; now = 950 }) one_item
    ≡ ok (first_item, one_item)
schedule_repeat_example =
    schedule_repeat plain_digest "owner-1" request start_store first_item one_item "item-2" 950
      first_schedule

abbrev changed : OutboxSchedule
changed = record request { message = record letter { subject = "Different" } }

subjects_differ :
    fingerprint_of plain_digest "owner-1" changed ≢ fingerprint_of plain_digest "owner-1" request
subjects_differ = ground (arith, eq_iff "Different" "Scheduled")

schedule_conflict_example :
    schedule_outbox plain_digest "owner-1" changed one_item ≡ err idempotency_conflict
schedule_conflict_example =
    schedule_conflict plain_digest "owner-1" request start_store first_item one_item changed
      first_schedule refl refl subjects_differ

abbrev work : OutboxWorkItem
work = record { id = "item-1"; owner_id = "owner-1"; message = letter }

claimed : (claim_due_outbox 1000 one_item).0 ≡ some work
unfolding claim_due_outbox
claimed = refl

-- The lease runs out, the item is reviewed, and the calls after it hand out nothing.
abbrev later_calls : List Call
later_calls =
    claim 700_000
    ∷ retry "owner-1" "item-9" 700_001
    ∷ fail "item-1" "SMTP" "late" false 700_002
    ∷ claim 900_000
    ∷ []

claim_once_example :
    All
      (λ v. v.id ≢ "item-1")
      (deliveries plain_digest later_calls (claim_due_outbox 1000 one_item).1)
claim_once_example =
    claim_once plain_digest 1000 one_item work later_calls claimed
      (tt, (ground (arith, eq_iff "item-9" "item-1"), (tt, (tt, tt))))

start_store-IsValid : IsValid start_store.items
start_store-IsValid = record { rows = tt; unique = tt }

run-IsValid_example :
    IsValid
      (run plain_digest (schedule "owner-1" request ∷ claim 1000 ∷ later_calls) start_store).items
run-IsValid_example =
    run-IsValid plain_digest (schedule "owner-1" request ∷ claim 1000 ∷ later_calls) start_store
      start_store-IsValid

claim_choice_example :
    (((claim_due_outbox 1000 one_item).0 ≡ none)
      × ((claim_due_outbox 1000 one_item).1.items ≡ recover_expired 1000 one_item.items)
      × All (λ z. ¬ IsDue 1000 z) one_item.items)
    ⊎ ((x : OutboxItem) × IsHanded 1000 one_item x)
claim_choice_example = claim_choice 1000 one_item (tt, tt)

abbrev sending_row : OutboxItem
sending_row = start_sending 1000 first_item

abbrev sending_store : OutboxStore
sending_store = record start_store { items = sending_row ∷ [] }

complete_not_sending_example : complete_outbox "item-1" "smtp-1" 1100 one_item ≡ (false, one_item)
complete_not_sending_example = complete_not_sending "item-1" "smtp-1" 1100 one_item (λ e k. cc, tt)

drafts_left : (complete_outbox "item-1" "smtp-1" 1100 sending_store).1.drafts ≡ "draft-2" ∷ []
unfolding complete_outbox
drafts_left = refl

step-Evolves_example :
    Evolves sending_store.items
      (step plain_digest (fail "item-1" "SMTP" "late" true 1100) sending_store).items
step-Evolves_example =
    step-Evolves plain_digest (fail "item-1" "SMTP" "late" true 1100) sending_store
