-- ===== src/Sync/Tests.antt =====
-- The sync queue on concrete rows.
use i_mail.Base.{arith, Any, All, ◌+◌, ◌≡◌, refl, true, false, none, some, [], ◌∷◌}
use i_mail.Base.Texts.{is_blank, is_whitespace}
use i_mail.Sync.Types.{
  MailboxSyncState, SyncJob, SyncStore, SyncEnqueue, SyncCompletion, SyncFailure,
  SyncPolicySettings, AccountRow, SyncPolicy, ok, err, lease_lost, running, connected, idle,
}
use i_mail.Sync.Queue.{enqueue, claim_next, new_job}
use i_mail.Sync.Finish.{fail}
use i_mail.Sync.Leases.{insert_event, upsert_state, release, new_state}
use i_mail.Sync.Reads.{mailbox_state_for_target, SyncWorker, worker_health, heartbeat, is_stale}
use i_mail.Sync.Targets.{IsTopState, mailbox_state_for_target-IsTop}
use i_mail.Sync.Health.{IsAlive, worker_health-heartbeat}
use i_mail.Sync.Policies.{update_policy, policy_is_invalid}
use i_mail.Sync.Unique.{IsValid}
use i_mail.Sync.Steps.{run, request, claim, finish, configure}
use i_mail.Sync.Calls.{run_jobs-IsValid}
use i_mail.Sync.Finished.{end, end_once, done, broken}
use i_mail.Sync.Requests.{IsServed, enqueue-IsServed}
use i_mail.Sync.Claims.{IsClaim, claim_next-IsClaim}
use i_mail.Sync.Configured.{IsConfigured, update_policy-IsConfigured}

abbrev account : AccountRow
account = record { id = "a"; connected = true; last_error = none }

abbrev waiting : SyncJob
waiting = new_job "j1" "a" none "inbox" "scheduled" 10 0 0

-- The row under worker "w", until 1,000.
abbrev leased : SyncJob
leased = record (new_job "j2" "a" (some "Work") "custom" "manual" 20 0 0) {
  status = running;
  locked_by = some "w";
  locked_until = some 1_000;
  attempts = 1;
  started_at = some 5;
}

abbrev policy : SyncPolicy
policy = record {
  account_id = "a";
  enabled = true;
  folder_mode = "inbox";
  selected_mailboxes = [];
  notify_on_error = false;
  updated_at = 0;
}

abbrev store : SyncStore
store = record {
  accounts = account ∷ [];
  policies = policy ∷ [];
  jobs = waiting ∷ leased ∷ [];
  states = new_state "a" "INBOX" "inbox" none 0 connected idle ∷ [];
  events = [];
}

store-IsValid : IsValid store.jobs
store-IsValid = (((refl, tt), (tt, tt)), ((refl, refl), ((refl, refl), tt)))

abbrev input : SyncEnqueue
input = record {
  account_id = "a";
  mailbox = some "Work";
  mailbox_role = "custom";
  reason = "manual";
  priority = 90;
  not_before = none;
}

abbrev result : SyncCompletion
result = record {
  mailbox = "Work";
  uid_validity = some "7";
  highest_modseq = none;
  last_seen_uid = 12;
  synced = 2;
  created = 1;
  updated = 1;
  deleted = 0;
  message_changes = [];
}

abbrev failure : SyncFailure
failure = record {
  mailbox = "Work";
  code = "TIMEOUT";
  message = "timed out";
  auth_required = false;
  retry_minutes = some 5;
}

abbrev disabled : SyncPolicySettings
disabled = record {
  enabled = false;
  folder_mode = "inbox";
  selected_mailboxes = [];
  notify_on_error = true;
}

run_jobs-IsValid_example :
    IsValid
      (run
        (request "j3" input 10
          ∷ claim "v" 500 20
          ∷ finish "j4" leased result 30 30
          ∷ configure "a" disabled 40
          ∷ [])
        store).jobs
run_jobs-IsValid_example =
    run_jobs-IsValid
      (request "j3" input 10
        ∷ claim "v" 500 20
        ∷ finish "j4" leased result 30 30
        ∷ configure "a" disabled 40
        ∷ [])
      store store-IsValid

abbrev after_failure : SyncStore
unfolding fail release upsert_state insert_event
after_failure = elim (fail leased failure 50 store) [ ok s ↦ s | err e ↦ store ]

failed_once : end (broken failure 50) leased store ≡ ok after_failure
unfolding fail release upsert_state insert_event
failed_once = refl

end_once_example :
    end
      (done "j5" result 30 60)
      leased
      (run (claim "w" 500 55 ∷ request "j6" input 56 ∷ []) after_failure)
    ≡ err lease_lost
end_once_example =
    end_once (broken failure 50) (done "j5" result 30 60) leased leased store after_failure
      (claim "w" 500 55 ∷ request "j6" input 56 ∷ []) store-IsValid failed_once refl refl

enqueue-IsServed_example : IsServed input (enqueue "j3" input 10 store)
enqueue-IsServed_example = enqueue-IsServed "j3" input 10 store store-IsValid refl refl refl

claim_next-IsClaim_example :
    IsClaim "v" (2_000 + 500) 2_000 store.jobs (claim_next "v" 500 2_000 store)
unfolding is_blank is_whitespace
claim_next-IsClaim_example = claim_next-IsClaim "v" 500 2_000 store store-IsValid refl refl refl

update_policy-IsConfigured_example :
    IsConfigured "a" disabled 40 store.jobs (update_policy "a" disabled 40 store)
unfolding policy_is_invalid
update_policy-IsConfigured_example = update_policy-IsConfigured "a" disabled 40 store refl refl

abbrev worker : SyncWorker
worker = record {
  worker_id = "w";
  process_id = 7;
  host_name = "host";
  started_at = 0;
  heartbeat_at = 100_000;
}

abbrev gone : SyncWorker
gone = record worker { worker_id = "v"; heartbeat_at = 1_000 }

worker_health-heartbeat_example :
    Any (IsAlive "w" 100_000) (worker_health 150_000 (heartbeat worker (gone ∷ [])) store).workers
    × All
        (λ w. is_stale 150_000 w ≡ false)
        (worker_health 150_000 (heartbeat worker (gone ∷ [])) store).workers
worker_health-heartbeat_example =
    worker_health-heartbeat worker (gone ∷ []) 150_000 store (omega arith)

abbrev inbox_state : MailboxSyncState
inbox_state = new_state "a" "INBOX" "inbox" none 0 connected idle

mailbox_state_for_target-IsTop_example :
    IsTopState "a" none "inbox" store.states (mailbox_state_for_target "a" none "inbox" store)
mailbox_state_for_target-IsTop_example = mailbox_state_for_target-IsTop "a" none "inbox" store

inbox_found : mailbox_state_for_target "a" none "inbox" store ≡ some inbox_state
unfolding mailbox_state_for_target
inbox_found = refl
