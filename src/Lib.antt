-- ===== src/Lib.antt =====
-- iMail, a local-first mail client: a verification library for the Rust crates under crates/.
--
-- The program keeps mail, an outbox and a sync queue in one SQLite database. HTTP handlers
-- (crates/imail-http) and background workers (crates/imail-runtime) call stores
-- (crates/imail-storage-sqlite), whose methods each run in one transaction. What is modelled is
-- the logic of those methods: a store is a record of tables, a table is the list of its rows, and
-- a method is a function from the store to its answer and the next store. A method that returns an
-- error has rolled its transaction back, so it hands back no store. Since each transaction commits
-- as a whole, a run of concurrent handlers and workers is a list of calls in the order in which
-- they commit.
--
-- Base: lists, texts by code points, and the SQL statements on a table (UPDATE, DELETE, SELECT, ORDER
--   BY … LIMIT 1) with what they keep and find; Base/Unique is a table under a uniqueness constraint.
--
-- Outbox: crates/imail-storage-sqlite/src/outbox.rs. Outbox/Types has the rows; Outbox/Calls has
--   schedule_outbox, cancel_outbox, retry_outbox and resolve_outbox; Outbox/Sending has
--   claim_due_outbox, complete_outbox, fail_outbox, prune_outbox and list_outbox; Outbox/Steps makes
--   a run of the calls. Times are the milliseconds that the stored texts stand for. The SHA-256 digest
--   of a request is a parameter, since it is a third-party crate's. The decoding of rows from their
--   JSON columns is left out: a row holds the decoded message.
--
-- Sync: crates/imail-storage-sqlite/src/sync_runtime.rs. Sync/Types has the rows of sync_jobs,
--   mailbox_sync_states, sync_policies, sync_events and accounts; Sync/Queue has enqueue, claim_next and
--   renew_lease; Sync/Leases has the statements on a leased job; Sync/Finish has mark_started, complete,
--   fail and cancel; Sync/Policies has
--   update_policy and resume_after_authorization; Sync/Reads has the reads of jobs and states and the
--   heartbeats of the workers; Sync/Steps makes a run of the calls. The fresh
--   identifier of a new job is an argument, since a random source makes it. Foreign keys, the primary
--   key and the unique index on active targets are checked where a row is inserted. Counts, priorities
--   and intervals are natural numbers, so the tests for negative ones always pass. The scheduler
--   (enqueue_due_syncs), the message cache (commit_mailbox_sync), the default policy and the reads
--   of events are left out.
--
-- Rules: crates/imail-core/src/rules.rs, with valid_text of crates/imail-core/src/search.rs and
--   valid_mail_address of crates/imail-protocol/src/composition.rs. Rules/Types has rules, messages and
--   JSON values; Rules/Validation has validate and is_remote; Rules/Matching has matches and
--   matching_rules. Rust's to_lowercase is a parameter, since it is a table of Unicode.
--
-- Targets: targets_for_policy, target_key and retry_minutes of crates/imail-core/src/sync_runtime.rs
--   (Targets/Policy), and mailbox_role_for and decode_modified_utf7 of crates/imail-mail/src/sync.rs
--   (Targets/Roles). The decoder of a shift sequence reads the text once, with what it has read of the
--   sequence as its state; the base64 crate and Rust's to_lowercase are parameters. The classification of
--   failures and the plan of a mailbox sync are left out.
--
-- Composition: crates/imail-protocol/src/composition.rs. Composition/Identifiers has
--   normalize_message_id and the validity of reply headers and envelopes; Composition/Preferences has
--   the validity of signatures and templates. A HashSet that only tells new keys is a list of keys.
--
-- Search: SearchFilters and SmartFolderInput of crates/imail-core/src/search.rs (Search/Filters). The
--   parser of RFC 3339 times is chrono's, a parameter.
--
-- Drafts: DraftService of crates/imail-core/src/drafts.rs (Drafts/Service) over the SQLite repository
--   (Drafts/Repository): account of crates/imail-storage-sqlite/src/app_data.rs, list_drafts, upsert_draft
--   and delete_draft of content_data.rs there. A JSON column is the value that it encodes, and the other
--   columns of an account, which the drafts do not read, are left out.
--
-- RuleRuns: crates/imail-storage-sqlite/src/rules.rs, with rule_message of content_data.rs there.
--   RuleRuns/Types has the rows of the tables; RuleRuns/Matches the matches of a message (enqueue_matches,
--   is_muted, load_rules); RuleRuns/Saving save_mail_rule and delete_mail_rule; RuleRuns/Actions
--   claim_rule_action, and RuleRuns/Finish finish_rule_action and retry_mail_rule_run. RuleRuns/Steps lets
--   the methods follow each other in any order, with works that are finished late or twice. Fresh
--   identifiers, the readings of the clock, Rust's to_lowercase and the hash of a message are parameters.
--   RuleRuns/Previews has preview_mail_rule and apply_mail_rule_preview, RuleRuns/Reads the list of runs.
--   The runtime that carries the actions out is left out.
--
-- Conversations: crates/imail-core/src/messages/conversation.rs. Conversations/Union has root and the loop
--   over the links, Conversations/Related the rest of related. The vector of parents is a function, since
--   the code reads it only at indices that it holds. The loop of root runs on fuel, one unit for each link,
--   which is enough since a join makes the trees deeper by at most one step. The messages' fingerprints and
--   serde_json's equality of values are parameters.
--
-- Auth: AuthenticationService of crates/imail-core/src/authentication.rs (Auth/Service) over users, sessions,
--   rate limits and audit events of crates/imail-storage-sqlite/src/auth.rs (Auth/Users, Auth/Limits). A call
--   hands back its answer and the store, since what it did before an error stays. The hashes and the
--   verification of passwords of crates/imail-security, which call cryptographic crates, are parameters, as
--   are the readings of the clock, the random identifiers and tokens, and the tables of Unicode.
--
-- The one function on fuel is root of Conversations/Union, which the paragraph on Conversations explains;
-- every other loop is a pass over a list.
--
-- Not modelled: the network clients (crates/imail-mail-network, crates/imail-oauth-http,
-- crates/imail-apple-hme), cryptography (crates/imail-security), migrations and backups, the HTTP
-- routing, the desktop shell (src-tauri) and the frontend, which are I/O, calls of outside code or
-- views.
pub mod Base
pub mod Outbox
pub mod Sync
pub mod Auth
pub mod Composition
pub mod Conversations
pub mod Drafts
pub mod RuleRuns
pub mod Rules
pub mod Search
pub mod Targets
