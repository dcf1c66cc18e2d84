-- ===== src/Auth/Limits.antt =====
-- `consume_attempt`, `clear_attempt` and `record_security_event` of
-- crates/imail-storage-sqlite/src/auth.rs.
use Prim.Native.Nat.{◌/◌}
use i_mail.Base.{
  ℕ, suc, ◌+◌, ◌-◌, max, min, Bool, true, false, ◌&&◌, ◌||◌, Option, none, some, List, [], ◌∷◌,
  ◌++◌, length, take, ltb, leb, ◌==◌, any, if◌then◌else◌,
}
use i_mail.Base.Table.{update_where, delete_where, find_where}
use i_mail.Base.Sorting.{sort_by}
use i_mail.Base.Texts.{Text, codes, text_eq, text_before}
use i_mail.Rules.Validation.{is_empty}
use i_mail.Auth.Types.{Deps, AuthStore, LimitRow, EventRow, RateLimitDecision}

abbrev pub max_rate_limit_rows : ℕ
max_rate_limit_rows = 10_000

abbrev pub rate_limit_prune_rows : ℕ
rate_limit_prune_rows = 100

abbrev pub max_audit_events : ℕ
max_audit_events = 10_000

-- 90 days
abbrev pub audit_retention : ℕ
audit_retention = 7_776_000_000

-- i64::MAX
abbrev pub largest_window : ℕ
largest_window = 9_223_372_036_854_775_807

abbrev pub is_over : ℕ → LimitRow → Bool
is_over now r = leb r.reset_at now

abbrev pub has_key_hash : Text → LimitRow → Bool
has_key_hash h r = text_eq r.key_hash h

abbrev pub count_attempt : LimitRow → LimitRow
count_attempt r = record r { attempt_count = suc r.attempt_count }

-- The rows whose keys are among the first `n` by their ends.
abbrev pub first_ending : ℕ → List LimitRow → List LimitRow
first_ending n rows = take n (sort_by (λ a b. ltb a.reset_at b.reset_at) rows)

abbrev pub prune_limits : List LimitRow → List LimitRow
prune_limits rows =
    if leb max_rate_limit_rows (length rows)
    then delete_where
        (λ r. any (λ x. text_eq x.key_hash r.key_hash) (first_ending rate_limit_prune_rows rows))
        rows
    else rows

abbrev pub first_attempt : Text → ℕ → LimitRow
first_attempt h reset = record { key_hash = h; attempt_count = 1; reset_at = reset }

abbrev pub allow : RateLimitDecision
allow = record { allowed = true; retry_after = 0 }

-- The seconds that are left, rounded up, and one at least.
abbrev pub refuse : ℕ → ℕ → RateLimitDecision
refuse reset now = record {
  allowed = false;
  retry_after = max ((max (reset - now) 1 + 999) / 1_000) 1;
}

abbrev pub consume_row :
    Text → ℕ → ℕ → ℕ → List LimitRow → Option LimitRow → RateLimitDecision × List LimitRow
consume_row h maximum window now rows none =
    (allow, prune_limits rows ++ first_attempt h (now + min window largest_window) ∷ [])
consume_row h maximum window now rows (some r) =
    if leb maximum r.attempt_count
    then (refuse r.reset_at now, rows)
    else (allow, update_where (has_key_hash h) count_attempt rows)

-- The table of limits, by the hash of the key.
unfoldable pub consume_limits : Text → ℕ → ℕ → ℕ → List LimitRow → RateLimitDecision × List LimitRow
consume_limits h maximum window now limits =
    let rows = delete_where (is_over now) limits in
    consume_row h maximum window now rows (find_where (has_key_hash h) rows)

module _ (deps : Deps) where
  unfoldable pub consume_attempt : Text → ℕ → ℕ → ℕ → AuthStore → RateLimitDecision × AuthStore
  unfolding consume_limits
  consume_attempt key maximum window now s =
      let (decision, limits) = consume_limits (deps.sha256_hex key) maximum window now s.limits in
      (decision, record s { limits = limits })

  unfoldable pub clear_attempt : Text → AuthStore → AuthStore
  clear_attempt key s = record s {
    limits = delete_where (has_key_hash (deps.sha256_hex key)) s.limits;
  }

  abbrev pub actor_or_unknown : Text → Text
  actor_or_unknown actor = if is_empty actor then codes "unknown" else actor

  abbrev pub new_event : Text → Text → Text → Option Text → ℕ → EventRow
  new_event id event_type actor user now = record {
    id = id;
    event_type = event_type;
    user_id = user;
    actor_hash = deps.actor_hmac (actor_or_unknown actor);
    created_at = now;
  }

  abbrev pub event_before : EventRow → EventRow → Bool
  event_before a b =
      ltb a.created_at b.created_at || (a.created_at == b.created_at && text_before a.id b.id)

  -- The oldest events beyond the number that is kept.
  abbrev pub prune_events : List EventRow → List EventRow
  prune_events rows =
      let surplus = length rows - max_audit_events in
      let oldest = take surplus (sort_by event_before rows) in
      delete_where (λ r. any (λ x. text_eq x.id r.id) oldest) rows

  unfoldable pub record_security_event :
      Text → Text → Text → Option Text → ℕ → AuthStore → AuthStore
  record_security_event id event_type actor user now s =
      let kept = delete_where (λ e. ltb e.created_at (now - audit_retention)) s.events in
      record s { events = prune_events (kept ++ new_event id event_type actor user now ∷ []) }
