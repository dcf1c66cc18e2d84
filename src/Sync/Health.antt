-- ===== src/Sync/Health.antt =====
-- What the health of the workers shows.
use i_mail.Base.{
  ℕ, ◌+◌, ◌≤◌, ◌≡◌, refl, Bool, true, false, not, List, [], ◌∷◌, ◌++◌, All, Any, here, there, inl,
  inr, Bool-cases, str_eq, str_eq_sound, String, arith, ltb, All-map, All-refl,
}
use i_mail.Base.Table.{update_where, delete_where, select_where, exists_where, select_where-All}
use i_mail.Base.Sorting.{sort_by-All, sort_by-Any}
use i_mail.Sync.Types.{SyncStore}
use i_mail.Sync.Reads.{
  SyncWorker, worker_health, heartbeat, is_stale, is_worker, beat, upsert_worker, worker_stale_ms,
}

-- The worker, with a heartbeat at that time.
abbrev pub IsAlive : String → ℕ → SyncWorker → Type 0
IsAlive id at w = (w.worker_id ≡ id) × (w.heartbeat_at ≡ at)

beaten :
    (id : String) (at : ℕ) (workers : List SyncWorker)
    → exists_where (is_worker id) workers ≡ true
    → Any (IsAlive id at) (update_where (is_worker id) (beat at) workers)
beaten id at [] h = cc
beaten id at (w ∷ ws) h = elim (Bool-cases (str_eq w.worker_id id)) [
  | inl e ↦ rw e (here (str_eq_sound w.worker_id id e, refl))
  | inr e ↦ rw e (there (beaten id at ws (rw e at h)))
]

added :
    (id : String) (at : ℕ) (w : SyncWorker) (ws : List SyncWorker)
    → IsAlive id at w
    → Any (IsAlive id at) (ws ++ w ∷ [])
added id at w [] a = here a
added id at w (v ∷ vs) a = there (added id at w vs a)

upserted :
    (new : SyncWorker) (workers : List SyncWorker)
    → Any (IsAlive new.worker_id new.heartbeat_at) (upsert_worker new workers)
upserted new workers = elim (Bool-cases (exists_where (is_worker new.worker_id) workers)) [
  | inl e ↦ rw e (beaten new.worker_id new.heartbeat_at workers e)
  | inr e ↦ rw e (added new.worker_id new.heartbeat_at new workers (refl, refl))
]

fresh_now :
    (id : String) (at now : ℕ) (w : SyncWorker)
    → now ≤ at + worker_stale_ms
    → IsAlive id at w
    → is_stale now w ≡ false
fresh_now id at now w h a = let e = a.1 in ground (arith, h, e)

kept :
    (id : String) (at now : ℕ) (ws : List SyncWorker)
    → now ≤ at + worker_stale_ms
    → Any (IsAlive id at) ws
    → Any (IsAlive id at) (delete_where (is_stale now) ws)
kept id at now [] h a = elim a [ ]
kept id at now (w ∷ ws) h (here k) = rw (fresh_now id at now w h k) (here k)
kept id at now (w ∷ ws) h (there a) = elim (Bool-cases (is_stale now w)) [
  | inl e ↦ rw e (kept id at now ws h a)
  | inr e ↦ rw e (there (kept id at now ws h a))
]

listed :
    (id : String) (at now : ℕ) (ws : List SyncWorker)
    → now ≤ at + worker_stale_ms
    → Any (IsAlive id at) ws
    → Any (IsAlive id at) (select_where (λ w. not (is_stale now w)) ws)
listed id at now [] h a = elim a [ ]
listed id at now (w ∷ ws) h (here k) = rw (fresh_now id at now w h k) (here k)
listed id at now (w ∷ ws) h (there a) = elim (Bool-cases (is_stale now w)) [
  | inl e ↦ rw e (listed id at now ws h a)
  | inr e ↦ rw e (there (listed id at now ws h a))
]

not-true : (b : Bool) → not b ≡ true → b ≡ false
not-true true h = cc
not-true false h = refl

-- A worker that has sent a heartbeat is reported by `worker_health` with that heartbeat until the
-- stale time has passed; and whatever the table holds, no worker is reported whose heartbeat is older
-- than that.
pub worker_health-heartbeat :
    (new : SyncWorker) (workers : List SyncWorker) (now : ℕ) (s : SyncStore)
    → now ≤ new.heartbeat_at + worker_stale_ms
    → Any
        (IsAlive new.worker_id new.heartbeat_at)
        (worker_health now (heartbeat new workers) s).workers
      × All (λ w. is_stale now w ≡ false) (worker_health now (heartbeat new workers) s).workers
unfolding worker_health heartbeat
worker_health-heartbeat new workers now s h =
    let newer = λ (a : SyncWorker) (b : SyncWorker). ltb b.heartbeat_at a.heartbeat_at in
    let table = delete_where (is_stale new.heartbeat_at) (upsert_worker new workers) in
    let alive = IsAlive new.worker_id new.heartbeat_at in
    let shown = select_where (λ w. not (is_stale now w)) table in
    let stays =
      kept new.worker_id new.heartbeat_at new.heartbeat_at (upsert_worker new workers) (omega arith)
        (upserted new workers) in
    (
      sort_by-Any newer alive shown (listed new.worker_id new.heartbeat_at now table h stays),
      sort_by-All newer (λ w. is_stale now w ≡ false) shown
          (All-map (λ w. (w ≡ w) × (not (is_stale now w) ≡ true)) (λ w. is_stale now w ≡ false)
            (λ w k. not-true (is_stale now w) k.1) shown
            (select_where-All (λ w. w ≡ w) (λ w. not (is_stale now w)) table (All-refl table))),
    )
