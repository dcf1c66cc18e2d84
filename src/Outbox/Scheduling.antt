-- ===== src/Outbox/Scheduling.antt =====
-- The idempotency key of `schedule_outbox` in crates/imail-storage-sqlite/src/outbox.rs.
use i_mail.Base.{
  sym, subst, ℕ, ◌≡◌, ◌≢◌, inl, inr, String, true, false, Option, none, some, [], ◌∷◌, ◌++◌,
  Bool-cases, Option-cases, str_eq, sql_eq, eq_refl, arith, eq_iff,
}
use i_mail.Base.Table.{exists_where, find_where, find_where-none, find_where-append}
use i_mail.Outbox.Types.{
  SendMessageInput, OutboxItem, OutboxStore, OutboxSchedule, Result, ok, err, invalid_content_data,
  idempotency_conflict, constraint_violated, account_not_owned, new_item,
}
use i_mail.Outbox.Calls.{
  read_back, insert_item, or_empty, owns_account, outbox_item, has_key, schedule_outbox,
}

sql_eq-ne :
    (o : Option String) (a b : String)
    → sql_eq o (some a) ≡ true
    → b ≢ a
    → sql_eq o (some b) ≡ false
sql_eq-ne none a b h ne = cc
sql_eq-ne (some c) a b h ne = ground (arith, h, ne, eq_iff c a, eq_iff c b)

module _ (digest : SendMessageInput → String → ℕ → String) (owner : String) where
  abbrev pub fingerprint_of : OutboxSchedule → String
  fingerprint_of input = digest input.message (or_empty input.draft_id) input.scheduled_at

  -- The store holds an item under the request's key, which has the request's fingerprint.
  pub record Holds (input : OutboxSchedule) (x : OutboxItem) (s : OutboxStore) : Type 0 where
    pub owned : owns_account owner input.message.account_id s ≡ true
    pub found :
        (y : OutboxItem) × (find_where (has_key owner input.idempotency_key) s.items ≡ some y)
        × (sql_eq y.request_fingerprint (some (fingerprint_of input)) ≡ true)
        × (read_back owner y.id s ≡ ok (x, s))

  read_back-store :
      (id : String) (s s' : OutboxStore) (x : OutboxItem)
      → read_back owner id s ≡ ok (x, s')
      → s' ≡ s
  read_back-store id s s' x e = elim (Option-cases (outbox_item owner id s)) [
    | inl n ↦
        (let k : ◌≡◌ {A = Result (OutboxItem × OutboxStore)} (err invalid_content_data)
              (ok (x, s')) =
            rw (n, read_back) at e in
          cc)
    | inr (y, n) ↦
        (let k : ◌≡◌ {A = Result (OutboxItem × OutboxStore)} (ok (y, s)) (ok (x, s')) =
            rw (n, read_back) at e in
          ground arith)
  ]

  Holds-of :
      (input : OutboxSchedule) (x y : OutboxItem) (s s' : OutboxStore)
      → owns_account owner input.message.account_id s ≡ true
      → find_where (has_key owner input.idempotency_key) s.items ≡ some y
      → sql_eq y.request_fingerprint (some (fingerprint_of input)) ≡ true
      → read_back owner y.id s ≡ ok (x, s')
      → Holds input x s'
  Holds-of input x y s s' o n f e =
      let same = read_back-store y.id s s' x e in
      subst (Holds input x) (sym same) (record {
        owned = o;
        found = (y, n, f, subst (λ t. read_back owner y.id s ≡ ok (x, t)) same e);
      })

  insert_item-Holds :
      (input : OutboxSchedule) (s : OutboxStore) (x : OutboxItem) (s' : OutboxStore)
      → owns_account owner input.message.account_id s ≡ true
      → find_where (has_key owner input.idempotency_key) s.items ≡ none
      → insert_item owner (fingerprint_of input) input s ≡ ok (x, s')
      → Holds input x s'
  insert_item-Holds input s x s' o n e =
      elim (Bool-cases (exists_where (λ x. str_eq x.id input.id) s.items)) [
        | inl t ↦
            (let k : ◌≡◌ {A = Result (OutboxItem × OutboxStore)} (err constraint_violated)
                  (ok (x, s')) =
                rw t at e in
              cc)
        | inr t ↦
            let item = new_item owner (fingerprint_of input) input in
            Holds-of input x item (record s { items = s.items ++ item ∷ [] }) s' o
              (find_where-append (has_key owner input.idempotency_key) s.items item
                (find_where-none (has_key owner input.idempotency_key) s.items n)
                (rw (eq_refl owner) (eq_refl input.idempotency_key)))
              (eq_refl (fingerprint_of input)) (rw t at e)
      ]

  schedule-Holds :
      (input : OutboxSchedule) (s : OutboxStore) (x : OutboxItem) (s' : OutboxStore)
      → schedule_outbox digest owner input s ≡ ok (x, s')
      → Holds input x s'
  unfolding schedule_outbox
  schedule-Holds input s x s' e =
      elim (Bool-cases (owns_account owner input.message.account_id s)) [
        | inr o ↦
            (let k : ◌≡◌ {A = Result (OutboxItem × OutboxStore)} (err account_not_owned)
                  (ok (x, s')) =
                rw o at e in
              cc)
        | inl o ↦ elim (Option-cases (find_where (has_key owner input.idempotency_key) s.items)) [
          | inl n ↦ insert_item-Holds input s x s' o n (rw (o, n) at e)
          | inr (y, n) ↦
              elim (Bool-cases (sql_eq y.request_fingerprint (some (fingerprint_of input)))) [
                | inl f ↦ Holds-of input x y s s' o n f (rw (o, n, f) at e)
                | inr f ↦
                    (let k : ◌≡◌ {A = Result (OutboxItem × OutboxStore)} (err idempotency_conflict)
                          (ok (x, s')) =
                        rw (o, n, f) at e in
                      cc)
              ]
        ]
      ]

  -- A request that has succeeded, sent again with whatever new identifier and time of the call,
  -- returns the same item and changes nothing.
  pub schedule_repeat :
      (input : OutboxSchedule) (s : OutboxStore) (x : OutboxItem) (s' : OutboxStore) (id : String)
      (now : ℕ)
      → schedule_outbox digest owner input s ≡ ok (x, s')
      → schedule_outbox digest owner (record input { id = id; now = now }) s' ≡ ok (x, s')
  unfolding schedule_outbox
  schedule_repeat input s x s' id now e =
      let h = schedule-Holds input s x s' e in let (y, n, f, r) = h.found in rw (h.owned, n, f) r

  -- After a request has succeeded, another request of that owner under the same key, from an
  -- account that the owner has, fails as a conflict when its fingerprint differs.
  pub schedule_conflict :
      (input : OutboxSchedule) (s : OutboxStore) (x : OutboxItem) (s' : OutboxStore)
      (other : OutboxSchedule)
      → schedule_outbox digest owner input s ≡ ok (x, s')
      → other.idempotency_key ≡ input.idempotency_key
      → owns_account owner other.message.account_id s' ≡ true
      → fingerprint_of other ≢ fingerprint_of input
      → schedule_outbox digest owner other s' ≡ err idempotency_conflict
  unfolding schedule_outbox
  schedule_conflict input s x s' other e same owned differs =
      let h = schedule-Holds input s x s' e in
      let (y, n, f, r) = h.found in
      let n' = subst (λ k. find_where (has_key owner k) s'.items ≡ some y) (sym same) n in
      let g =
        sql_eq-ne y.request_fingerprint (fingerprint_of input) (fingerprint_of other) f differs in
      rw (owned, n', g)
