-- ===== src/Auth/Ends.antt =====
-- What holds where a call of crates/imail-core/src/authentication.rs ends without an error, and the
-- session that `create_session` of crates/imail-storage-sqlite/src/auth.rs opens.
use i_mail.Base.{
  ℕ, ◌≡◌, refl, subst, Bool, true, false, ◌||◌, List, [], ◌∷◌, ◌++◌, leb, All, All-map, arith,
}
use i_mail.Base.Table.{exists_where, exists_where-false, delete_where}
use i_mail.Base.Texts.{Text, text_eq}
use i_mail.Base.Result.{ok, err, ◌>>◌, fail_if}
use i_mail.Auth.Types.{
  Deps, AuthStore, SessionRow, RateLimitDecision, limited, sqlite, Call, then_, run_store,
}
use i_mail.Auth.Users.{has_token, new_session, breaks_session, create_session}
use i_mail.Auth.Service.{unless_limited}

-- What holds of the answer and of the store, where a call ends without an error.
abbrev pub Ends : {A : Type 0} → (A → AuthStore → Type 0) → Call A → Type 0
Ends P (ok a, s) = P a s
Ends P (err e, s) = Unit

pub Ends-then_ :
    {A B : Type 0} (P : A → AuthStore → Type 0) (Q : B → AuthStore → Type 0) (m : Call A)
    (k : A → AuthStore → Call B)
    → Ends P m
    → ((a : A) (s : AuthStore) → P a s → Ends Q (k a s))
    → Ends Q (then_ m k)
Ends-then_ P Q (ok a, s) k h f = f a s h
Ends-then_ P Q (err e, s) k h f = tt

pub Ends-limited :
    {A : Type 0} (deps : Deps) (Q : A → AuthStore → Type 0) (r : RateLimitDecision × AuthStore)
    (k : AuthStore → Call A)
    → Ends Q (k r.1)
    → Ends Q (unless_limited deps r k)
Ends-limited deps Q (d, s) k h = cases d.allowed
  where
    cases : (b : Bool) → Ends Q (elim b [ true ↦ k s | false ↦ (err (limited d.retry_after), s) ])
    cases true = h
    cases false = tt

-- A session that was opened: the last row, and the only one of its token.
pub record IsOpened (deps : Deps) (id raw user : Text) (now : ℕ) (s : AuthStore) : Type 0 where
  pub rest : List SessionRow
  pub rows : s.sessions ≡ rest ++ new_session deps id raw user now ∷ []
  pub alone : All (λ y. has_token deps raw y ≡ false) rest

either_false : (a b : Bool) → (a || b) ≡ false → (a ≡ false) × (b ≡ false)
either_false a b h = ground (arith, h)

pub create_session-IsOpened :
    (deps : Deps) (id raw user : Text) (now : ℕ) (s : AuthStore)
    → Ends
        (λ r t. (r ≡ raw) × ((t.users ≡ s.users) × IsOpened deps id raw user now t))
        (run_store s (create_session deps id raw user now s))
unfolding create_session
create_session-IsOpened deps id raw user now s = cases (breaks_session deps x s.users rows) refl
  where
    rows : List SessionRow
    rows = delete_where (λ y. leb y.expires_at now) s.sessions

    x : SessionRow
    x = new_session deps id raw user now

    cases :
        (b : Bool)
        → breaks_session deps x s.users rows ≡ b
        → Ends
            (λ r t. (r ≡ raw) × ((t.users ≡ s.users) × IsOpened deps id raw user now t))
            (run_store s (fail_if b sqlite >> ok (raw, record s { sessions = rows ++ x ∷ [] })))
    cases true e = tt
    cases false e =
        let clash =
          (either_false
            (exists_where (λ y. text_eq y.id id || text_eq y.token_hash (deps.sha256_hex raw)) rows)
            _ e).0 in
        (
          refl,
          (
            refl,
            record {
              rest = rows;
              rows = refl;
              alone =
                  All-map
                    (λ y. (text_eq y.id id || text_eq y.token_hash (deps.sha256_hex raw)) ≡ false)
                    (λ y. has_token deps raw y ≡ false)
                    (λ y n.
                      (either_false (text_eq y.id id) (text_eq y.token_hash (deps.sha256_hex raw))
                        n).1)
                    rows
                    (exists_where-false
                      (λ y. text_eq y.id id || text_eq y.token_hash (deps.sha256_hex raw)) rows
                      clash);
            },
          ),
        )

pub Ends-ok :
    {A : Type 0} (P : A → AuthStore → Type 0) (m : Call A) (a : A) (t : AuthStore)
    → Ends P m
    → m ≡ (ok a, t)
    → P a t
Ends-ok P m a t h e = subst (Ends P) e h
