-- ===== src/Auth/Registration.antt =====
-- What a registration of crates/imail-core/src/authentication.rs that succeeds has checked.
use i_mail.Base.{
  ℕ, ◌≡◌, refl, ◌∙◌, ap, subst, inl, inr, Bool, true, false, not, ◌&&◌, ◌||◌, Option, none, some,
  [], ◌∷◌, ◌++◌, Bool-cases, All,
}
use i_mail.Base.Texts.{Text, codes}
use i_mail.Base.Result.{Result, ok, err, ◌>>=◌, ok_or}
use i_mail.Rules.Validation.{is_empty}
use i_mail.Auth.Types.{Deps, AuthStore, AppUserView, AuthError, Call, then_, run_store}
use i_mail.Auth.Limits.{consume_attempt, record_security_event}
use i_mail.Auth.Users.{
  setup_required, has_login, has_user_id, create_user_if_allowed, create_session,
}
use i_mail.Auth.Service.{
  RegistrationInput, AuthenticatedSession, public_user, public_session, bad_request,
  validate_registration, registered, register_limited, register, registration_maximum,
  registration_window_ms,
}
use i_mail.Auth.Ends.{Ends, Ends-then_, Ends-limited, Ends-ok, IsOpened, create_session-IsOpened}
use i_mail.Auth.Added.{IsAdded, create-IsAdded}

-- A registration: its input was valid, the user was added, and a session opened for it.
pub record IsRegistered (deps : Deps) (clock : ℕ → ℕ) (fresh : ℕ → Text) (configured : Bool)
    (s : AuthStore) (i : RegistrationInput) (out : AuthenticatedSession) (t : AuthStore)
    : Type 0 where
  pub user : AppUserView
  pub answer : out.user ≡ public_user user
  pub added : IsAdded deps (fresh 0) configured (clock 1) s i user t
  pub opened : IsOpened deps (fresh 2) (fresh 3) user.id (clock 3) t

-- Later changes that keep the users.
kept-IsAdded :
    (deps : Deps) (id : Text) (configured : Bool) (now : ℕ) (s s' : AuthStore)
    (i : RegistrationInput) (user : AppUserView) (t t' : AuthStore)
    → s'.users ≡ s.users
    → t'.users ≡ t.users
    → IsAdded deps id configured now s' i user t
    → IsAdded deps id configured now s i user t'
unfolding setup_required
kept-IsAdded deps id configured now s s' i user t t' e f h = record {
  hash = h.hash;
  permitted = subst (λ us. (is_empty us || configured) ≡ true) e h.permitted;
  made = h.made;
  hashed = h.hashed;
  fresh = subst (All (λ r. (has_user_id user.id r || has_login user.login r) ≡ false)) e h.fresh;
  users = f ∙ h.users ∙ ap (λ us. us ++ record { user = user; password_hash = h.hash } ∷ []) e;
}

module _ (deps : Deps) (clock : ℕ → ℕ) (fresh : ℕ → Text) (actor : Text) (configured : Bool)
    (s : AuthStore) where
  registered-IsRegistered :
      (i : RegistrationInput) (s' : AuthStore)
      → s'.users ≡ s.users
      → (o : Option AppUserView) (t : AuthStore)
      → ((u : AppUserView) → o ≡ some u → IsAdded deps (fresh 0) configured (clock 1) s' i u t)
      → Ends (IsRegistered deps clock fresh configured s i) (registered deps clock fresh actor o t)
  unfolding record_security_event
  registered-IsRegistered i s' same none t k = tt
  registered-IsRegistered i s' same (some user) t k =
      let t' =
        record_security_event deps (fresh 1) (codes "registration.succeeded") actor (some user.id)
          (clock 2) t in
      Ends-then_
        (λ raw v.
          (raw ≡ fresh 3)
          × ((v.users ≡ t'.users) × IsOpened deps (fresh 2) (fresh 3) user.id (clock 3) v))
        (IsRegistered deps clock fresh configured s i)
        (run_store t' (create_session deps (fresh 2) (fresh 3) user.id (clock 3) t'))
        (λ raw v. (ok (public_session user raw), v))
        (create_session-IsOpened deps (fresh 2) (fresh 3) user.id (clock 3) t')
        (λ raw v (raw_same, (users, opened)). record {
          user = user;
          answer = refl;
          added =
              kept-IsAdded deps (fresh 0) configured (clock 1) s s' i user t v same users
                (k user refl);
          opened = opened;
        })

  widen :
      (r : Result AuthError RegistrationInput) (i : RegistrationInput)
      (m : Call AuthenticatedSession)
      → r ≡ ok i
      → Ends (IsRegistered deps clock fresh configured s i) m
      → Ends
          (λ out t.
            (j : RegistrationInput) × ((r ≡ ok j)
              × IsRegistered deps clock fresh configured s j out t))
          m
  widen r i (ok out, t) e h = (i, (e, h))
  widen r i (err x, t) e h = tt

  limited-IsRegistered :
      (r : Result AuthError RegistrationInput) (s' : AuthStore)
      → s'.users ≡ s.users
      → (v : Result AuthError RegistrationInput) → r ≡ v
      → Ends
          (λ out t.
            (i : RegistrationInput) × ((r ≡ ok i)
              × IsRegistered deps clock fresh configured s i out t))
          (then_
            (v, s')
            (λ i s1.
              then_
                (run_store s1 (
                  create_user_if_allowed deps
                    (fresh 0)
                    i.login
                    i.display_name
                    i.password
                    configured
                    (clock 1)
                    s1))
                (registered deps clock fresh actor)))
  limited-IsRegistered r s' same (err x) e = tt
  limited-IsRegistered r s' same (ok i) e =
      let create = run_store s' (
        create_user_if_allowed deps (fresh 0) i.login i.display_name i.password configured (clock 1)
          s') in
      widen r i (then_ create (registered deps clock fresh actor)) e (
        Ends-then_
          (λ o t.
            (u : AppUserView) → o ≡ some u → IsAdded deps (fresh 0) configured (clock 1) s' i u t)
          (IsRegistered deps clock fresh configured s i) create (registered deps clock fresh actor)
          (create-IsAdded deps (fresh 0) configured (clock 1) s' i)
          (λ o t k. registered-IsRegistered i s' same o t k))

-- A registration that succeeds had a valid input, and was permitted: it was open, or there was no user yet.
-- It has added, at the end of the users and without any other change to them, one user with a hash of the
-- password, whose identifier and login, in any case of ASCII letters, nobody had; and it has opened a
-- session for that user under the token that it hands out.
pub register-IsRegistered :
    (deps : Deps) (clock : ℕ → ℕ) (fresh : ℕ → Text) (input : Option RegistrationInput)
    (actor : Text) (configured : Bool) (s t : AuthStore) (out : AuthenticatedSession)
    → register deps clock fresh input actor configured s ≡ (ok out, t)
    → (i : RegistrationInput) × (((ok_or bad_request input >>= validate_registration deps) ≡ ok i)
        × IsRegistered deps clock fresh configured s i out t)
unfolding register consume_attempt
register-IsRegistered deps clock fresh input actor configured s t out e =
    let read = ok_or bad_request input >>= validate_registration deps in
    let Q = λ (o : AuthenticatedSession) (u : AuthStore).
      (i : RegistrationInput) × ((read ≡ ok i)
        × IsRegistered deps clock fresh configured s i o u) in
    Ends-ok Q (register deps clock fresh input actor configured s) out t
      (elim (Bool-cases (not (setup_required s) && not configured)) [
        | inl b ↦ rw b tt
        | inr b ↦ rw b (
            Ends-limited deps Q
              (consume_attempt deps (codes "register:" ++ actor) registration_maximum
                registration_window_ms (clock 0) s)
              (register_limited deps clock fresh input actor configured)
              (limited-IsRegistered deps clock fresh actor configured s read
                (consume_attempt deps (codes "register:" ++ actor) registration_maximum
                  registration_window_ms (clock 0) s).1
                refl read refl))
      ])
      e
