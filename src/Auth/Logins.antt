-- ===== src/Auth/Logins.antt =====
-- What a login of crates/imail-core/src/authentication.rs that succeeds has checked.
use i_mail.Base.{ℕ, ◌≡◌, refl, sym, ◌∙◌, ap, subst, Bool, true, false, Option, none, some, [], ◌++◌}
use mathlib.Core.Option.{some-injective}
use i_mail.Base.Texts.{Text, codes}
use i_mail.Base.Result.{Result, ok, err, ◌>>=◌, ok_or}
use i_mail.Auth.Types.{
  Deps, AuthStore, AppUserView, UserRow, AuthError, security, Call, then_, run_store,
}
use i_mail.Auth.Limits.{consume_attempt, clear_attempt, record_security_event}
use i_mail.Auth.Users.{user_by_login, verified, if_verified, authenticate, create_session}
use i_mail.Auth.Service.{
  LoginInput, AuthenticatedSession, public_user, public_session, bad_request, validate_login,
  unless_limited, logged_in, read_store, login_allowed, login_valid, login, account_key,
  login_source_maximum, login_account_maximum, login_window_ms,
}
use i_mail.Auth.Ends.{Ends, Ends-limited, Ends-then_, IsOpened, create_session-IsOpened}

-- What a login has checked, and what it leaves.
pub record IsLogin (deps : Deps) (clock : ℕ → ℕ) (fresh : ℕ → Text) (s : AuthStore)
    (input : LoginInput) (out : AuthenticatedSession) (t : AuthStore) : Type 0 where
  pub row : UserRow
  pub found : user_by_login input.login s ≡ some row
  pub password : deps.verify_password input.password row.password_hash ≡ some true
  pub user : out.user ≡ public_user row.user
  pub raw : out.raw_session ≡ fresh 3
  pub users : t.users ≡ s.users
  pub opened : IsOpened deps (fresh 2) (fresh 3) row.user.id (clock 3) t

-- What `authenticate` has checked where it finds a user.
authenticate-ok :
    (deps : Deps) (login_text password : Text) (s : AuthStore)
    → Ends
        (λ o t.
          (t ≡ s)
          × ((u : AppUserView)
              → o ≡ some u
              → (r : UserRow) × ((user_by_login login_text s ≡ some r)
                  × ((deps.verify_password password r.password_hash ≡ some true) × (u ≡ r.user)))))
        (read_store deps (λ n. n) (λ n. []) s (authenticate deps login_text password s))
unfolding authenticate
authenticate-ok deps login_text password s = cases (user_by_login login_text s) refl
  where
    Q : Option AppUserView → AuthStore → Type 0
    Q o t =
        (t ≡ s)
        × ((u : AppUserView)
            → o ≡ some u
            → (r : UserRow) × ((user_by_login login_text s ≡ some r)
                × ((deps.verify_password password r.password_hash ≡ some true) × (u ≡ r.user))))

    checked :
        (r : UserRow)
        → user_by_login login_text s ≡ some r
        → (v : Option Bool) → deps.verify_password password r.password_hash ≡ v
        → Ends Q (
            run_store s
              ((ok_or security v >>= λ b. ok (if_verified deps b r.user)) >>= λ a. ok (a, s)))
    checked r e none f = tt
    checked r e (some false) f = (refl, λ u h. cc)
    checked r e (some true) f = (refl, λ u h. (r, (e, (f, sym (some-injective r.user u h)))))

    cases :
        (o : Option UserRow)
        → user_by_login login_text s ≡ o
        → Ends Q (run_store s (verified deps password o >>= λ a. ok (a, s)))
    cases none e = (refl, λ u h. cc)
    cases (some r) e = checked r e (deps.verify_password password r.password_hash) refl

module _ (deps : Deps) (clock : ℕ → ℕ) (fresh : ℕ → Text) (s : AuthStore) where
  logged_in-IsLogin :
      (input : LoginInput) (actor : Text) (o : Option AppUserView) (t : AuthStore)
      → t.users ≡ s.users
      → ((u : AppUserView)
          → o ≡ some u
          → (r : UserRow) × ((user_by_login input.login s ≡ some r)
              × ((deps.verify_password input.password r.password_hash ≡ some true) × (u ≡ r.user))))
      → Ends (IsLogin deps clock fresh s input) (logged_in deps clock fresh input actor o t)
  unfolding record_security_event clear_attempt
  logged_in-IsLogin input actor none t same k = tt
  logged_in-IsLogin input actor (some user) t same k =
      let (r, (found, (password, is_user))) = k user refl in
      let t' =
        record_security_event deps (fresh 1) (codes "login.succeeded") actor (some user.id)
          (clock 2) (clear_attempt deps (account_key deps clock fresh input) t) in
      Ends-then_
        (λ raw v.
          (raw ≡ fresh 3)
          × ((v.users ≡ t'.users) × IsOpened deps (fresh 2) (fresh 3) user.id (clock 3) v))
        (IsLogin deps clock fresh s input)
        (run_store t' (create_session deps (fresh 2) (fresh 3) user.id (clock 3) t'))
        (λ raw v. (ok (public_session user raw), v))
        (create_session-IsOpened deps (fresh 2) (fresh 3) user.id (clock 3) t')
        (λ raw v (raw_same, (users, opened)). record {
          row = r;
          found = found;
          password = password;
          user = ap public_user is_user;
          raw = raw_same;
          users = users ∙ same;
          opened = subst (λ u. IsOpened deps (fresh 2) (fresh 3) u.id (clock 3) v) is_user opened;
        })

  login_valid-IsLogin :
      (actor : Text) (input : LoginInput)
      → Ends (IsLogin deps clock fresh s input) (login_valid deps clock fresh actor input s)
  unfolding consume_attempt authenticate user_by_login
  login_valid-IsLogin actor input =
      let s1 =
        consume_attempt deps (codes "login-ip:" ++ actor) login_source_maximum login_window_ms
          (clock 0) s in
      let key = account_key deps clock fresh input in
      let s2 = consume_attempt deps key login_account_maximum login_window_ms (clock 1) s1.1 in
      Ends-limited deps (IsLogin deps clock fresh s input) s1
        (λ v.
          unless_limited deps
            (consume_attempt deps key login_account_maximum login_window_ms (clock 1) v)
            (login_allowed deps clock fresh input actor))
        (Ends-limited deps (IsLogin deps clock fresh s input) s2
          (login_allowed deps clock fresh input actor)
          (Ends-then_ _ (IsLogin deps clock fresh s input)
            (read_store deps clock fresh s2.1 (authenticate deps input.login input.password s2.1))
            (logged_in deps clock fresh input actor)
            (authenticate-ok deps input.login input.password s2.1)
            (λ o t (same, k). logged_in-IsLogin input actor o t (ap AuthStore.users same) k)))

  pub login-IsLogin :
      (input : Option LoginInput) (actor : Text)
      → Ends
          (λ out t.
            (i : LoginInput) × (((ok_or bad_request input >>= validate_login deps) ≡ ok i)
              × IsLogin deps clock fresh s i out t))
          (login deps clock fresh input actor s)
  unfolding login
  login-IsLogin input actor = cases (ok_or bad_request input >>= validate_login deps) refl
    where
      Q : Result AuthError LoginInput → AuthenticatedSession → AuthStore → Type 0
      Q r out t = (i : LoginInput) × ((r ≡ ok i) × IsLogin deps clock fresh s i out t)

      widen :
          (r : Result AuthError LoginInput) (i : LoginInput) (m : Call AuthenticatedSession)
          → r ≡ ok i
          → Ends (IsLogin deps clock fresh s i) m
          → Ends (Q r) m
      widen r i (ok out, t) e h = (i, (e, h))
      widen r i (err x, t) e h = tt

      cases :
          (r : Result AuthError LoginInput)
          → (ok_or bad_request input >>= validate_login deps) ≡ r
          → Ends
              (Q (ok_or bad_request input >>= validate_login deps))
              (then_ (r, s) (login_valid deps clock fresh actor))
      cases (ok i) e =
          widen (ok_or bad_request input >>= validate_login deps) i
            (login_valid deps clock fresh actor i s) e (login_valid-IsLogin actor i)
      cases (err x) e = tt
