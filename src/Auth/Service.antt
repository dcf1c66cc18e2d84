-- ===== src/Auth/Service.antt =====
-- `AuthenticationService` of crates/imail-core/src/authentication.rs over the store. `clock` gives the
-- readings of the clock during one call, `fresh` the random identifiers and tokens.
use i_mail.Base.{
  ℕ, Bool, true, false, not, ◌&&◌, ◌||◌, Option, none, some, ◌++◌, ltb, ◌==◌, if◌then◌else◌, all,
}
use i_mail.Base.Texts.{Text, codes, trim, utf16_len}
use i_mail.Base.Result.{Result, ok, err, ◌>>=◌, ◌>>◌, fail_if, ok_or}
use i_mail.Rules.Validation.{is_empty}
use i_mail.Auth.Types.{
  Deps, AuthStore, AppUserView, RateLimitDecision, AuthError, domain, limited, Call, then_,
  run_store, StoreFailure,
}
use i_mail.Auth.Limits.{consume_attempt, clear_attempt, record_security_event}
use i_mail.Auth.Users.{
  setup_required, create_user_if_allowed, authenticate, create_session, user_for_session,
  delete_session,
}

pub record RegistrationInput : Type 0 where
  pub login : Text
  pub display_name : Text
  pub password : Text

pub record LoginInput : Type 0 where
  pub login : Text
  pub password : Text

pub record PublicUser : Type 0 where
  pub id : Text
  pub login : Text
  pub display_name : Text

pub record AuthenticatedSession : Type 0 where
  pub user : PublicUser
  pub raw_session : Text

pub record AuthenticationStatus : Type 0 where
  pub setup_required : Bool
  pub registration_open : Bool
  pub user : Option PublicUser

abbrev pub public_user : AppUserView → PublicUser
public_user u = record { id = u.id; login = u.login; display_name = u.display_name }

abbrev pub public_option : Option AppUserView → Option PublicUser
public_option none = none
public_option (some u) = some (public_user u)

abbrev pub registration_maximum : ℕ
registration_maximum = 5

abbrev pub registration_window_ms : ℕ
registration_window_ms = 3_600_000

abbrev pub login_source_maximum : ℕ
login_source_maximum = 30

abbrev pub login_account_maximum : ℕ
login_account_maximum = 10

abbrev pub login_window_ms : ℕ
login_window_ms = 900_000

abbrev pub bad_request : AuthError
bad_request = domain 400 "请求参数无效"

abbrev pub closed : AuthError
closed = domain 403 "此服务已关闭新用户注册"

abbrev pub public_session : AppUserView → Text → AuthenticatedSession
public_session user raw = record { user = public_user user; raw_session = raw }

module _ (deps : Deps) where
  -- [\p{L}\p{N}_.@-]
  abbrev pub is_login_char : ℕ → Bool
  is_login_char c = deps.is_letter_or_number c || c == 95 || c == 46 || c == 64 || c == 45

  unfoldable pub validate_credentials : Text → Text → Result AuthError Unit
  validate_credentials login password = do
    fail_if (ltb (utf16_len login) 3) (domain 400 "登录名至少 3 个字符")
    fail_if (ltb 80 (utf16_len login)) (domain 400 "登录名最多 80 个字符")
    fail_if (is_empty login || not (all is_login_char login)) (domain 400 "登录名包含不支持的字符")
    fail_if (ltb (utf16_len password) 8) (domain 400 "密码至少 8 个字符")
    fail_if (ltb 256 (utf16_len password)) (domain 400 "密码最多 256 个字符")

  abbrev pub trim_registration : RegistrationInput → RegistrationInput
  trim_registration input = record input {
    login = trim input.login;
    display_name = trim input.display_name;
  }

  unfoldable pub validate_registration : RegistrationInput → Result AuthError RegistrationInput
  unfolding validate_credentials
  validate_registration input = do
    let trimmed = trim_registration input
    _ ← validate_credentials trimmed.login trimmed.password
    fail_if (utf16_len trimmed.display_name == 0) (domain 400 "请填写显示名称")
    fail_if (ltb 80 (utf16_len trimmed.display_name)) (domain 400 "显示名称最多 80 个字符")
    ok trimmed

  abbrev pub trim_login : LoginInput → LoginInput
  trim_login input = record input { login = trim input.login }

  unfoldable pub validate_login : LoginInput → Result AuthError LoginInput
  unfolding validate_credentials
  validate_login input = do
    _ ← validate_credentials (trim_login input).login (trim_login input).password
    ok (trim_login input)

  abbrev pub status_user : Option Text → ℕ → AuthStore → Option AppUserView × AuthStore
  status_user none now s = (none, s)
  status_user (some raw) now s = user_for_session deps raw now s

  unfoldable pub status : Option Text → Bool → ℕ → AuthStore → AuthenticationStatus × AuthStore
  status raw registration_configured now s =
      let setup = setup_required s in
      let (user, s') = status_user raw now s in
      (
        record {
          setup_required = setup;
          registration_open = setup || registration_configured;
          user = public_option user;
        },
        s',
      )

  abbrev pub session_answer : Option AppUserView → Result AuthError PublicUser
  session_answer none = err (domain 401 "请先登录")
  session_answer (some u) = ok (public_user u)

  unfoldable pub session : Text → ℕ → AuthStore → Call PublicUser
  session raw now s = let (user, s') = user_for_session deps raw now s in (session_answer user, s')

  -- The decision of a limit: the call goes on, or ends.
  abbrev pub unless_limited :
      {A : Type 0} → RateLimitDecision × AuthStore → (AuthStore → Call A) → Call A
  unless_limited (d, s) k = elim d.allowed [ true ↦ k s | false ↦ (err (limited d.retry_after), s) ]

  module _ (clock : ℕ → ℕ) (fresh : ℕ → Text) where
    abbrev pub open_session : Text → Text → AppUserView → AuthStore → Call AuthenticatedSession
    open_session event actor user s =
        let s' = record_security_event deps (fresh 1) event actor (some user.id) (clock 2) s in
        then_ (run_store s' (create_session deps (fresh 2) (fresh 3) user.id (clock 3) s'))
          (λ raw t. (ok (public_session user raw), t))

    abbrev pub registered : Text → Option AppUserView → AuthStore → Call AuthenticatedSession
    registered actor none s = (
      err closed,
      record_security_event deps (fresh 1) (codes "registration.denied") actor none (clock 2) s,
    )
    registered actor (some user) s = open_session (codes "registration.succeeded") actor user s

    abbrev pub register_limited :
        Option RegistrationInput → Text → Bool → AuthStore → Call AuthenticatedSession
    register_limited input actor configured s =
        then_ (ok_or bad_request input >>= validate_registration, s)
          (λ i s1.
            then_
              (run_store s1 (
                create_user_if_allowed deps (fresh 0) i.login i.display_name i.password configured
                  (clock 1) s1))
              (registered actor))

    unfoldable pub register :
        Option RegistrationInput → Text → Bool → AuthStore → Call AuthenticatedSession
    register input actor configured s =
        if not (setup_required s) && not configured
        then (
          err closed,
          record_security_event deps (fresh 1) (codes "registration.denied") actor none (clock 0) s,
        )
        else unless_limited
            (consume_attempt deps (codes "register:" ++ actor) registration_maximum
              registration_window_ms (clock 0) s)
            (register_limited input actor configured)

    abbrev pub account_key : LoginInput → Text
    account_key input = codes "login-account:" ++ deps.to_lowercase input.login

    abbrev pub logged_in :
        LoginInput → Text → Option AppUserView → AuthStore → Call AuthenticatedSession
    logged_in input actor none s = (
      err (domain 401 "登录名或密码错误"),
      record_security_event deps (fresh 1) (codes "login.failed") actor none (clock 2) s,
    )
    logged_in input actor (some user) s =
        open_session (codes "login.succeeded") actor user (clear_attempt deps (account_key input) s)

    -- A method that reads the store only.
    abbrev pub read_store : {A : Type 0} → AuthStore → Result StoreFailure A → Call A
    read_store s r = run_store s (r >>= λ a. ok (a, s))

    abbrev pub login_allowed : LoginInput → Text → AuthStore → Call AuthenticatedSession
    login_allowed input actor s =
        then_ (read_store s (authenticate deps input.login input.password s))
          (logged_in input actor)

    abbrev pub login_valid : Text → LoginInput → AuthStore → Call AuthenticatedSession
    login_valid actor input s =
        unless_limited
          (consume_attempt deps (codes "login-ip:" ++ actor) login_source_maximum login_window_ms
            (clock 0) s)
          (λ s1.
            unless_limited
              (consume_attempt deps (account_key input) login_account_maximum login_window_ms
                (clock 1) s1)
              (login_allowed input actor))

    unfoldable pub login : Option LoginInput → Text → AuthStore → Call AuthenticatedSession
    login input actor s = then_ (ok_or bad_request input >>= validate_login, s) (login_valid actor)

    abbrev pub logged_out : Text → Option AppUserView → AuthStore → AuthStore
    logged_out actor none s = s
    logged_out actor (some user) s =
        record_security_event deps (fresh 1) (codes "logout") actor (some user.id) (clock 1) s

    abbrev pub logout_session : Text → Option AppUserView × AuthStore → Text → AuthStore
    logout_session actor (user, s) raw = delete_session deps raw (logged_out actor user s)

    unfoldable pub logout : Option Text → Text → AuthStore → AuthStore
    logout none actor s = s
    logout (some raw) actor s = logout_session actor (user_for_session deps raw (clock 0) s) raw
