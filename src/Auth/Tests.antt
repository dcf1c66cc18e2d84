-- ===== src/Auth/Tests.antt =====
-- Registration, login and the limits on concrete rows.
use i_mail.Base.{
  here, ℕ, ◌+◌, ◌≤◌, ◌<◌, max, ◌≡◌, refl, true, false, some, List, [], ◌∷◌, ltb, arith, ◌&&◌,
}
use i_mail.Base.Texts.{Text, codes, text_eq, is_whitespace, push_end}
use i_mail.Base.Result.{ok, ◌>>=◌, ok_or}
use i_mail.Auth.Types.{Deps, AuthStore, AppUserView, UserRow, LimitRow}
use i_mail.Auth.Limits.{
  consume_attempt, consume_limits, clear_attempt, record_security_event, new_event, first_attempt,
}
use i_mail.Auth.Users.{
  setup_required, create_user_if_allowed, authenticate, user_by_login, create_session, new_session,
  new_user, session_ttl,
}
use i_mail.Auth.Service.{
  RegistrationInput, LoginInput, AuthenticatedSession, public_user, public_session, bad_request,
  validate_credentials, validate_login, validate_registration, register, login, session,
}
use i_mail.Auth.Bounded.{Attempt, allowed_on, allowed_on-le}
use i_mail.Auth.Counted.{IsCounted}
use i_mail.Auth.Sessions.{login-session}
use i_mail.Auth.Registration.{IsRegistered, register-IsRegistered}

abbrev deps : Deps
deps = record {
  sha256_hex = λ t. t;
  hash_password = λ p. some p;
  verify_password = λ p h. some (text_eq p h);
  actor_hmac = λ a. a;
  to_lowercase = λ t. t;
  is_letter_or_number = λ c. ltb 96 c && ltb c 123;
}

abbrev clock : ℕ → ℕ
clock k = 100

abbrev fresh : ℕ → Text
fresh k = k ∷ []

abbrev empty : AuthStore
empty = record { users = []; sessions = []; limits = []; events = []; metadata = []; owners = [] }

abbrev form : RegistrationInput
form = record { login = codes " ann "; display_name = codes "Ann"; password = codes "password" }

abbrev ann : AppUserView
ann = new_user deps (0 ∷ []) (codes "ann") (codes "Ann") 100

abbrev first_store : AuthStore
first_store = record {
  users = record { user = ann; password_hash = codes "password" } ∷ [];
  sessions = new_session deps (2 ∷ []) (3 ∷ []) (0 ∷ []) 100 ∷ [];
  limits = first_attempt (codes "register:ip") 3_600_100 ∷ [];
  events =
      new_event deps (1 ∷ []) (codes "registration.succeeded") (codes "ip") (some (0 ∷ [])) 100
      ∷ [];
  metadata = [];
  owners = [];
}

abbrev ann_session : AuthenticatedSession
ann_session = public_session ann (3 ∷ [])

was_registered :
    register deps clock fresh (some form) (codes "ip") false empty ≡ (ok ann_session, first_store)
unfolding register setup_required consume_attempt consume_limits validate_registration
    validate_credentials create_user_if_allowed record_security_event create_session is_whitespace
    push_end
was_registered = refl

register-IsRegistered_example :
    (i : RegistrationInput) × (((ok_or bad_request (some form) >>= validate_registration deps)
        ≡ ok i)
      × IsRegistered deps clock fresh false empty i ann_session first_store)
register-IsRegistered_example =
    register-IsRegistered deps clock fresh (some form) (codes "ip") false empty first_store
      ann_session was_registered

abbrev later_clock : ℕ → ℕ
later_clock k = 200

abbrev later_fresh : ℕ → Text
later_fresh k = 9 ∷ k ∷ []

abbrev entry : LoginInput
entry = record { login = codes "ANN"; password = codes "password" }

abbrev mixed : Deps
mixed = record deps { is_letter_or_number = λ c. true }

abbrev second_store : AuthStore
second_store = record first_store {
  sessions =
      new_session deps (2 ∷ []) (3 ∷ []) (0 ∷ []) 100
      ∷ new_session deps (9 ∷ 2 ∷ []) (9 ∷ 3 ∷ []) (0 ∷ []) 200
      ∷ [];
  limits =
      first_attempt (codes "register:ip") 3_600_100
      ∷ first_attempt (codes "login-ip:ip") 900_200
      ∷ [];
  events =
      new_event deps (1 ∷ []) (codes "registration.succeeded") (codes "ip") (some (0 ∷ [])) 100
      ∷ new_event deps (9 ∷ 1 ∷ []) (codes "login.succeeded") (codes "ip") (some (0 ∷ [])) 200
      ∷ [];
}

was_logged_in :
    login mixed later_clock later_fresh (some entry) (codes "ip") first_store
    ≡ (ok (public_session ann (9 ∷ 3 ∷ [])), second_store)
unfolding login validate_login validate_credentials consume_attempt consume_limits authenticate
    user_by_login clear_attempt record_security_event create_session is_whitespace push_end
was_logged_in = refl

login-session_example :
    ((i : LoginInput) × (((ok_or bad_request (some entry) >>= validate_login mixed) ≡ ok i)
        × ((r : UserRow) × ((user_by_login i.login first_store ≡ some r)
              × ((mixed.verify_password i.password r.password_hash ≡ some true)
                  × (public_user ann ≡ public_user r.user))))))
    × ((now : ℕ)
        → now < 200 + session_ttl
        → (session mixed (9 ∷ 3 ∷ []) now second_store).0 ≡ ok (public_user ann))
login-session_example =
    login-session mixed later_clock later_fresh (some entry) (codes "ip") first_store second_store
      (public_session ann (9 ∷ 3 ∷ [])) (tt, tt) was_logged_in

-- A key with a maximum of two, and another key between its attempts.
abbrev try : Text → ℕ → Attempt
try h now = record { hash = h; maximum = 2; window = 1_000; now = now }

abbrev tries : List Attempt
tries = try (codes "k") 10 ∷ try (codes "l") 20 ∷ try (codes "k") 30 ∷ []

abbrev counted : List LimitRow
counted = first_attempt (codes "k") 1_000 ∷ []

counted-IsCounted : IsCounted (codes "k") 1 1_000 counted
counted-IsCounted = record { counts = (λ t. (refl, refl), tt); exists = here refl }

allowed_on-le_example : allowed_on (codes "k") tries counted + 1 ≤ max 1 2
allowed_on-le_example =
    allowed_on-le (codes "k") 1_000 2 tries 1 counted counted-IsCounted
      ((omega arith, λ t. refl), ((omega arith, λ t. refl), ((omega arith, λ t. refl), tt)))
      (omega arith)
