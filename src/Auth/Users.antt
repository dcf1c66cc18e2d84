-- ===== src/Auth/Users.antt =====
-- Users and sessions of crates/imail-storage-sqlite/src/auth.rs.
use i_mail.Base.{
  ℕ, ◌+◌, Bool, true, false, not, ◌&&◌, ◌||◌, Option, none, some, List, [], ◌∷◌, ◌++◌, ltb, leb,
  if◌then◌else◌, any,
}
use i_mail.Base.Table.{update_where, delete_where, find_where, exists_where}
use i_mail.Base.Texts.{Text, codes, text_eq, eq_ignore_ascii_case}
use i_mail.Base.Result.{Result, ok, ◌>>=◌, ◌>>◌, fail_if, ok_or}
use i_mail.Rules.Validation.{is_empty}
use i_mail.Auth.Types.{
  Deps, AuthStore, AppUserView, UserRow, SessionRow, MetadataRow, StoreFailure, security, sqlite,
}

-- 30 days
abbrev pub session_ttl : ℕ
session_ttl = 2_592_000_000

unfoldable pub setup_required : AuthStore → Bool
setup_required s = is_empty s.users

abbrev pub has_login : Text → UserRow → Bool
has_login login r = eq_ignore_ascii_case r.user.login login

abbrev pub has_user_id : Text → UserRow → Bool
has_user_id id r = text_eq r.user.id id

unfoldable pub user_by_login : Text → AuthStore → Option UserRow
user_by_login login s = find_where (has_login login) s.users

abbrev pub legacy : Text
legacy = codes "__legacy__"

abbrev pub preferences_key : Text
preferences_key = codes "app_preferences_v1"

abbrev pub user_key : Text → Text
user_key id = codes "user:" ++ id ++ codes ":app_preferences_v1"

-- UPDATE metadata SET key = … WHERE key = … AND NOT EXISTS …
abbrev pub move_preferences : Text → List MetadataRow → List MetadataRow
move_preferences id rows =
    if exists_where (λ m. text_eq m.key (user_key id)) rows
    then rows
    else update_where (λ m. text_eq m.key preferences_key) (λ m. record m { key = user_key id })
        rows

-- What the first user takes over.
abbrev pub adopt : Bool → Text → AuthStore → AuthStore
adopt false id s = s
adopt true id s = record s {
  owners = update_where (λ o. text_eq o legacy) (λ o. id) s.owners;
  metadata = move_preferences id s.metadata;
}

module _ (deps : Deps) where
  abbrev pub new_user : Text → Text → Text → ℕ → AppUserView
  new_user id login display_name now = record {
    id = id;
    login = deps.to_lowercase login;
    display_name = display_name;
    created_at = now;
  }

  -- The INSERT fails on an identifier or a login that exists.
  abbrev pub insert_user :
      AppUserView → Text → AuthStore → Result StoreFailure (Option AppUserView × AuthStore)
  insert_user user hash s = do
    fail_if (exists_where (λ r. has_user_id user.id r || has_login user.login r) s.users) sqlite
    ok (
      some user,
      adopt (is_empty s.users) user.id
          (record s { users = s.users ++ record { user = user; password_hash = hash } ∷ [] }),
    )

  -- `id` is `Uuid::new_v4()`. The two reads of the number of users are one here: nothing comes between
  -- them in one process.
  unfoldable pub create_user_if_allowed :
      Text
      → Text
      → Text
      → Text
      → Bool
      → ℕ
      → AuthStore
      → Result StoreFailure (Option AppUserView × AuthStore)
  create_user_if_allowed id login display_name password registration_open now s =
      if not registration_open && not (setup_required s)
      then ok (none, s)
      else ok_or security (deps.hash_password password) >>= λ hash.
          insert_user (new_user id login display_name now) hash s

  abbrev pub if_verified : Bool → AppUserView → Option AppUserView
  if_verified true user = some user
  if_verified false user = none

  abbrev pub verified : Text → Option UserRow → Result StoreFailure (Option AppUserView)
  verified password none = ok none
  verified password (some r) =
      ok_or security (deps.verify_password password r.password_hash) >>= λ b.
      ok (if_verified b r.user)

  unfoldable pub authenticate : Text → Text → AuthStore → Result StoreFailure (Option AppUserView)
  authenticate login password s = verified password (user_by_login login s)

  abbrev pub verified_row : Text → Option UserRow → Result StoreFailure Bool
  verified_row password none = ok false
  verified_row password (some r) = ok_or security (deps.verify_password password r.password_hash)

  unfoldable pub verify_user_password : Text → Text → AuthStore → Result StoreFailure Bool
  verify_user_password id password s = verified_row password (find_where (has_user_id id) s.users)

  abbrev pub has_token : Text → SessionRow → Bool
  has_token raw x = text_eq x.token_hash (deps.sha256_hex raw)

  abbrev pub new_session : Text → Text → Text → ℕ → SessionRow
  new_session id raw user now = record {
    id = id;
    user_id = user;
    token_hash = deps.sha256_hex raw;
    created_at = now;
    expires_at = now + session_ttl;
    last_seen_at = now;
  }

  -- The keys that the INSERT may break: the identifier, the token, and the user's.
  abbrev pub breaks_session : SessionRow → List UserRow → List SessionRow → Bool
  breaks_session x users rows =
      exists_where (λ y. text_eq y.id x.id || text_eq y.token_hash x.token_hash) rows
      || not (exists_where (has_user_id x.user_id) users)

  -- `id` is `Uuid::new_v4()`, `raw` the random token.
  unfoldable pub create_session :
      Text → Text → Text → ℕ → AuthStore → Result StoreFailure (Text × AuthStore)
  create_session id raw user now s =
      let rows = delete_where (λ x. leb x.expires_at now) s.sessions in
      let x = new_session id raw user now in
      do
        fail_if (breaks_session x s.users rows) sqlite
        ok (raw, record s { sessions = rows ++ x ∷ [] })

  -- FROM app_sessions s JOIN app_users u ON u.id = s.user_id
  abbrev pub is_live : Text → ℕ → List UserRow → SessionRow → Bool
  is_live raw now users x =
      has_token raw x && ltb now x.expires_at && any (has_user_id x.user_id) users

  abbrev pub see_session : ℕ → SessionRow → SessionRow
  see_session now x = record x { last_seen_at = now }

  abbrev pub user_view : Option UserRow → Option AppUserView
  user_view none = none
  user_view (some r) = some r.user

  abbrev pub session_found : ℕ → AuthStore → Option SessionRow → Option AppUserView × AuthStore
  session_found now s none = (none, s)
  session_found now s (some x) = (
    user_view (find_where (has_user_id x.user_id) s.users),
    record s { sessions = update_where (λ y. text_eq y.id x.id) (see_session now) s.sessions },
  )

  unfoldable pub user_for_session : Text → ℕ → AuthStore → Option AppUserView × AuthStore
  user_for_session raw now s = session_found now s (find_where (is_live raw now s.users) s.sessions)

  unfoldable pub delete_session : Text → AuthStore → AuthStore
  delete_session raw s = record s { sessions = delete_where (has_token raw) s.sessions }
