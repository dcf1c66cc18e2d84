-- ===== src/Auth/Added.antt =====
-- What `create_user_if_allowed` of crates/imail-storage-sqlite/src/auth.rs adds.
use i_mail.Base.{
  ℕ, ◌≡◌, refl, subst, Bool, true, false, not, ◌&&◌, ◌||◌, Option, none, some, [], ◌∷◌, ◌++◌, All,
  arith, if◌then◌else◌,
}
use mathlib.Core.Option.{some-injective}
use i_mail.Base.Table.{exists_where, exists_where-false}
use i_mail.Base.Texts.{Text}
use i_mail.Base.Result.{ok, ◌>>=◌, ◌>>◌, fail_if, ok_or}
use i_mail.Rules.Validation.{is_empty}
use i_mail.Auth.Types.{Deps, AuthStore, AppUserView, security, sqlite, run_store}
use i_mail.Auth.Users.{
  setup_required, has_login, has_user_id, new_user, insert_user, adopt, create_user_if_allowed,
}
use i_mail.Auth.Service.{RegistrationInput}
use i_mail.Auth.Ends.{Ends}

-- A user that was added: the registration was configured, or there was no user; nobody had the identifier or
-- the login, in any case of ASCII letters.
pub record IsAdded (deps : Deps) (id : Text) (configured : Bool) (now : ℕ) (s : AuthStore)
    (i : RegistrationInput) (user : AppUserView) (t : AuthStore) : Type 0 where
  pub hash : Text
  pub permitted : (setup_required s || configured) ≡ true
  pub made : user ≡ new_user deps id i.login i.display_name now
  pub hashed : deps.hash_password i.password ≡ some hash
  pub fresh : All (λ r. (has_user_id user.id r || has_login user.login r) ≡ false) s.users
  pub users : t.users ≡ s.users ++ record { user = user; password_hash = hash } ∷ []

permit : (a b : Bool) → (not b && not a) ≡ false → (a || b) ≡ true
permit a b h = ground (arith, h)

adopt-users : (b : Bool) (id : Text) (s : AuthStore) → (adopt b id s).users ≡ s.users
adopt-users true id s = refl
adopt-users false id s = refl

module _ (deps : Deps) (id : Text) (configured : Bool) (now : ℕ) (s : AuthStore)
    (i : RegistrationInput) where
  abbrev Added : Option AppUserView → AuthStore → Type 0
  Added o t = (u : AppUserView) → o ≡ some u → IsAdded deps id configured now s i u t

  -- The store with the new row.
  abbrev with_user : Text → AuthStore
  with_user hash = adopt (is_empty s.users) id (record s {
    users =
        s.users
        ++ record { user = new_user deps id i.login i.display_name now; password_hash = hash } ∷ [];
  })

  pub create-IsAdded : Ends Added (
      run_store s
        (create_user_if_allowed deps id i.login i.display_name i.password configured now s))
  unfolding create_user_if_allowed setup_required
  create-IsAdded = allowed (not configured && not (is_empty s.users)) refl
    where
      user : AppUserView
      user = new_user deps id i.login i.display_name now

      inserted :
          (hash : Text)
          → deps.hash_password i.password ≡ some hash
          → (is_empty s.users || configured) ≡ true
          → (b : Bool) → exists_where (λ r. has_user_id id r || has_login user.login r) s.users ≡ b
          → Ends (Added) (
              run_store s (
                fail_if b sqlite
                >> ok (
                  some user,
                  adopt (is_empty s.users) id (record s {
                    users = s.users ++ record { user = user; password_hash = hash } ∷ [];
                  }),
                )))
      inserted hash h p true e = tt
      inserted hash h p false e = λ u same.
          subst (λ v. IsAdded deps id configured now s i v (with_user hash))
            (some-injective user u same)
            (record {
              hash = hash;
              permitted = p;
              made = refl;
              hashed = h;
              fresh =
                  exists_where-false (λ r. has_user_id id r || has_login user.login r) s.users e;
              users = adopt-users (is_empty s.users) id (record s {
                users = s.users ++ record { user = user; password_hash = hash } ∷ [];
              });
            })

      hashed :
          (is_empty s.users || configured) ≡ true
          → (o : Option Text) → deps.hash_password i.password ≡ o
          → Ends Added (run_store s (ok_or security o >>= λ hash. insert_user deps user hash s))
      hashed p none h = tt
      hashed p (some hash) h =
          inserted hash h p (exists_where (λ r. has_user_id id r || has_login user.login r) s.users)
            refl

      allowed :
          (b : Bool)
          → (not configured && not (is_empty s.users)) ≡ b
          → Ends Added (
              run_store s (
                if b
                then ok (none, s)
                else ok_or security (deps.hash_password i.password) >>= λ hash.
                    insert_user deps user hash s))
      allowed true e = λ u h. cc
      allowed false e =
          hashed (permit (is_empty s.users) configured e) (deps.hash_password i.password) refl
