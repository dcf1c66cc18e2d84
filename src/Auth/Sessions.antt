-- ===== src/Auth/Sessions.antt =====
-- A login of crates/imail-core/src/authentication.rs, and the session that it opens.
use i_mail.Base.{
  ℕ, ◌+◌, ◌<◌, ◌≡◌, refl, sym, ◌∙◌, ap, subst, Bool, true, false, ◌&&◌, Option, some, List, [], ◌∷◌,
  ltb, any, All, All-map, Any, here, there, arith,
}
use i_mail.Base.Table.{find_where, find_where-append}
use i_mail.Base.Unique.{IsUnique, IsOnly, find-one, find_where-Any}
use i_mail.Base.Texts.{Text, text_eq, text_eq_sound, text_eq_refl}
use i_mail.Base.Result.{ok, ◌>>=◌, ok_or}
use i_mail.Auth.Types.{Deps, AuthStore, UserRow}
use i_mail.Auth.Users.{
  has_login, has_user_id, has_token, user_by_login, session_ttl, new_session, is_live, user_view,
  session_found, user_for_session,
}
use i_mail.Auth.Service.{
  LoginInput, AuthenticatedSession, public_user, bad_request, validate_login, session_answer,
  session, login,
}
use i_mail.Auth.Ends.{Ends-ok, IsOpened}
use i_mail.Auth.Logins.{login-IsLogin}

abbrev pub same_user_id : UserRow → UserRow → Bool
same_user_id a b = text_eq b.user.id a.user.id

has_user_id-IsOnly : (r : UserRow) → IsOnly same_user_id (has_user_id r.user.id) r
has_user_id-IsOnly r y e =
    let same : y.user.id ≡ r.user.id = text_eq_sound y.user.id r.user.id e in
    (e, rw same (text_eq_refl r.user.id))

-- The session that was opened is found, and its user.
opened-found :
    (deps : Deps) (id raw : Text) (then_now now : ℕ) (r : UserRow) (t : AuthStore)
    → IsUnique same_user_id t.users
    → Any (λ x. x ≡ r) t.users
    → IsOpened deps id raw r.user.id then_now t
    → now < then_now + session_ttl
    → (user_for_session deps raw now t).0 ≡ some r.user
unfolding user_for_session
opened-found deps id raw then_now now r t unique listed opened lt =
    let x = new_session deps id raw r.user.id then_now in
    let live = is_live deps raw now t.users in
    let early : ltb now (then_now + session_ttl) ≡ true = ground (arith, lt) in
    let known : any (has_user_id r.user.id) t.users ≡ true =
      any-found (has_user_id r.user.id) t.users r listed (text_eq_refl r.user.id) in
    let is_mine : live x ≡ true = rw (text_eq_refl (deps.sha256_hex raw), early, known) refl in
    let others : All (λ y. live y ≡ false) opened.rest =
      All-map (λ y. has_token deps raw y ≡ false) (λ y. live y ≡ false)
        (λ y n.
          not_live (has_token deps raw y) (ltb now y.expires_at)
            (any (has_user_id y.user_id) t.users) n)
        opened.rest opened.alone in
    let row : find_where live t.sessions ≡ some x =
      subst (λ rows. find_where live rows ≡ some x) (sym opened.rows)
        (find_where-append live opened.rest x others is_mine) in
    let user : find_where (has_user_id r.user.id) t.users ≡ some r =
      find-one same_user_id (has_user_id r.user.id) r t.users (text_eq_refl r.user.id)
        (has_user_id-IsOnly r) unique listed in
    ap (λ o. (session_found deps now t o).0) row ∙ ap (user_view deps) user
  where
    not_live : (a b c : Bool) → a ≡ false → (a && b && c) ≡ false
    not_live a b c h = ground (arith, h)

    any-found :
        (p : UserRow → Bool) (xs : List UserRow) (y : UserRow)
        → Any (λ v. v ≡ y) xs
        → p y ≡ true
        → any p xs ≡ true
    any-found p [] y m e = elim m [ ]
    any-found p (v ∷ vs) y (here h) e =
        (let q : p v ≡ true = subst (λ z. p z ≡ true) (sym h) e in rw q refl)
    any-found p (v ∷ vs) y (there m) e = (let rest = any-found p vs y m e in ground (arith, rest))

-- Where no two users have one identifier, a login that succeeds had a valid input and has found
-- the user of its login, whose stored hash the password verifies; the token that it hands out is answered with that user by every later call of
-- session on the store it left, as long as less than thirty days have passed.
pub login-session :
    (deps : Deps) (clock : ℕ → ℕ) (fresh : ℕ → Text) (input : Option LoginInput) (actor : Text)
    (s t : AuthStore) (out : AuthenticatedSession)
    → IsUnique same_user_id s.users
    → login deps clock fresh input actor s ≡ (ok out, t)
    → ((i : LoginInput) × (((ok_or bad_request input >>= validate_login deps) ≡ ok i)
          × ((r : UserRow) × ((user_by_login i.login s ≡ some r)
                × ((deps.verify_password i.password r.password_hash ≡ some true)
                    × (out.user ≡ public_user r.user))))))
      × ((now : ℕ)
          → now < clock 3 + session_ttl
          → (session deps out.raw_session now t).0 ≡ ok out.user)
unfolding session user_by_login
login-session deps clock fresh input actor s t out unique e =
    let (i, (valid, l)) =
      Ends-ok _ (login deps clock fresh input actor s) out t
        (login-IsLogin deps clock fresh s input actor) e in
    let listed = find_where-Any (has_login i.login) s.users l.row l.found in
    (
      (i, (valid, (l.row, (l.found, (l.password, l.user))))),
      λ now lt.
          let found =
            opened-found deps (fresh 2) (fresh 3) (clock 3) now l.row t
              (subst (IsUnique same_user_id) (sym l.users) unique)
              (subst (λ us. Any (λ x. x ≡ l.row) us) (sym l.users) listed) l.opened lt in
          let seen : (user_for_session deps out.raw_session now t).0 ≡ some l.row.user =
            subst (λ r. (user_for_session deps r now t).0 ≡ some l.row.user) (sym l.raw) found in
          ap (session_answer deps) seen ∙ ap ok (sym l.user),
    )
