-- ===== src/Route/Login/Session.antt =====
-- What a login that is answered by a session, or by a pre-auth token, has shown.
use casa_os_user_service.Common.{
  ℕ, ◌≡◌, ◌≢◌, refl, ap, sym, inl, inr, Bool, true, false, not, ◌&&◌, ◌||◌, ◌==◌, arith, Bool-cases,
}
use casa_os_user_service.Common.Text.{Text, is_empty}
use casa_os_user_service.Common.Decimal.{itoa}
use casa_os_user_service.Users.Database.{UserDbModel}
use casa_os_user_service.Users.{
  clear_pending_totp, get_user_all_info_by_id, get_user_all_info_by_name,
}
use casa_os_user_service.Route.{Deps, World, Json, VerifyInformation, session, password_matches}
use casa_os_user_service.Route.Budget.{Session, issue_tokens-Session}
use casa_os_user_service.Route.Login.{
  after_clear, finish_login, login_matched, login_row, login_fields, post_user_login,
  upgrade_password,
}

module _ (d : Deps) where
  finish_login-session :
      (now : ℕ) (user : UserDbModel) (t : VerifyInformation) (u : UserDbModel)
      → (finish_login d now user).body ≡ session t u
      → (user.totp_enabled ≡ false) × Session d now user t u
  unfolding finish_login
  finish_login-session now user t u h = ground (arith, issue_tokens-Session d now user t u)

  -- The row whose owner gets the session: the one that was read, if its 2FA was off with nothing
  -- pending or a pending secret was cleared just now; else the row as it was read again.
  pub data SignedIn (now : ℕ) (user : UserDbModel) (s : d.gorm.State) (t : VerifyInformation)
      (u : UserDbModel) : Type 0 where
    as_read :
        user.totp_enabled ≡ false
        → is_empty user.totp_secret ≡ true
        → Session d now user t u
        → SignedIn now user s t u
    cleared :
        user.totp_enabled ≡ false
        → (clear_pending_totp d.gorm user.id user.totp_secret s).0 ≡ true
        → Session d now user t u
        → SignedIn now user s t u
    read_again :
        (again : UserDbModel)
        → (clear_pending_totp d.gorm user.id user.totp_secret s).0 ≡ false
        → again
          ≡ get_user_all_info_by_id d.gorm
              (itoa user.id)
              (clear_pending_totp d.gorm user.id user.totp_secret s).1
        → again.id ≢ 0
        → again.totp_enabled ≡ false
        → Session d now again t u
        → SignedIn now user s t u

  after_clear-SignedIn :
      (now : ℕ) (user : UserDbModel) (s : d.gorm.State) (t : VerifyInformation) (u : UserDbModel)
      (r : Bool × d.gorm.State)
      → user.totp_enabled ≡ false
      → clear_pending_totp d.gorm user.id user.totp_secret s ≡ r
      → (after_clear d now user r).0.body ≡ session t u
      → SignedIn now user s t u
  after_clear-SignedIn now user s t u (true, s') off e h =
      cleared off (ap (λ (r : Bool × d.gorm.State). r.0) e) (finish_login-session now user t u h).1
  after_clear-SignedIn now user s t u (false, s') off e h =
      let again = get_user_all_info_by_id d.gorm (itoa user.id) s' in
      elim (Bool-cases (again.id == 0)) [
        | inl gone ↦ cc (rw gone at h)
        | inr here ↦
            let (off', made) = finish_login-session now again t u (rw here at h) in
            read_again again (ap (λ (r : Bool × d.gorm.State). r.0) e)
              (ap (λ (r : Bool × d.gorm.State). get_user_all_info_by_id d.gorm (itoa user.id) r.1)
                (sym e))
              (λ zero_id. ground arith) off' made
      ]

  login_matched-SignedIn :
      (now : ℕ) (user : UserDbModel) (s : d.gorm.State) (t : VerifyInformation) (u : UserDbModel)
      → (login_matched d now user s).0.body ≡ session t u
      → SignedIn now user s t u
  unfolding login_matched
  login_matched-SignedIn now user s t u h =
      elim (Bool-cases (not user.totp_enabled && not (is_empty user.totp_secret))) [
        | inl pending ↦ after_clear-SignedIn now user s t u _ (ground arith) refl (rw pending at h)
        | inr settled ↦
            let (off, made) = finish_login-session now user t u (rw settled at h) in
            as_read off (ground arith) made
      ]

  -- Once the row of the name was read, a session is issued only if there was such a row, the
  -- password matched it, and its 2FA was off at the last look: nothing was pending, or a pending
  -- secret was cleared by a statement that found the row still disabled, or the row was read again.
  pub login_row-SignedIn :
      (now : ℕ) (salt password : Text) (user : UserDbModel) (s : d.gorm.State)
      (t : VerifyInformation) (u : UserDbModel)
      → (login_row d now salt password user s).0.body ≡ session t u
      → (user.id ≢ 0)
        × (password_matches d user.password password ≡ true)
        × SignedIn now user (upgrade_password d salt user password s) t u
  unfolding login_row
  login_row-SignedIn now salt password user s t u h = elim (Bool-cases (user.id == 0)) [
    | inl gone ↦ cc (rw gone at h)
    | inr here ↦ elim (Bool-cases (password_matches d user.password password)) [
      | inl same ↦ (
        (λ zero_id. ground arith),
        same,
        login_matched-SignedIn now user _ t u (rw (here, same) at h),
      )
      | inr other ↦ cc (rw (here, other) at h)
    ]
  ]

  -- A login issues a session only if the login budget had a token, there was a row of the name, the
  -- password matched it, and its 2FA was off at the last look: nothing was pending, or a pending
  -- secret was cleared by a statement that found the row still disabled, or the row was read again.
  pub post_user_login-SignedIn :
      (now : ℕ) (salt : Text) (json : Json) (w : World d) (t : VerifyInformation) (u : UserDbModel)
      → (post_user_login d now salt json w).0.body ≡ session t u
      → let user = get_user_all_info_by_name d.gorm (json "username") w.db in
        ((d.rate.allow w.login_limiter now).0 ≡ true)
        × (user.id ≢ 0)
        × (password_matches d user.password (json "password") ≡ true)
        × SignedIn now user (upgrade_password d salt user (json "password") w.db) t u
  unfolding post_user_login login_fields
  post_user_login-SignedIn now salt json w t u h =
      elim (Bool-cases (d.rate.allow w.login_limiter now).0) [
        | inl allowed ↦
            elim (Bool-cases (is_empty (json "username") || is_empty (json "password"))) [
              | inl lacking ↦ cc (rw (allowed, lacking) at h)
              | inr given ↦
                  let (a, b, c) =
                    login_row-SignedIn now salt (json "password") _ w.db t u
                      (rw (allowed, given) at h) in
                  (allowed, a, b, c)
            ]
        | inr spent ↦ cc (rw spent at h)
      ]
