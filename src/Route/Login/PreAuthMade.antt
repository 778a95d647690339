-- ===== src/Route/Login/PreAuthMade.antt =====
-- What a login that is answered by a pre-auth token has made.
use casa_os_user_service.Common.{
  ℕ, ◌+◌, ◌≡◌, subst, Bool, true, false, not, ◌&&◌, ◌||◌, ◌==◌, arith, Bool-cases, inl, inr,
}
use casa_os_user_service.Common.Text.{Text, bytes, is_empty}
use casa_os_user_service.Common.Decimal.{itoa}
use casa_os_user_service.Users.Database.{UserDbModel, IsLawful}
use casa_os_user_service.Users.Found.{get_user_all_info_by_id-id}
use casa_os_user_service.Users.{get_user_all_info_by_id, get_user_all_info_by_name}
use casa_os_user_service.Route.{
  Deps, World, Json, Result, ok, err, pre_auth, issue_tokens, password_matches,
}
use casa_os_user_service.Route.Login.{
  after_clear, finish_login, login_matched, login_row, login_fields, post_user_login,
  issue_pre_auth_token, pre_auth_reply, pre_auth_ttl,
}

module _ (d : Deps) where
  -- The pre-auth token was made for a row of this id, for as long as it says.
  pub record PreAuth (now i : ℕ) (token : Text) (expires : ℕ) : Type 0 where
    pub name : Text
    pub made : d.jwt.generate_token name d.pre_auth_priv i (bytes "2fa") pre_auth_ttl now ≡ ok token
    pub expiry : expires ≡ now + pre_auth_ttl

  pre_auth_reply-eq :
      (now : ℕ) (r : Result Text) (token : Text) (expires : ℕ)
      → (pre_auth_reply d now r).body ≡ pre_auth token expires
      → (r ≡ ok token) × (expires ≡ now + pre_auth_ttl)
  pre_auth_reply-eq now (err e) token expires h = cc
  pre_auth_reply-eq now (ok t) token expires h = (cc, cc)

  finish_login-PreAuth :
      (now : ℕ) (user : UserDbModel) (token : Text) (expires : ℕ)
      → (finish_login d now user).body ≡ pre_auth token expires
      → PreAuth now user.id token expires
  unfolding finish_login issue_pre_auth_token issue_tokens
  finish_login-PreAuth now user token expires h = elim (Bool-cases user.totp_enabled) [
    | inl on ↦
        let (made, expiry) = pre_auth_reply-eq now _ token expires (rw on at h) in
        record { name = user.username; made = made; expiry = expiry }
    | inr off ↦ ground arith
  ]

  module _ (law : IsLawful d.gorm) where
    after_clear-PreAuth :
        (now : ℕ) (user : UserDbModel) (r : Bool × d.gorm.State) (token : Text) (expires : ℕ)
        → (after_clear d now user r).0.body ≡ pre_auth token expires
        → PreAuth now user.id token expires
    after_clear-PreAuth now user (true, s) token expires h =
        finish_login-PreAuth now user token expires h
    after_clear-PreAuth now user (false, s) token expires h =
        let again = get_user_all_info_by_id d.gorm (itoa user.id) s in
        elim (Bool-cases (again.id == 0)) [
          | inl gone ↦ cc (rw gone at h)
          | inr here ↦
              subst (λ n. PreAuth now n token expires)
                (get_user_all_info_by_id-id d.gorm law user.id s (λ z. ground arith))
                (finish_login-PreAuth now again token expires (rw here at h))
        ]

    login_row-PreAuth :
        (now : ℕ) (salt password : Text) (user : UserDbModel) (s : d.gorm.State) (token : Text)
        (expires : ℕ)
        → (login_row d now salt password user s).0.body ≡ pre_auth token expires
        → PreAuth now user.id token expires
    unfolding login_row login_matched
    login_row-PreAuth now salt password user s token expires h = elim (Bool-cases (user.id == 0)) [
      | inl gone ↦ cc (rw gone at h)
      | inr here ↦ elim (Bool-cases (password_matches d user.password password)) [
        | inr other ↦ cc (rw (here, other) at h)
        | inl same ↦ elim (Bool-cases (not user.totp_enabled && not (is_empty user.totp_secret))) [
          | inl pending ↦
              after_clear-PreAuth now user _ token expires (rw (here, same, pending) at h)
          | inr settled ↦
              finish_login-PreAuth now user token expires (rw (here, same, settled) at h)
        ]
      ]
    ]

    pub post_user_login-PreAuth :
        (now : ℕ) (salt : Text) (json : Json) (w : World d) (token : Text) (expires : ℕ)
        → (post_user_login d now salt json w).0.body ≡ pre_auth token expires
        → PreAuth now (get_user_all_info_by_name d.gorm (json "username") w.db).id token expires
    unfolding post_user_login login_fields
    post_user_login-PreAuth now salt json w token expires h =
        elim (Bool-cases (d.rate.allow w.login_limiter now).0) [
          | inr spent ↦ cc (rw spent at h)
          | inl allowed ↦
              elim (Bool-cases (is_empty (json "username") || is_empty (json "password"))) [
                | inl lacking ↦ cc (rw (allowed, lacking) at h)
                | inr given ↦
                    login_row-PreAuth now salt (json "password") _ w.db token expires
                      (rw (allowed, given) at h)
              ]
        ]
