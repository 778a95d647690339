-- ===== src/Server/Replies/Sessions.antt =====
-- The replies of a login.
use casa_os_user_service.Common.{
  ℕ, refl, Bool, true, false, not, ◌&&◌, ◌||◌, ◌==◌, Bool-cases, inl, inr,
}
use casa_os_user_service.Common.Text.{Text, is_empty}
use casa_os_user_service.Common.Decimal.{itoa}
use casa_os_user_service.Users.Database.{UserDbModel}
use casa_os_user_service.Users.{get_user_all_info_by_id}
use casa_os_user_service.Route.{
  Deps, World, Json, Response, Result, ok, err, VerifyInformation, client_error, too_many_request,
  too_many_login_requests, user_not_exist, user_not_exist_or_pwd_invalid, with_refresh, with_tokens,
  issue_tokens, password_matches,
}
use casa_os_user_service.Route.Login.{
  pre_auth_reply, finish_login, after_clear, login_matched, login_row, login_fields,
  post_user_login, issue_pre_auth_token,
}
use casa_os_user_service.Server.Replies.{
  IsFit, Fits, if-Fits, if-IsFit, reply-IsFit, reply-Fits, reply_ok-IsFit, internal_error-IsFit,
}

module _ (d : Deps) (sent : Text) where
  with_refresh-IsFit :
      (now : ℕ) (access : Text) (r : Result Text) (k : VerifyInformation → Response)
      → ((t : VerifyInformation) → IsFit sent (k t))
      → IsFit sent (with_refresh d now access r k)
  with_refresh-IsFit now access (err e) k h = internal_error-IsFit d sent e
  with_refresh-IsFit now access (ok refresh) k h = h _

  pub with_tokens-IsFit :
      (now : ℕ) (name : Text) (id : ℕ) (r : Result Text) (k : VerifyInformation → Response)
      → ((t : VerifyInformation) → IsFit sent (k t))
      → IsFit sent (with_tokens d now name id r k)
  with_tokens-IsFit now name id (err e) k h = internal_error-IsFit d sent e
  with_tokens-IsFit now name id (ok access) k h = with_refresh-IsFit now access _ k h

  pub issue_tokens-IsFit : (now : ℕ) (user : UserDbModel) → IsFit sent (issue_tokens d now user)
  unfolding issue_tokens
  issue_tokens-IsFit now user =
      with_tokens-IsFit now user.username user.id _ _ (λ t. reply_ok-IsFit d sent _ (refl, refl))

  pre_auth_reply-IsFit : (now : ℕ) (r : Result Text) → IsFit sent (pre_auth_reply d now r)
  pre_auth_reply-IsFit now (err e) = internal_error-IsFit d sent e
  pre_auth_reply-IsFit now (ok token) = record { status = refl; body = refl }

  finish_login-IsFit : (now : ℕ) (user : UserDbModel) → IsFit sent (finish_login d now user)
  unfolding finish_login
  finish_login-IsFit now user =
      if-IsFit d sent user.totp_enabled _ _
        (pre_auth_reply-IsFit now (issue_pre_auth_token d now user)) (issue_tokens-IsFit now user)

  after_clear-IsFit :
      (now : ℕ) (user : UserDbModel) (r : Bool × d.gorm.State)
      → IsFit sent (after_clear d now user r).0
  after_clear-IsFit now user (true, s) = finish_login-IsFit now user
  after_clear-IsFit now user (false, s) =
      let again = get_user_all_info_by_id d.gorm (itoa user.id) s in
      elim (Bool-cases (again.id == 0)) [
        | inl gone ↦ rw gone (reply-IsFit d sent client_error user_not_exist_or_pwd_invalid refl)
        | inr here ↦ rw here (finish_login-IsFit now again)
      ]

  login_matched-IsFit :
      (now : ℕ) (user : UserDbModel) (s : d.gorm.State) → IsFit sent (login_matched d now user s).0
  unfolding login_matched
  login_matched-IsFit now user s =
      elim (Bool-cases (not user.totp_enabled && not (is_empty user.totp_secret))) [
        | inl pending ↦ rw pending (after_clear-IsFit now user _)
        | inr settled ↦ rw settled (finish_login-IsFit now user)
      ]

  login_row-IsFit :
      (now : ℕ) (salt password : Text) (user : UserDbModel) (s : d.gorm.State)
      → IsFit sent (login_row d now salt password user s).0
  unfolding login_row
  login_row-IsFit now salt password user s = elim (Bool-cases (user.id == 0)) [
    | inl gone ↦ rw gone (reply-IsFit d sent client_error user_not_exist refl)
    | inr here ↦ elim (Bool-cases (password_matches d user.password password)) [
      | inl same ↦ rw (here, same) (login_matched-IsFit now user _)
      | inr other ↦
          rw (here, other) (reply-IsFit d sent client_error user_not_exist_or_pwd_invalid refl)
    ]
  ]

  login_fields-IsFit :
      (now : ℕ) (salt username password : Text) (s : d.gorm.State)
      → IsFit sent (login_fields d now salt username password s).0
  unfolding login_fields
  login_fields-IsFit now salt username password s =
      elim (Bool-cases (is_empty username || is_empty password)) [
        | inl lacking ↦ rw lacking (record { status = refl; body = tt })
        | inr given ↦ rw given (login_row-IsFit now salt password _ s)
      ]

  pub post_user_login-Fits :
      (now : ℕ) (salt : Text) (json : Json) (w : World d)
      → Fits d sent (post_user_login d now salt json w)
  unfolding post_user_login
  post_user_login-Fits now salt json w =
      if-Fits d sent (d.rate.allow w.login_limiter now).0 _ _
        (record { fits = login_fields-IsFit now salt (json "username") (json "password") w.db })
        (reply-Fits d sent too_many_request too_many_login_requests _ refl)
