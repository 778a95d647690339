-- ===== src/Route/Login.antt =====
-- `PostUserLogin` of route/v1/user.go, `upgradePassword`, and `IssuePreAuthToken` of
-- service/user.go.
pub mod Session
pub mod Guarded
pub mod PreAuthMade
use casa_os_user_service.Common.{
  ℕ, ◌+◌, Bool, true, false, not, ◌&&◌, ◌||◌, List, [], ◌∷◌, ◌==◌, if◌then◌else◌,
}
use casa_os_user_service.Common.Text.{Text, bytes, is_empty}
use casa_os_user_service.Common.Decimal.{itoa}
use casa_os_user_service.Encryption.{hash_password, needs_rehash}
use casa_os_user_service.Users.Database.{UserDbModel}
use casa_os_user_service.Users.{
  clear_pending_totp, get_user_all_info_by_id, get_user_all_info_by_name, replace_password_hash,
}
use casa_os_user_service.Route.{
  Deps, World, Json, Response, Result, ok, err, Code, of_code, pre_auth, reply, internal_error,
  password_matches, issue_tokens, client_error, user_not_exist, user_not_exist_or_pwd_invalid,
  too_many_request, too_many_login_requests, invalid_params, success, two_fa_required,
}

-- `PreAuthTTL`, in seconds.
abbrev pub pre_auth_ttl : ℕ
pre_auth_ttl = 300

module _ (d : Deps) where
  unfoldable pub issue_pre_auth_token : ℕ → UserDbModel → Result Text
  issue_pre_auth_token now user =
      d.jwt.generate_token user.username d.pre_auth_priv user.id (bytes "2fa") pre_auth_ttl now

  -- The salt is that of the fresh hash, if one is made.
  unfoldable pub upgrade_password : Text → UserDbModel → Text → d.gorm.State → d.gorm.State
  upgrade_password salt user password s =
      if needs_rehash d.crypto user.password
      then (replace_password_hash d.gorm user.id user.password
          (hash_password d.crypto salt password) s).1
      else s

  abbrev pub pre_auth_reply : ℕ → Result Text → Response
  pre_auth_reply now (err e) = internal_error e
  pre_auth_reply now (ok token) = record {
    status = success;
    success = two_fa_required;
    message = of_code two_fa_required;
    body = pre_auth token (now + pre_auth_ttl);
  }

  -- The second factor, or the session.
  unfoldable pub finish_login : ℕ → UserDbModel → Response
  finish_login now user =
      if user.totp_enabled
      then pre_auth_reply now (issue_pre_auth_token now user)
      else issue_tokens d now user

  -- An abandoned setup is cleared. If the clear did not land, the row is read again.
  abbrev pub after_clear : ℕ → UserDbModel → Bool × d.gorm.State → Response × d.gorm.State
  after_clear now user (true, s) = (finish_login now user, s)
  after_clear now user (false, s) =
      let again = get_user_all_info_by_id d.gorm (itoa user.id) s in
      if again.id == 0
      then (reply client_error user_not_exist_or_pwd_invalid, s)
      else (finish_login now again, s)

  -- What follows once the password has matched the row as it was read.
  unfoldable pub login_matched : ℕ → UserDbModel → d.gorm.State → Response × d.gorm.State
  login_matched now user s =
      if not user.totp_enabled && not (is_empty user.totp_secret)
      then after_clear now user (clear_pending_totp d.gorm user.id user.totp_secret s)
      else (finish_login now user, s)

  -- What follows once the row of the name was read; the database may have moved on since.
  unfoldable pub login_row : ℕ → Text → Text → UserDbModel → d.gorm.State → Response × d.gorm.State
  login_row now salt password user s =
      if user.id == 0
      then (reply client_error user_not_exist, s)
      else if password_matches d user.password password
      then login_matched now user (upgrade_password salt user password s)
      else (reply client_error user_not_exist_or_pwd_invalid, s)

  unfoldable pub login_fields : ℕ → Text → Text → Text → d.gorm.State → Response × d.gorm.State
  login_fields now salt username password s =
      if is_empty username || is_empty password
      then (record (reply client_error client_error) { message = of_code invalid_params }, s)
      else login_row now salt password (get_user_all_info_by_name d.gorm username s) s

  unfoldable pub post_user_login : ℕ → Text → Json → World d → Response × World d
  post_user_login now salt json w =
      let taken = d.rate.allow w.login_limiter now in
      let r = login_fields now salt (json "username") (json "password") w.db in
      if taken.0
      then (r.0, record w { login_limiter = taken.1; db = r.1 })
      else (reply too_many_request too_many_login_requests, record w { login_limiter = taken.1 })
