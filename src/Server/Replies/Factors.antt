-- ===== src/Server/Replies/Factors.antt =====
-- The replies of the second factor.
use casa_os_user_service.Common.{
  ℕ, refl, Bool, true, false, not, ◌&&◌, ◌||◌, Option, none, some, List, ◌==◌,
}
use casa_os_user_service.Common.Text.{Text, is_empty}
use casa_os_user_service.Common.Decimal.{itoa}
use casa_os_user_service.Common.Int.{ℤ, pos}
use casa_os_user_service.Totp.{Draw, verify_totp, new_recovery_codes}
use casa_os_user_service.Users.Database.{UserDbModel}
use casa_os_user_service.Users.{
  get_user_all_info_by_id, consume_totp_step, use_recovery_code, set_pending_totp,
  disable_user_totp,
}
use casa_os_user_service.Route.{
  Deps, World, Json, Response, Result, ok, err, client_error, service_error, too_many_request,
  too_many_login_requests, invalid_params, user_not_exist, two_fa_code_invalid, two_fa_not_enabled,
  two_fa_already_enabled, verification_failure, reply, nothing, enrolment, recovery, allow_user,
  password_matches,
}
use casa_os_user_service.Route.TwoFactor.{
  if_won, consume_checked, verify_factor, if_allowed, verify_row, verify_claims,
  post_user_2fa_verify, store_key, setup_checked, setup_row, post_user_2fa_setup, enable_outcome,
  enable_with_codes, enable_verified, enable_checked, enable_row, post_user_2fa_enable,
  disable_factor, disable_checked, both_or_neither, disable_row, post_user_2fa_disable,
}
use casa_os_user_service.Server.Replies.{
  IsFit, Fits, if-Fits, if-IsFit, reply-IsFit, reply-Fits, reply_ok-IsFit, internal_error-IsFit,
}
use casa_os_user_service.Server.Replies.Sessions.{issue_tokens-IsFit}

module _ (d : Deps) (sent : Text) where
  if_won-Fits :
      (w : World d) (refusal success : Response) (r : Bool × d.gorm.State)
      → IsFit sent refusal
      → IsFit sent success
      → Fits d sent (if_won d w refusal success r)
  if_won-Fits w refusal success (won, s) h k = record {
    fits = if-IsFit d sent won success refusal k h;
  }

  if_allowed-Fits :
      (r : Bool × World d) (k : World d → Response × World d)
      → ((w : World d) → Fits d sent (k w))
      → Fits d sent (if_allowed d r k)
  if_allowed-Fits (allowed, w) k h =
      if-Fits d sent allowed _ _ (h w)
        (reply-Fits d sent too_many_request too_many_login_requests w refl)

  invalid : IsFit sent (reply client_error two_fa_code_invalid)
  invalid = reply-IsFit d sent client_error two_fa_code_invalid refl

  consume_checked-Fits :
      (now : ℕ) (user : UserDbModel) (w : World d) (r : ℤ × Bool)
      → Fits d sent (consume_checked d now user w r)
  consume_checked-Fits now user w (step, valid) =
      if-Fits d sent valid _ _
        (if_won-Fits w _ _ (consume_totp_step d.gorm user.id step w.db) invalid
          (issue_tokens-IsFit d sent now user))
        (record { fits = invalid })

  verify_factor-Fits :
      (now : ℕ) (json : Json) (user : UserDbModel) (w : World d)
      → Fits d sent (verify_factor d now json user w)
  unfolding verify_factor
  verify_factor-Fits now json user w =
      if-Fits d sent (not (is_empty (json "code")) && is_empty (json "recovery_code")) _ _
        (consume_checked-Fits now user w _)
        (if-Fits d sent (not (is_empty (json "recovery_code")) && is_empty (json "code")) _ _
          (if_won-Fits w _ _ (use_recovery_code d.gorm d.otp user.id (json "recovery_code") w.db)
            invalid (issue_tokens-IsFit d sent now user))
          (reply-Fits d sent client_error invalid_params w refl))

  verify_row-Fits :
      (now : ℕ) (json : Json) (user : UserDbModel) (w : World d)
      → Fits d sent (verify_row d now json user w)
  unfolding verify_row
  verify_row-Fits now json user w =
      if-Fits d sent (user.id == 0 || not user.totp_enabled) _ _
        (reply-Fits d sent client_error two_fa_not_enabled w refl)
        (if_allowed-Fits (allow_user d user.id now w) _ (verify_factor-Fits now json user))

  verify_claims-Fits :
      (now : ℕ) (json : Json) (w : World d) (r : Result d.jwt.Claims)
      → Fits d sent (verify_claims d now json w r)
  verify_claims-Fits now json w (err e) = reply-Fits d sent client_error verification_failure w refl
  verify_claims-Fits now json w (ok claims) = verify_row-Fits now json _ w

  pub post_user_2fa_verify-Fits :
      (now : ℕ) (json : Json) (w : World d) → Fits d sent (post_user_2fa_verify d now json w)
  unfolding post_user_2fa_verify
  post_user_2fa_verify-Fits now json w = verify_claims-Fits now json w _

  store_key-Fits :
      (user : UserDbModel) (w : World d) (r : Result (Text × Text))
      → Fits d sent (store_key d user w r)
  store_key-Fits user w (err e) = record { fits = internal_error-IsFit d sent e }
  store_key-Fits user w (ok (secret, url)) =
      if_won-Fits w _ _ (set_pending_totp d.gorm user.id secret w.db)
        (reply-IsFit d sent client_error two_fa_already_enabled refl)
        (reply_ok-IsFit d sent (enrolment secret url) refl)

  setup_checked-Fits :
      (generate : Text → Result (Text × Text)) (json : Json) (user : UserDbModel) (w : World d)
      → Fits d sent (setup_checked d generate json user w)
  unfolding setup_checked
  setup_checked-Fits generate json user w =
      if-Fits d sent (password_matches d user.password (json "password")) _ _
        (store_key-Fits user w (generate user.username)) (record { fits = invalid })

  setup_row-Fits :
      (now : ℕ) (generate : Text → Result (Text × Text)) (json : Json) (user : UserDbModel)
      (w : World d)
      → Fits d sent (setup_row d now generate json user w)
  unfolding setup_row
  setup_row-Fits now generate json user w =
      if-Fits d sent (user.id == 0) _ _ (reply-Fits d sent service_error user_not_exist w refl) (
        if-Fits d sent user.totp_enabled _ _
          (reply-Fits d sent client_error two_fa_already_enabled w refl)
          (if-Fits d sent (is_empty (json "password")) _ _
            (reply-Fits d sent client_error invalid_params w refl)
            (if_allowed-Fits (allow_user d user.id now w) _
              (setup_checked-Fits generate json user))))

  pub post_user_2fa_setup-Fits :
      (now : ℕ) (generate : Text → Result (Text × Text)) (id : Text) (json : Json) (w : World d)
      → Fits d sent (post_user_2fa_setup d now generate id json w)
  unfolding post_user_2fa_setup
  post_user_2fa_setup-Fits now generate id json w = setup_row-Fits now generate json _ w

  enable_outcome-Fits :
      (user : UserDbModel) (w : World d) (plain : List Text) (r : Bool × d.gorm.State)
      → Fits d sent (enable_outcome d user w plain r)
  enable_outcome-Fits user w plain (true, s) = record {
    fits = reply_ok-IsFit d sent (recovery plain) refl;
  }
  enable_outcome-Fits user w plain (false, s) = record {
    fits =
        if-IsFit d sent (get_user_all_info_by_id d.gorm (itoa user.id) s).totp_enabled _ _
          (reply-IsFit d sent client_error two_fa_already_enabled refl)
          (reply-IsFit d sent client_error two_fa_not_enabled refl);
  }

  enable_with_codes-Fits :
      (user : UserDbModel) (step : ℤ) (w : World d) (failure : Text)
      (o : Option (List Text × List Text))
      → Fits d sent (enable_with_codes d user step w failure o)
  enable_with_codes-Fits user step w failure none = record {
    fits = internal_error-IsFit d sent failure;
  }
  enable_with_codes-Fits user step w failure (some (plain, hashes)) =
      enable_outcome-Fits user w plain _

  enable_verified-Fits :
      (draws : List Draw) (failure : Text) (user : UserDbModel) (w : World d) (r : ℤ × Bool)
      → Fits d sent (enable_verified d draws failure user w r)
  enable_verified-Fits draws failure user w (step, valid) =
      if-Fits d sent valid _ _
        (enable_with_codes-Fits user step w failure (new_recovery_codes d.otp draws))
        (record { fits = invalid })

  enable_row-Fits :
      (now : ℕ) (draws : List Draw) (failure : Text) (json : Json) (user : UserDbModel)
      (w : World d)
      → Fits d sent (enable_row d now draws failure json user w)
  unfolding enable_row enable_checked
  enable_row-Fits now draws failure json user w =
      if-Fits d sent (user.id == 0) _ _ (reply-Fits d sent service_error user_not_exist w refl) (
        if-Fits d sent user.totp_enabled _ _
          (reply-Fits d sent client_error two_fa_already_enabled w refl)
          (if-Fits d sent (is_empty user.totp_secret) _ _
            (reply-Fits d sent client_error two_fa_not_enabled w refl)
            (if_allowed-Fits (allow_user d user.id now w) _ (λ v.
              enable_verified-Fits draws failure user v
                (verify_totp d.otp user.totp_secret (json "code") (pos 0) now)))))

  pub post_user_2fa_enable-Fits :
      (now : ℕ) (draws : List Draw) (failure id : Text) (json : Json) (w : World d)
      → Fits d sent (post_user_2fa_enable d now draws failure id json w)
  unfolding post_user_2fa_enable
  post_user_2fa_enable-Fits now draws failure id json w = enable_row-Fits now draws failure json _ w

  disable_checked-Fits :
      (now : ℕ) (json : Json) (user : UserDbModel) (w : World d)
      → Fits d sent (disable_checked d now json user w)
  unfolding disable_checked
  disable_checked-Fits now json user w =
      if-Fits d sent (disable_factor d now json user) _ _
        (if_won-Fits w _ _ (disable_user_totp d.gorm user.id user.totp_secret w.db)
          (reply-IsFit d sent client_error two_fa_not_enabled refl)
          (reply_ok-IsFit d sent nothing tt))
        (record { fits = invalid })

  disable_row-Fits :
      (now : ℕ) (json : Json) (user : UserDbModel) (w : World d)
      → Fits d sent (disable_row d now json user w)
  unfolding disable_row
  disable_row-Fits now json user w =
      if-Fits d sent (user.id == 0) _ _ (reply-Fits d sent service_error user_not_exist w refl) (
        if-Fits d sent (not user.totp_enabled) _ _
          (reply-Fits d sent client_error two_fa_not_enabled w refl)
          (if-Fits d sent (both_or_neither d (json "code") (json "password")) _ _
            (reply-Fits d sent client_error invalid_params w refl)
            (if_allowed-Fits (allow_user d user.id now w) _ (disable_checked-Fits now json user))))

  pub post_user_2fa_disable-Fits :
      (now : ℕ) (id : Text) (json : Json) (w : World d)
      → Fits d sent (post_user_2fa_disable d now id json w)
  unfolding post_user_2fa_disable
  post_user_2fa_disable-Fits now id json w = disable_row-Fits now json _ w
