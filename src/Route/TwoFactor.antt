-- ===== src/Route/TwoFactor.antt =====
-- route/v1/user_2fa.go, and `ParsePreAuthToken` of service/user.go. Each handler reads the row of
-- its user first; what follows is a function of that row and of the world at that later moment.
pub mod Verified
pub mod Guarded
pub mod Enabled
pub mod Completes
pub mod Stale
use casa_os_user_service.Common.{
  ℕ, ◌+◌, Bool, true, false, not, ◌&&◌, ◌||◌, Option, none, some, List, [], ◌∷◌, ◌==◌,
  if◌then◌else◌,
}
use casa_os_user_service.Common.Text.{Text, bytes, is_empty}
use casa_os_user_service.Common.Decimal.{itoa}
use casa_os_user_service.Common.Int.{ℤ, pos}
use casa_os_user_service.Totp.{Draw, verify_totp, new_recovery_codes}
use casa_os_user_service.Users.Database.{UserDbModel}
use casa_os_user_service.Users.{
  get_user_all_info_by_id, consume_totp_step, use_recovery_code, set_pending_totp, enable_user_totp,
  disable_user_totp,
}
use casa_os_user_service.Route.{
  Deps, World, Json, Response, Result, ok, err, Code, nothing, enrolment, recovery, reply, reply_ok,
  internal_error, password_matches, issue_tokens, allow_user, client_error, service_error,
  user_not_exist, too_many_request, too_many_login_requests, invalid_params, verification_failure,
  two_fa_code_invalid, two_fa_already_enabled, two_fa_not_enabled,
}

module _ (d : Deps) where
  abbrev pub check_claims : ℕ → Result d.jwt.Claims → Result d.jwt.Claims
  check_claims now (err e) = err e
  check_claims now (ok claims) =
      if not (d.jwt.verify_issuer claims (bytes "2fa")) || not (d.jwt.verify_expires_at claims now)
      then err (bytes "invalid pre-auth token")
      else ok claims

  unfoldable pub parse_pre_auth_token : ℕ → Text → Result d.jwt.Claims
  parse_pre_auth_token now token = check_claims now (d.jwt.parse_token token d.pre_auth_pub now)

  -- A statement that had to win, and what is replied if it did.
  abbrev pub if_won : World d → Response → Response → Bool × d.gorm.State → Response × World d
  if_won w refusal success (won, s) = (if won then success else refusal, record w { db = s })

  abbrev pub consume_checked : ℕ → UserDbModel → World d → ℤ × Bool → Response × World d
  consume_checked now user w (step, valid) =
      if valid
      then if_won w (reply client_error two_fa_code_invalid) (issue_tokens d now user)
          (consume_totp_step d.gorm user.id step w.db)
      else (reply client_error two_fa_code_invalid, w)

  unfoldable pub verify_factor : ℕ → Json → UserDbModel → World d → Response × World d
  verify_factor now json user w =
      if not (is_empty (json "code")) && is_empty (json "recovery_code")
      then consume_checked now user w
          (verify_totp d.otp user.totp_secret (json "code") user.totp_last_step now)
      else if not (is_empty (json "recovery_code")) && is_empty (json "code")
      then if_won w (reply client_error two_fa_code_invalid) (issue_tokens d now user)
          (use_recovery_code d.gorm d.otp user.id (json "recovery_code") w.db)
      else (reply client_error invalid_params, w)

  -- A token is taken from the budget before anything is checked.
  abbrev pub if_allowed : Bool × World d → (World d → Response × World d) → Response × World d
  if_allowed (allowed, w) k =
      if allowed then k w else (reply too_many_request too_many_login_requests, w)

  unfoldable pub verify_row : ℕ → Json → UserDbModel → World d → Response × World d
  verify_row now json user w =
      if user.id == 0 || not user.totp_enabled
      then (reply client_error two_fa_not_enabled, w)
      else if_allowed (allow_user d user.id now w) (verify_factor now json user)

  abbrev pub verify_claims : ℕ → Json → World d → Result d.jwt.Claims → Response × World d
  verify_claims now json w (err e) = (reply client_error verification_failure, w)
  verify_claims now json w (ok claims) =
      verify_row now json (get_user_all_info_by_id d.gorm (itoa (d.jwt.id claims)) w.db) w

  unfoldable pub post_user_2fa_verify : ℕ → Json → World d → Response × World d
  post_user_2fa_verify now json w =
      verify_claims now json w (parse_pre_auth_token now (json "pre_auth_token"))

  -- The key is what totp.Generate gave for the name: the secret and the URL.
  abbrev pub store_key : UserDbModel → World d → Result (Text × Text) → Response × World d
  store_key user w (err e) = (internal_error e, w)
  store_key user w (ok (secret, url)) =
      if_won w (reply client_error two_fa_already_enabled) (reply_ok (enrolment secret url))
        (set_pending_totp d.gorm user.id secret w.db)

  unfoldable pub setup_checked :
      (Text → Result (Text × Text)) → Json → UserDbModel → World d → Response × World d
  setup_checked generate json user w =
      if password_matches d user.password (json "password")
      then store_key user w (generate user.username)
      else (reply client_error two_fa_code_invalid, w)

  unfoldable pub setup_row :
      ℕ → (Text → Result (Text × Text)) → Json → UserDbModel → World d → Response × World d
  setup_row now generate json user w =
      if user.id == 0
      then (reply service_error user_not_exist, w)
      else if user.totp_enabled
      then (reply client_error two_fa_already_enabled, w)
      else if is_empty (json "password")
      then (reply client_error invalid_params, w)
      else if_allowed (allow_user d user.id now w) (setup_checked generate json user)

  unfoldable pub post_user_2fa_setup :
      ℕ → (Text → Result (Text × Text)) → Text → Json → World d → Response × World d
  post_user_2fa_setup now generate id json w =
      setup_row now generate json (get_user_all_info_by_id d.gorm id w.db) w

  -- The loser of a race reads the row again to say what happened.
  abbrev pub enable_outcome :
      UserDbModel → World d → List Text → Bool × d.gorm.State → Response × World d
  enable_outcome user w plain (true, s) = (reply_ok (recovery plain), record w { db = s })
  enable_outcome user w plain (false, s) = (
    (if (get_user_all_info_by_id d.gorm (itoa user.id) s).totp_enabled
        then reply client_error two_fa_already_enabled
        else reply client_error two_fa_not_enabled),
    record w { db = s },
  )

  abbrev pub enable_with_codes :
      UserDbModel → ℤ → World d → Text → Option (List Text × List Text) → Response × World d
  enable_with_codes user step w failure none = (internal_error failure, w)
  enable_with_codes user step w failure (some (plain, hashes)) =
      enable_outcome user w plain
        (enable_user_totp d.gorm user.id user.totp_secret step hashes w.db)

  abbrev pub enable_verified :
      List Draw → Text → UserDbModel → World d → ℤ × Bool → Response × World d
  enable_verified draws failure user w (step, valid) =
      if valid
      then enable_with_codes user step w failure (new_recovery_codes d.otp draws)
      else (reply client_error two_fa_code_invalid, w)

  -- The draws are those of the eight recovery codes, and `failure` the text of the error if one of
  -- them fails.
  unfoldable pub enable_checked :
      ℕ → List Draw → Text → Json → UserDbModel → World d → Response × World d
  enable_checked now draws failure json user w =
      enable_verified draws failure user w
        (verify_totp d.otp user.totp_secret (json "code") (pos 0) now)

  unfoldable pub enable_row :
      ℕ → List Draw → Text → Json → UserDbModel → World d → Response × World d
  enable_row now draws failure json user w =
      if user.id == 0
      then (reply service_error user_not_exist, w)
      else if user.totp_enabled
      then (reply client_error two_fa_already_enabled, w)
      else if is_empty user.totp_secret
      then (reply client_error two_fa_not_enabled, w)
      else if_allowed (allow_user d user.id now w) (enable_checked now draws failure json user)

  unfoldable pub post_user_2fa_enable :
      ℕ → List Draw → Text → Text → Json → World d → Response × World d
  post_user_2fa_enable now draws failure id json w =
      enable_row now draws failure json (get_user_all_info_by_id d.gorm id w.db) w

  unfoldable pub disable_factor : ℕ → Json → UserDbModel → Bool
  disable_factor now json user =
      if not (is_empty (json "code"))
      then (verify_totp d.otp user.totp_secret (json "code") user.totp_last_step now).1
      else password_matches d user.password (json "password")

  unfoldable pub disable_checked : ℕ → Json → UserDbModel → World d → Response × World d
  disable_checked now json user w =
      if disable_factor now json user
      then if_won w (reply client_error two_fa_not_enabled) (reply_ok nothing)
          (disable_user_totp d.gorm user.id user.totp_secret w.db)
      else (reply client_error two_fa_code_invalid, w)

  abbrev pub both_or_neither : Text → Text → Bool
  both_or_neither code password =
      is_empty code && is_empty password || not (is_empty code) && not (is_empty password)

  unfoldable pub disable_row : ℕ → Json → UserDbModel → World d → Response × World d
  disable_row now json user w =
      if user.id == 0
      then (reply service_error user_not_exist, w)
      else if not user.totp_enabled
      then (reply client_error two_fa_not_enabled, w)
      else if both_or_neither (json "code") (json "password")
      then (reply client_error invalid_params, w)
      else if_allowed (allow_user d user.id now w) (disable_checked now json user)

  unfoldable pub post_user_2fa_disable : ℕ → Text → Json → World d → Response × World d
  post_user_2fa_disable now id json w =
      disable_row now json (get_user_all_info_by_id d.gorm id w.db) w
