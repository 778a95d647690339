-- ===== src/Tests/TwoFactor.antt =====
-- Tests of the second-factor handlers on the service of the tests.
use casa_os_user_service.Users.{consume_totp_step, get_user_all_info_by_id}
use casa_os_user_service.Totp.{verify_totp}
use casa_os_user_service.Route.TwoFactor.{
  parse_pre_auth_token, verify_factor, verify_row, setup_row, enable_row, disable_row,
  post_user_2fa_verify,
}
use casa_os_user_service.Common.{◌≡◌, ◌≢◌, refl, ap, true, [], ◌∷◌, arith, length, inr, inl}
use casa_os_user_service.Common.Text.{Text, bytes, text_eq}
use casa_os_user_service.Common.Decimal.{itoa}
use casa_os_user_service.Common.Int.{pos}
use casa_os_user_service.Route.{
  Json, Result, VerifyInformation, issue_tokens, allow_user, user_limiter,
}
use casa_os_user_service.Route.TwoFactor.Verified.{Verified, post_user_2fa_verify-Verified}
use casa_os_user_service.Route.TwoFactor.Guarded.{Keeps}
use casa_os_user_service.Route.TwoFactor.Stale.{stale_row-Enrolled}
use casa_os_user_service.Tests.Memory.{memory, memory-IsLawful}
use casa_os_user_service.Tests.Codec.{draw}
use casa_os_user_service.Tests.Service.{deps, bob, table, world, body_of}
use casa_os_user_service.Tests.Accounts.{bob-Enrolled}

abbrev bob_code : Json
bob_code = body_of ("pre_auth_token", 2 ∷ 600 ∷ bytes "2fa") ("code", 11 ∷ [])

abbrev bob_session : VerifyInformation
bob_session = record {
  refresh_token = 2 ∷ 605130 ∷ bytes "refresh";
  access_token = 2 ∷ 11130 ∷ bytes "casaos";
  expires_at = 11130;
}

post_user_2fa_verify-Verified_example :
    (claims : Text) × (deps.jwt.parse_token (2 ∷ 600 ∷ bytes "2fa") deps.pre_auth_pub 330
      ≡ Result.ok claims)
    × (deps.jwt.verify_issuer claims (bytes "2fa") ≡ true)
    × (deps.jwt.verify_expires_at claims 330 ≡ true)
    × Verified deps 330 bob_code
        (get_user_all_info_by_id memory (itoa (deps.jwt.id claims)) table)
        world
        (post_user_2fa_verify deps 330 bob_code world).1
        bob_session
        (record bob { password = [] })
unfolding post_user_2fa_verify parse_pre_auth_token text_eq verify_row get_user_all_info_by_id itoa
    allow_user user_limiter verify_factor verify_totp consume_totp_step issue_tokens
post_user_2fa_verify-Verified_example =
    post_user_2fa_verify-Verified deps 330 bob_code world bob_session (record bob { password = [] })
      refl

abbrev hunter : Json
hunter = body_of ("password", bytes "hunter") ("", [])

old_key : bytes "OLDER" ≢ bytes "KEY"
old_key e = omega (arith, ap (length {0}) e)

stale_row-Enrolled_example :
    let stale = record bob { totp_secret = bytes "OLDER" } in
    Keeps deps memory-IsLawful 2
      (bytes "KEY")
      (pos 10)
      bob.recovery_codes
      (setup_row deps 330 (λ name. Result.ok (bytes "EVIL", [])) hunter stale world)
    × Keeps deps memory-IsLawful 2
        (bytes "KEY")
        (pos 10)
        bob.recovery_codes
        (enable_row deps 330 (draw ∷ []) [] hunter stale world)
    × Keeps deps memory-IsLawful 2
        (bytes "KEY")
        (pos 10)
        bob.recovery_codes
        (verify_row deps 330 hunter stale world)
    × Keeps deps memory-IsLawful 2
        (bytes "KEY")
        (pos 10)
        bob.recovery_codes
        (disable_row deps 330 hunter stale world)
stale_row-Enrolled_example =
    stale_row-Enrolled deps memory-IsLawful 2 (bytes "KEY") (pos 10) bob.recovery_codes 330
      (λ name. Result.ok (bytes "EVIL", [])) (draw ∷ []) [] hunter
      (record bob { totp_secret = bytes "OLDER" }) world (inr (inl old_key)) bob-Enrolled
