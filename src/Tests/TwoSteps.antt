-- ===== src/Tests/TwoSteps.antt =====
-- A login in two steps on the service of the tests.
use casa_os_user_service.Route.{
  allow_user, user_limiter, password_matches, Json, Result, ok, VerifyInformation, session,
}
use casa_os_user_service.Common.Decimal.{itoa}
use casa_os_user_service.Common.Text.{split, Text, bytes, text_eq, text_eq_refl}
use casa_os_user_service.Encryption.{verify_password, parse_argon, six, get_md5_by_str, hex}
use casa_os_user_service.Users.{get_user_all_info_by_name, get_user_all_info_by_id}
use casa_os_user_service.Route.Login.{
  post_user_login, login_fields, login_row, login_matched, finish_login, issue_pre_auth_token,
}
use casa_os_user_service.Common.{◌+◌, ◌≡◌, refl, [], ◌∷◌, arith, inl, inr}
use casa_os_user_service.Common.Int.{pos}
use casa_os_user_service.Route.TwoFactor.{post_user_2fa_verify}
use casa_os_user_service.Route.TwoFactor.Completes.{IsPair, post_user_2fa_verify-completes}
use casa_os_user_service.Tests.Memory.{memory-IsLawful}
use casa_os_user_service.Tests.Codec.{repeat}
use casa_os_user_service.Tests.Service.{deps, bob, world, body_of}
use casa_os_user_service.Tests.Accounts.{table-HasKeys}

ok-injective : (s t : Text) → ◌≡◌ {A = Result Text} (ok s) (ok t) → s ≡ t
ok-injective s t e = cc

deps-IsPair : IsPair deps.jwt deps.pre_auth_priv deps.pre_auth_pub
deps-IsPair = record {
  generate-parse = λ name id issuer life now later token made after le.
      let e = ok-injective (id ∷ (now + life) ∷ issuer) token made in
      (token, refl, rw⁻¹ e refl, rw⁻¹ e (text_eq_refl issuer), rw⁻¹ e (ground (arith, le)));
}

abbrev bob_login : Json
bob_login = body_of ("username", bytes "bob") ("password", bytes "hunter")

-- The token that the login hands out, and a code of step 11.
abbrev bob_code : Json
bob_code = body_of ("pre_auth_token", 2 ∷ 400 ∷ bytes "2fa") ("code", 11 ∷ [])

post_user_2fa_verify-completes_example :
    (t : VerifyInformation) × ((post_user_2fa_verify deps 330 bob_code world).0.body
      ≡ session t (record bob { password = [] }))
unfolding post_user_login login_fields text_eq login_row get_user_all_info_by_name password_matches
    verify_password parse_argon six split get_md5_by_str hex login_matched finish_login
    issue_pre_auth_token get_user_all_info_by_id itoa allow_user user_limiter
post_user_2fa_verify-completes_example =
    post_user_2fa_verify-completes deps memory-IsLawful 100 330 (repeat 16 1) bob_login bob_code
      world world (2 ∷ 400 ∷ bytes "2fa") 400 2 bob (pos 11) deps-IsPair refl (omega arith)
      (omega arith) refl refl refl (λ e. omega (arith, e)) refl refl table-HasKeys
      (λ step failed_. cc) ((_, refl), (_, refl)) refl refl
      (record { near = inr (inl refl); valid = refl; later = refl })
