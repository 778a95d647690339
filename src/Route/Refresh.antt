-- ===== src/Route/Refresh.antt =====
-- `PostUserRefreshToken` of route/v1/user.go.
pub mod Renewed
use casa_os_user_service.Common.{ℕ, ◌+◌, Bool, not, ◌||◌, if◌then◌else◌}
use casa_os_user_service.Common.Text.{Text, bytes}
use casa_os_user_service.Route.{
  Deps, Json, Response, Result, ok, err, http, verification_failure, reply, reply_ok, detail,
  tokens, with_tokens,
}

module _ (d : Deps) where
  abbrev pub refresh_claims : ℕ → Result d.jwt.Claims → Response
  refresh_claims now (err e) = record (reply (http 401) verification_failure) { body = detail e }
  refresh_claims now (ok claims) =
      if not (d.jwt.verify_expires_at claims now)
        || not (d.jwt.verify_issuer claims (bytes "refresh"))
      then reply (http 401) verification_failure
      else with_tokens d now (d.jwt.username claims) (d.jwt.id claims)
          (d.jwt.get_access_token (d.jwt.username claims) d.private_key (d.jwt.id claims) now)
          (λ t. reply_ok (tokens t))

  unfoldable pub post_user_refresh_token : ℕ → Json → Response
  post_user_refresh_token now json =
      refresh_claims now (d.jwt.parse_token (json "refresh_token") d.public_key now)
