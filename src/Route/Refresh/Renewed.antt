-- ===== src/Route/Refresh/Renewed.antt =====
-- What a refresh that hands out tokens has shown.
use casa_os_user_service.Common.{ℕ, ◌≡◌, refl, true, not, ◌||◌, arith, Bool-cases, inl, inr}
use casa_os_user_service.Common.Text.{Text, bytes}
use casa_os_user_service.Route.{
  Deps, Json, Result, ok, err, tokens, VerifyInformation, with_tokens, with_refresh, reply_ok,
}
use casa_os_user_service.Route.Refresh.{refresh_claims, post_user_refresh_token}

module _ (d : Deps) where
  pub record Renewed (now : ℕ) (claims : d.jwt.Claims) (t : VerifyInformation) : Type 0 where
    pub unexpired : d.jwt.verify_expires_at claims now ≡ true
    pub for_refresh : d.jwt.verify_issuer claims (bytes "refresh") ≡ true
    pub access :
        d.jwt.get_access_token (d.jwt.username claims) d.private_key (d.jwt.id claims) now
        ≡ ok t.access_token
    pub refresh :
        d.jwt.get_refresh_token (d.jwt.username claims) d.private_key (d.jwt.id claims) now
        ≡ ok t.refresh_token

  with_refresh-tokens :
      (now : ℕ) (access : Text) (r : Result Text) (t : VerifyInformation)
      → (with_refresh d now access r (λ v. reply_ok (tokens v))).body ≡ tokens t
      → (access ≡ t.access_token) × (r ≡ ok t.refresh_token)
  with_refresh-tokens now access (err e) t h = cc
  with_refresh-tokens now access (ok x) t h = ground arith

  with_tokens-tokens :
      (now : ℕ) (name : Text) (id : ℕ) (r : Result Text) (t : VerifyInformation)
      → (with_tokens d now name id r (λ v. reply_ok (tokens v))).body ≡ tokens t
      → (r ≡ ok t.access_token)
        × (d.jwt.get_refresh_token name d.private_key id now ≡ ok t.refresh_token)
  with_tokens-tokens now name id (err e) t h = cc
  with_tokens-tokens now name id (ok x) t h =
      let (a, b) = with_refresh-tokens now x _ t h in (rw a refl, b)

  refresh_claims-Renewed :
      (now : ℕ) (r : Result d.jwt.Claims) (t : VerifyInformation)
      → (refresh_claims d now r).body ≡ tokens t
      → (claims : d.jwt.Claims) × (r ≡ ok claims) × Renewed now claims t
  refresh_claims-Renewed now (err e) t h = cc
  refresh_claims-Renewed now (ok claims) t h =
      elim (Bool-cases (
        not (d.jwt.verify_expires_at claims now)
        || not (d.jwt.verify_issuer claims (bytes "refresh")))) [
          | inl bad ↦ cc (rw bad at h)
          | inr good ↦
              let (a, b) = with_tokens-tokens now _ _ _ t (rw good at h) in
              (
                claims,
                refl,
                record {
                  unexpired = ground arith;
                  for_refresh = ground arith;
                  access = a;
                  refresh = b;
                },
              )
        ]

  -- Tokens are handed out only for a token that parses with the key of the service, has not expired
  -- and was issued for a refresh; both are signed for its name and id.
  pub post_user_refresh_token-Renewed :
      (now : ℕ) (json : Json) (t : VerifyInformation)
      → (post_user_refresh_token d now json).body ≡ tokens t
      → (claims : d.jwt.Claims) × (d.jwt.parse_token (json "refresh_token") d.public_key now
          ≡ ok claims)
        × Renewed now claims t
  unfolding post_user_refresh_token
  post_user_refresh_token-Renewed now json t h = refresh_claims-Renewed now _ t h
