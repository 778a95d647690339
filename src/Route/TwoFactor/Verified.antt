-- ===== src/Route/TwoFactor/Verified.antt =====
-- What a second-factor request that is answered by a session has shown.
use casa_os_user_service.Common.{
  ℕ, ◌≡◌, ◌≢◌, refl, subst, Bool, true, false, not, ◌&&◌, ◌||◌, ◌==◌, arith, Bool-cases, inl, inr,
}
use casa_os_user_service.Common.Text.{bytes, is_empty}
use casa_os_user_service.Common.Decimal.{itoa}
use casa_os_user_service.Common.Int.{ℤ}
use casa_os_user_service.Totp.{verify_totp}
use casa_os_user_service.Users.Database.{UserDbModel}
use casa_os_user_service.Users.{get_user_all_info_by_id, consume_totp_step, use_recovery_code}
use casa_os_user_service.Route.{
  Deps, World, Json, Response, Code, Result, ok, err, VerifyInformation, session, reply, allow_user,
}
use casa_os_user_service.Route.Budget.{Session, issue_tokens-Session}
use casa_os_user_service.Route.TwoFactor.{
  if_won, consume_checked, verify_factor, if_allowed, verify_row, verify_claims, check_claims,
  parse_pre_auth_token, post_user_2fa_verify,
}

module _ (d : Deps) where
  -- Exactly one factor was given, a code or a recovery code that is not empty, and it was used up: by the statement that leaves the database as
  -- it is after the request.
  pub data Factor (now : ℕ) (json : Json) (user : UserDbModel) (s s' : d.gorm.State) : Type 0 where
    by_code :
        (step : ℤ)
        → is_empty (json "code") ≡ false
        → is_empty (json "recovery_code") ≡ true
        → verify_totp d.otp user.totp_secret (json "code") user.totp_last_step now ≡ (step, true)
        → consume_totp_step d.gorm user.id step s ≡ (true, s')
        → Factor now json user s s'
    by_recovery_code :
        is_empty (json "recovery_code") ≡ false
        → is_empty (json "code") ≡ true
        → use_recovery_code d.gorm d.otp user.id (json "recovery_code") s ≡ (true, s')
        → Factor now json user s s'

  if_won-session :
      (w : World d) (refusal why : Code) (answer : Response) (r : Bool × d.gorm.State)
      (t : VerifyInformation) (u : UserDbModel)
      → (if_won d w (reply refusal why) answer r).0.body ≡ session t u
      → (r ≡ (true, (if_won d w (reply refusal why) answer r).1.db)) × (answer.body ≡ session t u)
  if_won-session w refusal why answer (true, s) t u h = (refl, h)
  if_won-session w refusal why answer (false, s) t u h = cc

  consume_checked-session :
      (now : ℕ) (json : Json) (user : UserDbModel) (w : World d) (r : ℤ × Bool)
      (t : VerifyInformation) (u : UserDbModel)
      → is_empty (json "code") ≡ false
      → is_empty (json "recovery_code") ≡ true
      → verify_totp d.otp user.totp_secret (json "code") user.totp_last_step now ≡ r
      → (consume_checked d now user w r).0.body ≡ session t u
      → Factor now json user w.db (consume_checked d now user w r).1.db × Session d now user t u
  consume_checked-session now json user w (step, false) t u given alone e h = cc
  consume_checked-session now json user w (step, true) t u given alone e h =
      let (won, made) = if_won-session w _ _ _ _ t u h in
      (by_code step given alone e won, issue_tokens-Session d now user t u made)

  verify_factor-Factor :
      (now : ℕ) (json : Json) (user : UserDbModel) (w : World d) (t : VerifyInformation)
      (u : UserDbModel)
      → (verify_factor d now json user w).0.body ≡ session t u
      → Factor now json user w.db (verify_factor d now json user w).1.db × Session d now user t u
  unfolding verify_factor
  verify_factor-Factor now json user w t u h =
      elim (Bool-cases (not (is_empty (json "code")) && is_empty (json "recovery_code"))) [
        | inl code ↦ rw code (
            consume_checked-session now json user w _ t u (ground arith) (ground arith) refl
              (rw code at h))
        | inr no_code ↦
            elim (Bool-cases (not (is_empty (json "recovery_code")) && is_empty (json "code"))) [
              | inl recovery ↦
                  let (won, made) = if_won-session w _ _ _ _ t u (rw (no_code, recovery) at h) in
                  rw (no_code, recovery)
                    (
                      by_recovery_code (ground arith) (ground arith) won,
                      issue_tokens-Session d now user t u made,
                    )
              | inr neither ↦ cc (rw (no_code, neither) at h)
            ]
      ]

  -- What the row as it was read and the factor had to be.
  pub record Verified (now : ℕ) (json : Json) (user : UserDbModel) (w w' : World d)
      (t : VerifyInformation) (u : UserDbModel) : Type 0 where
    pub known : user.id ≢ 0
    pub enabled : user.totp_enabled ≡ true
    pub in_budget : (allow_user d user.id now w).0 ≡ true
    pub factor : Factor now json user w.db w'.db
    pub made : Session d now user t u

  allowed-Verified :
      (now : ℕ) (json : Json) (user : UserDbModel) (w : World d) (r : Bool × World d)
      (t : VerifyInformation) (u : UserDbModel)
      → user.id ≢ 0
      → user.totp_enabled ≡ true
      → (allow_user d user.id now w).0 ≡ r.0
      → r.1.db ≡ w.db
      → (if_allowed d r (verify_factor d now json user)).0.body ≡ session t u
      → Verified now json user w (if_allowed d r (verify_factor d now json user)).1 t u
  allowed-Verified now json user w (false, w') t u known on budget same h = cc
  allowed-Verified now json user w (true, w') t u known on budget same h =
      let (f, made) = verify_factor-Factor now json user w' t u h in
      record {
        known = known;
        enabled = on;
        in_budget = budget;
        factor = subst (λ s. Factor now json user s (verify_factor d now json user w').1.db) same f;
        made = made;
      }

  -- The second step of a login, once the row was read.
  pub verify_row-Verified :
      (now : ℕ) (json : Json) (user : UserDbModel) (w : World d) (t : VerifyInformation)
      (u : UserDbModel)
      → (verify_row d now json user w).0.body ≡ session t u
      → Verified now json user w (verify_row d now json user w).1 t u
  unfolding verify_row allow_user
  verify_row-Verified now json user w t u h =
      elim (Bool-cases (user.id == 0 || not user.totp_enabled)) [
        | inl off ↦ cc (rw off at h)
        | inr on ↦ rw on (
            allowed-Verified now json user w (allow_user d user.id now w) t u (λ z. ground arith)
              (ground arith) refl refl (rw on at h))
      ]

  verify_claims-Verified :
      (now : ℕ) (json : Json) (w : World d) (r : Result d.jwt.Claims) (t : VerifyInformation)
      (u : UserDbModel)
      → (verify_claims d now json w r).0.body ≡ session t u
      → (claims : d.jwt.Claims) × (r ≡ ok claims)
        × Verified now json
            (get_user_all_info_by_id d.gorm (itoa (d.jwt.id claims)) w.db)
            w
            (verify_claims d now json w r).1
            t
            u
  verify_claims-Verified now json w (err e) t u h = cc
  verify_claims-Verified now json w (ok claims) t u h =
      (claims, refl, verify_row-Verified now json _ w t u h)

  check_claims-ok :
      (now : ℕ) (r : Result d.jwt.Claims) (claims : d.jwt.Claims)
      → check_claims d now r ≡ ok claims
      → (r ≡ ok claims)
        × (d.jwt.verify_issuer claims (bytes "2fa") ≡ true)
        × (d.jwt.verify_expires_at claims now ≡ true)
  check_claims-ok now (err e) claims h = cc
  check_claims-ok now (ok c) claims h =
      elim (Bool-cases
        (not (d.jwt.verify_issuer c (bytes "2fa")) || not (d.jwt.verify_expires_at c now))) [
          | inl bad ↦ cc (rw bad at h)
          | inr good ↦ ground (arith, rw good at h)
        ]

  -- The second step of a login issues a session only for a token that parses with the pre-auth key,
  -- was issued for this step and has not expired; the session is that of the row of its id, which
  -- must be enabled and have a token left in its budget, and exactly one factor was used up.
  pub post_user_2fa_verify-Verified :
      (now : ℕ) (json : Json) (w : World d) (t : VerifyInformation) (u : UserDbModel)
      → (post_user_2fa_verify d now json w).0.body ≡ session t u
      → (claims : d.jwt.Claims) × (d.jwt.parse_token (json "pre_auth_token") d.pre_auth_pub now
          ≡ ok claims)
        × (d.jwt.verify_issuer claims (bytes "2fa") ≡ true)
        × (d.jwt.verify_expires_at claims now ≡ true)
        × Verified now json
            (get_user_all_info_by_id d.gorm (itoa (d.jwt.id claims)) w.db)
            w
            (post_user_2fa_verify d now json w).1
            t
            u
  unfolding post_user_2fa_verify parse_pre_auth_token
  post_user_2fa_verify-Verified now json w t u h =
      let (claims, e, v) = verify_claims-Verified now json w _ t u h in
      let (parsed, issuer, unexpired) = check_claims-ok now _ claims e in
      (claims, parsed, issuer, unexpired, v)
