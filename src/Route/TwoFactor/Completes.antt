-- ===== src/Route/TwoFactor/Completes.antt =====
-- A login in two steps comes to an end: who has the password and a fresh code gets a session.
use casa_os_user_service.Common.{
  ℕ, ◌+◌, ◌≤◌, ◌<◌, ◌≡◌, ◌≢◌, refl, ap, ◌∙◌, subst, sym, Bool, true, false, not, ◌||◌, ◌==◌, some,
  [], arith, inl, inr,
}
use casa_os_user_service.Common.Text.{Text, bytes, is_empty}
use casa_os_user_service.Common.Decimal.{itoa}
use casa_os_user_service.Common.Int.{ℤ, ltb_ℤ}
use casa_os_user_service.Totp.{verify_totp}
use casa_os_user_service.Totp.Steps.{IsFresh, verify_totp-IsFresh, verify_totp-accepts}
use casa_os_user_service.Users.Database.{UserDbModel, IsLawful}
use casa_os_user_service.Users.Table.{HasKeys}
use casa_os_user_service.Users.Cas.{account, won, lost, changed_one-Swapped, IsFailed}
use casa_os_user_service.Users.Found.{get_user_all_info_by_id-id, get_user_all_info_by_id-account}
use casa_os_user_service.Users.{
  get_user_all_info_by_id, get_user_all_info_by_name, consume_totp_step,
}
use casa_os_user_service.Route.{
  Deps, World, Json, ok, VerifyInformation, session, pre_auth, allow_user, issue_tokens, reply,
  client_error, two_fa_code_invalid, verify_information, Jwt,
}
use casa_os_user_service.Route.Login.PreAuthMade.{PreAuth, post_user_login-PreAuth}
use casa_os_user_service.Route.Login.{post_user_login, pre_auth_ttl}
use casa_os_user_service.Route.TwoFactor.{
  if_won, consume_checked, verify_factor, if_allowed, verify_row, parse_pre_auth_token,
  post_user_2fa_verify,
}

-- What is documented of the tokens: one that was made parses under the key of its pair, to what it
-- was made with, from its issue on and strictly before its expiry.
pub record IsPair (j : Jwt) (priv : j.PrivateKey) (open_key : j.PublicKey) : Type 0 where
  pub generate-parse :
      (name : Text) (id : ℕ) (issuer : Text) (life now later : ℕ) (token : Text)
      → j.generate_token name priv id issuer life now ≡ ok token
      → now ≤ later
      → later < now + life
      → (claims : j.Claims) × (j.parse_token token open_key later ≡ ok claims)
        × (j.id claims ≡ id)
        × (j.verify_issuer claims issuer ≡ true)
        × (j.verify_expires_at claims later ≡ true)

module _ (d : Deps) where
  parse_pre_auth_token-PreAuth :
      (now later i : ℕ) (token : Text) (expires : ℕ)
      → IsPair d.jwt d.pre_auth_priv d.pre_auth_pub
      → PreAuth d now i token expires
      → now ≤ later
      → later < expires
      → (claims : d.jwt.Claims) × (parse_pre_auth_token d later token ≡ ok claims)
        × (d.jwt.id claims ≡ i)
  unfolding parse_pre_auth_token
  parse_pre_auth_token-PreAuth now later i token expires pair p after le =
      let (claims, parsed, same, issuer, fresh) =
        pair.generate-parse p.name i (bytes "2fa") pre_auth_ttl now later token p.made after
          (ground (arith, p.expiry)) in
      (claims, rw (parsed, issuer, fresh) refl, same)

  -- The signing of an access token and of a refresh token does not fail.
  abbrev pub Signs : ℕ → UserDbModel → Type 0
  Signs now user =
      ((access : Text) × (d.jwt.get_access_token user.username d.private_key user.id now
          ≡ ok access))
      × ((refresh : Text) × (d.jwt.get_refresh_token user.username d.private_key user.id now
            ≡ ok refresh))

  issue_tokens-Signs :
      (now : ℕ) (user : UserDbModel)
      → Signs now user
      → (t : VerifyInformation) × ((issue_tokens d now user).body
          ≡ session t (record user { password = [] }))
  unfolding issue_tokens
  issue_tokens-Signs now user ((access, a), (refresh, b)) =
      (verify_information d now access refresh, rw (a, b) refl)

  module _ (law : IsLawful d.gorm) where
    -- A step that is later than that of the row is consumed, if the statement does not fail.
    consume_totp_step-wins :
        (i : ℕ) (user : UserDbModel) (step : ℤ) (s : d.gorm.State)
        → i ≢ 0
        → account d.gorm i s ≡ some user
        → ltb_ℤ user.totp_last_step step ≡ true
        → HasKeys (d.gorm.rows s)
        → (IsFailed
              (d.gorm.update i
                (some (λ r. ltb_ℤ r.totp_last_step step))
                (λ r. record r { totp_last_step = step })
                s).0
            → ⊥)
        → (consume_totp_step d.gorm i step s).0 ≡ true
    unfolding consume_totp_step
    consume_totp_step-wins i user step s ne here later keys works =
        elim (changed_one-Swapped d.gorm law i (λ r. ltb_ℤ r.totp_last_step step)
          (λ r. record r { totp_last_step = step }) s (λ r. refl) ne keys) [
            | won u found hit yes' after others ↦ yes'
            | lost no' same (inl fails) ↦ absurd (works fails)
            | lost no' same (inr miss) ↦ cc (miss user here)
          ]

    abbrev pub Consumes : ℕ → d.gorm.State → Type 0
    Consumes i s =
        (step : ℤ)
        → IsFailed
            (d.gorm.update i (some (λ r. ltb_ℤ r.totp_last_step step))
              (λ r. record r { totp_last_step = step }) s).0
        → ⊥

    if_won-session :
        (now : ℕ) (user : UserDbModel) (w : World d) (r : Bool × d.gorm.State)
        → Signs now user
        → r.0 ≡ true
        → (t : VerifyInformation) × ((if_won d w
              (reply client_error two_fa_code_invalid)
              (issue_tokens d now user)
              r).0.body
            ≡ session t (record user { password = [] }))
    if_won-session now user w (true, s) signs yes' = issue_tokens-Signs now user signs
    if_won-session now user w (false, s) signs yes' = cc

    consume_checked-session :
        (now i : ℕ) (user : UserDbModel) (w : World d) (r : ℤ × Bool)
        → user.id ≡ i
        → i ≢ 0
        → account d.gorm i w.db ≡ some user
        → HasKeys (d.gorm.rows w.db)
        → Consumes i w.db
        → Signs now user
        → r.1 ≡ true
        → ltb_ℤ user.totp_last_step r.0 ≡ true
        → (t : VerifyInformation) × ((consume_checked d now user w r).0.body
            ≡ session t (record user { password = [] }))
    consume_checked-session now i user w (step, false) same ne here keys works signs valid later =
        cc
    consume_checked-session now i user w (step, true) same ne here keys works signs valid later =
        if_won-session now user w (consume_totp_step d.gorm user.id step w.db) signs
          (rw same (consume_totp_step-wins i user step w.db ne here later keys (works step)))

    verify_factor-session :
        (now i : ℕ) (json : Json) (user : UserDbModel) (w : World d) (step : ℤ)
        → user.id ≡ i
        → i ≢ 0
        → account d.gorm i w.db ≡ some user
        → HasKeys (d.gorm.rows w.db)
        → Consumes i w.db
        → Signs now user
        → is_empty (json "code") ≡ false
        → is_empty (json "recovery_code") ≡ true
        → IsFresh d.otp user.totp_secret (json "code") user.totp_last_step now step
        → (t : VerifyInformation) × ((verify_factor d now json user w).0.body
            ≡ session t (record user { password = [] }))
    unfolding verify_factor
    verify_factor-session now i json user w step same ne here keys works signs given alone fresh =
        let r = verify_totp d.otp user.totp_secret (json "code") user.totp_last_step now in
        let valid : r.1 ≡ true =
          verify_totp-accepts d.otp user.totp_secret (json "code") user.totp_last_step now step
            fresh in
        let found =
          verify_totp-IsFresh d.otp user.totp_secret (json "code") user.totp_last_step now r.0
            (ap (λ (b : Bool). (r.0, b)) valid) in
        rw (given, alone)
          (consume_checked-session now i user w r same ne here keys works signs valid found.later)

    allowed-session :
        (now i : ℕ) (json : Json) (user : UserDbModel) (r : Bool × World d) (s : d.gorm.State)
        (step : ℤ)
        → r.0 ≡ true
        → r.1.db ≡ s
        → user.id ≡ i
        → i ≢ 0
        → account d.gorm i s ≡ some user
        → HasKeys (d.gorm.rows s)
        → Consumes i s
        → Signs now user
        → is_empty (json "code") ≡ false
        → is_empty (json "recovery_code") ≡ true
        → IsFresh d.otp user.totp_secret (json "code") user.totp_last_step now step
        → (t : VerifyInformation) × ((if_allowed d r (verify_factor d now json user)).0.body
            ≡ session t (record user { password = [] }))
    allowed-session now i json user (false, w) s step yes' at_db same ne here keys works signs g a
          f =
        cc
    allowed-session now i json user (true, w) s step yes' at_db same ne here keys works signs g a
          f =
        verify_factor-session now i json user w step same ne
          (subst (λ x. account d.gorm i x ≡ some user) (sym at_db) here)
          (subst (λ x. HasKeys (d.gorm.rows x)) (sym at_db) keys)
          (subst (λ x. Consumes i x) (sym at_db) works) signs g a f

    verify_row-session :
        (now i : ℕ) (json : Json) (w : World d) (step : ℤ) (user : UserDbModel)
        → user ≡ get_user_all_info_by_id d.gorm (itoa i) w.db
        → user.id ≢ 0
        → user.totp_enabled ≡ true
        → (allow_user d i now w).0 ≡ true
        → HasKeys (d.gorm.rows w.db)
        → Consumes i w.db
        → Signs now user
        → is_empty (json "code") ≡ false
        → is_empty (json "recovery_code") ≡ true
        → IsFresh d.otp user.totp_secret (json "code") user.totp_last_step now step
        → (t : VerifyInformation) × ((verify_row d now json user w).0.body
            ≡ session t (record user { password = [] }))
    unfolding verify_row allow_user
    verify_row-session now i json w step user read known on budget keys works signs given alone
          fresh =
        let known' = subst (λ (u : UserDbModel). u.id ≢ 0) read known in
        let same : user.id ≡ i =
          ap (λ (u : UserDbModel). u.id) read
          ∙ get_user_all_info_by_id-id d.gorm law i w.db known' in
        let here : account d.gorm i w.db ≡ some user =
          get_user_all_info_by_id-account d.gorm law i w.db known' ∙ ap some (sym read) in
        let enabled : (user.id == 0 || not user.totp_enabled) ≡ false = ground arith in
        rw enabled (
          allowed-session now i json user (allow_user d user.id now w) w.db step (rw same budget)
            refl same (λ z. known (same ∙ z)) here keys works signs given alone fresh)

    -- A login for an account with a second factor, and then, before the pre-auth token that it
    -- handed out expires, a request with that token and a code that is fresh for the account as it
    -- is by then: the second request is answered by a session of that account, provided the account
    -- is there and enabled, its budget allows the attempt, and neither the signing of its tokens
    -- nor the statement that consumes the step fails.
    pub post_user_2fa_verify-completes :
        (now later : ℕ) (salt : Text) (login json : Json) (w w' : World d) (token : Text)
        (expires i : ℕ) (user : UserDbModel) (step : ℤ)
        → IsPair d.jwt d.pre_auth_priv d.pre_auth_pub
        → (post_user_login d now salt login w).0.body ≡ pre_auth token expires
        → now ≤ later
        → later < expires
        → i ≡ (get_user_all_info_by_name d.gorm (login "username") w.db).id
        → json "pre_auth_token" ≡ token
        → user ≡ get_user_all_info_by_id d.gorm (itoa i) w'.db
        → user.id ≢ 0
        → user.totp_enabled ≡ true
        → (allow_user d i later w').0 ≡ true
        → HasKeys (d.gorm.rows w'.db)
        → Consumes i w'.db
        → Signs later user
        → is_empty (json "code") ≡ false
        → is_empty (json "recovery_code") ≡ true
        → IsFresh d.otp user.totp_secret (json "code") user.totp_last_step later step
        → (t : VerifyInformation) × ((post_user_2fa_verify d later json w').0.body
            ≡ session t (record user { password = [] }))
    unfolding post_user_2fa_verify
    post_user_2fa_verify-completes now later salt login json w w' token expires i user step pair h
          after le named sent read known on budget keys works signs given alone fresh =
        let made =
          subst (λ n. PreAuth d now n token expires) (sym named)
            (post_user_login-PreAuth d law now salt login w token expires h) in
        let (claims, parsed, same) =
          parse_pre_auth_token-PreAuth now later i token expires pair made after le in
        rw (sent, parsed, same, sym read)
          (verify_row-session later i json w' step user read known on budget keys works signs given
            alone fresh)
