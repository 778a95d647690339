-- ===== src/Server/Tokens.antt =====
-- What the tokens that a sign-in hands out are good for at the gate.
use casa_os_user_service.Common.{
  ℕ, ◌+◌, ◌≤◌, ◌<◌, ◌≡◌, ◌⊎◌, ap, ◌∙◌, sym, true, false, ◌++◌, inl, inr,
}
use casa_os_user_service.Common.Text.{Text, bytes}
use casa_os_user_service.Common.Decimal.{itoa}
use casa_os_user_service.Users.Database
use casa_os_user_service.Users.Database.{UserDbModel}
use casa_os_user_service.Route.{
  Deps, World, Json, ok, Response, replied, VerifyInformation, session, pre_auth, access_life,
}
use casa_os_user_service.Route.Budget.{Session}
use casa_os_user_service.Route.Login.{post_user_login, pre_auth_ttl}
use casa_os_user_service.Route.Login.Session.{
  SignedIn, as_read, cleared, read_again, post_user_login-SignedIn,
}
use casa_os_user_service.Route.Login.PreAuthMade.{PreAuth, post_user_login-PreAuth}
use casa_os_user_service.Route.TwoFactor.{post_user_2fa_verify}
use casa_os_user_service.Route.TwoFactor.Verified.{post_user_2fa_verify-Verified}
use casa_os_user_service.Server.{
  Gate, login, verify_factor, is_open, Request, token_lookup, handle, serve, served,
}
use casa_os_user_service.Server.Guarded
use casa_os_user_service.Server.Guarded.{IsExternal, HasToken, unauthorized, serve-gated}

abbrev pub bearer : Text
bearer = bytes "Bearer "

module _ (d : Deps) where
  -- What is documented of the tokens of CasaOS-Common: the bearer scheme is read off; an access token
  -- is valid from its issue to strictly before its expiry, for the key that it was signed with, with its id; and a token
  -- that was signed with the key of the second step is not valid for the published key.
  pub record IsKeyed (gate : Gate d) : Type 0 where
    pub token-bearer : (token : Text) → gate.token_from_authorization (bearer ++ token) ≡ token
    pub access-validate :
        (name : Text) (id issued now : ℕ) (token : Text)
        → d.jwt.get_access_token name d.private_key id issued ≡ ok token
        → issued ≤ now
        → now < issued + access_life d
        → (claims : d.jwt.Claims) × (gate.validate token d.public_key now ≡ ok (true, claims))
          × (d.jwt.id claims ≡ id)
    pub other_key-validate :
        (name : Text) (id life issued now : ℕ) (issuer token : Text) (claims : d.jwt.Claims)
        → d.jwt.generate_token name d.pre_auth_priv id issuer life issued ≡ ok token
        → gate.validate token d.public_key now ≡ ok (true, claims)
        → ⊥

  module _ (gate : Gate d) (law : Guarded.IsLawful d gate) (keys : IsKeyed gate) where
    -- A request from outside, for a route behind the gate, with this token.
    pub record Bears (r : Request) (token : Text) : Type 0 where
      pub gated : is_open r.endpoint ≡ false
      pub outside : IsExternal d gate law r
      pub authorization : r.authorization ≡ bearer ++ token

    token_lookup-Bears :
        (r : Request) (token : Text) → Bears r token → token_lookup d gate r ≡ token
    unfolding token_lookup
    token_lookup-Bears r token b = rw b.authorization (keys.token-bearer token)

    admitted-id :
        (r : Request) (name token : Text) (i issued : ℕ) (claims : d.jwt.Claims)
        → Bears r token
        → d.jwt.get_access_token name d.private_key i issued ≡ ok token
        → issued ≤ r.now
        → r.now < issued + access_life d
        → HasToken d gate law r claims
        → d.jwt.id claims ≡ i
    admitted-id r name token i issued claims b made issue alive h =
        let (valid, e, same) = keys.access-validate name i issued r.now token made issue alive in
        let e' = rw (token_lookup-Bears r token b) at h in ap d.jwt.id (cc (e, e')) ∙ same

    bearing-HasToken :
        (r : Request) (name token : Text) (i issued : ℕ)
        → Bears r token
        → d.jwt.get_access_token name d.private_key i issued ≡ ok token
        → issued ≤ r.now
        → r.now < issued + access_life d
        → (claims : d.jwt.Claims) × HasToken d gate law r claims
    bearing-HasToken r name token i issued b made issue alive =
        let (claims, e, same) = keys.access-validate name i issued r.now token made issue alive in
        (claims, rw (token_lookup-Bears r token b) e)

    pub Session-serve :
        (now : ℕ) (user u : UserDbModel) (t : VerifyInformation) (r : Request) (w : World d)
        → Session d now user t u
        → Bears r t.access_token
        → now ≤ r.now
        → r.now < t.expires_at
        → serve d gate r w ≡ handle d gate r r.endpoint (itoa u.id) w
    Session-serve now user u t r w s b issue alive =
        let living : (r.now < now + access_life d) = rw (s.expiry) at alive in
        elim (serve-gated d gate law r w b.gated b.outside) [
          | inl (no_token, why, refused) ↦
              let (claims, h) =
                bearing-HasToken r user.username t.access_token user.id now b s.access issue
                  living in
              absurd (no_token claims h)
          | inr (claims, h, e) ↦
              let same =
                admitted-id r user.username t.access_token user.id now claims b s.access issue
                  living h in
              e
              ∙ ap (λ i. handle d gate r r.endpoint (itoa i) w)
                  (same ∙ sym (ap (λ (x : UserDbModel). x.id) s.bare))
        ]

    PreAuth-serve :
        (now i : ℕ) (token : Text) (expires : ℕ) (r : Request) (w : World d)
        → PreAuth d now i token expires
        → Bears r token
        → (why : Text) × (serve d gate r w ≡ replied (unauthorized d why) w)
    PreAuth-serve now i token expires r w p b =
        elim (serve-gated d gate law r w b.gated b.outside) [
          | inl (no_token, why, refused) ↦ (why, refused)
          | inr (claims, h, e) ↦ absurd (
              keys.other_key-validate p.name i pre_auth_ttl now r.now (bytes "2fa") token claims
                p.made (rw (token_lookup-Bears r token b) at h))
        ]

    SignedIn-Session :
        (now : ℕ) (user : UserDbModel) (s : d.gorm.State) (t : VerifyInformation) (u : UserDbModel)
        → SignedIn d now user s t u
        → (v : UserDbModel) × Session d now v t u
    SignedIn-Session now user s t u (as_read off clean made) = (user, made)
    SignedIn-Session now user s t u (cleared off won made) = (user, made)
    SignedIn-Session now user s t u (read_again again lost e there off made) = (again, made)

    served-replied :
        (o : Response × World d) (answer : Response) (w : World d)
        → served d gate o ≡ replied answer w
        → o.0 ≡ answer
    served-replied (a, w1) answer w h = cc

    login-replied :
        (r : Request) (json : Json) (w w1 : World d) (answer : Response)
        → r.endpoint ≡ login json
        → serve d gate r w ≡ replied answer w1
        → (post_user_login d r.now r.salt json w).0 ≡ answer
    unfolding serve is_open handle
    login-replied r json w w1 answer e h = served-replied _ answer w1 (rw e at h)

    verify_factor-replied :
        (r : Request) (json : Json) (w w1 : World d) (answer : Response)
        → r.endpoint ≡ verify_factor json
        → serve d gate r w ≡ replied answer w1
        → (post_user_2fa_verify d r.now json w).0 ≡ answer
    unfolding serve is_open handle
    verify_factor-replied r json w w1 answer e h = served-replied _ answer w1 (rw e at h)

    pub sign_in-Session :
        (r : Request) (json : Json) (w w1 : World d) (answer : Response) (t : VerifyInformation)
        (u : UserDbModel)
        → (r.endpoint ≡ login json) ⊎ (r.endpoint ≡ verify_factor json)
        → serve d gate r w ≡ replied answer w1
        → answer.body ≡ session t u
        → (v : UserDbModel) × Session d r.now v t u
    sign_in-Session r json w w1 answer t u (inl e) h k =
        let same = ap (λ (a : Response). a.body) (login-replied r json w w1 answer e h) in
        let (allowed, found, matched, signed) =
          post_user_login-SignedIn d r.now r.salt json w t u (same ∙ k) in
        SignedIn-Session r.now _ _ t u signed
    sign_in-Session r json w w1 answer t u (inr e) h k =
        let same = ap (λ (a : Response). a.body) (verify_factor-replied r json w w1 answer e h) in
        let (claims, parsed, issuer, unexpired, v) =
          post_user_2fa_verify-Verified d r.now json w t u (same ∙ k) in
        (_, v.made)

    -- The access token of a session, whether a login or its second step was answered by it, is good
    -- before the session expires: any later request from outside that bears it, for a route behind the
    -- gate, is handled under the id of the user of that session, whatever happened in between.
    pub sign_in-admitted :
        (r : Request) (json : Json) (w w1 : World d) (answer : Response) (t : VerifyInformation)
        (u : UserDbModel)
        → (r.endpoint ≡ login json) ⊎ (r.endpoint ≡ verify_factor json)
        → serve d gate r w ≡ replied answer w1
        → answer.body ≡ session t u
        → (later : Request) (w' : World d) → Bears later t.access_token
        → r.now ≤ later.now
        → later.now < t.expires_at
        → serve d gate later w' ≡ handle d gate later later.endpoint (itoa u.id) w'
    sign_in-admitted r json w w1 answer t u e h k later w' b issue alive =
        let (v, s) = sign_in-Session r json w w1 answer t u e h k in
        Session-serve r.now v u t later w' s b issue alive

    -- The token that a login hands out for the second step is no session: a request from outside
    -- that bears it, for a route behind the gate, is answered by 401 and changes nothing, at any
    -- time.
    pub pre_auth-refused :
        (g : Database.IsLawful d.gorm) (r : Request) (json : Json) (w w1 : World d)
        (answer : Response) (token : Text) (expires : ℕ)
        → r.endpoint ≡ login json
        → serve d gate r w ≡ replied answer w1
        → answer.body ≡ pre_auth token expires
        → (later : Request) (w' : World d) → Bears later token
        → (why : Text) × (serve d gate later w' ≡ replied (unauthorized d why) w')
    pre_auth-refused g r json w w1 answer token expires e h k later w' b =
        let same = ap (λ (a : Response). a.body) (login-replied r json w w1 answer e h) in
        PreAuth-serve r.now _ token expires later w'
          (post_user_login-PreAuth d g r.now r.salt json w token expires (same ∙ k)) b
