-- ===== src/Server/Guarded.antt =====
-- What the gate in front of the handlers promises.
use casa_os_user_service.Common.{
  ◌≡◌, ◌⊎◌, refl, ◌∙◌, Bool, true, false, Option, none, some, List, [], ◌∷◌, Bool-cases,
  Option-cases, inl, inr,
}
use casa_os_user_service.Common.Text.{Text}
use casa_os_user_service.Common.Decimal.{itoa}
use casa_os_user_service.Route.{
  Deps, World, Result, ok, err, Response, replied, http, text, nothing,
}
use casa_os_user_service.Server.{
  skipped, admitted, refused, Gate, Endpoint, register, login, verify_factor, refresh_tokens,
  all_names, status, image_of, current, avatar_of, delete_everyone, change_info, change_password,
  setup_factor, enable_factor, disable_factor, change_avatar, conf, delete_conf, delete_image,
  delete_one, by_username, store_conf, upload_image, change_image, change_style, is_open, Request,
  parsed, parse_token_func, token_lookup, admission, behind_gate, handle, serve,
}

module _ (d : Deps) where
  -- What is documented of echo's JWT middleware: a skipped request passes, a token that ParseTokenFunc
  -- takes is let through with what it gave, and a token that it does not take is answered by 401.
  pub record IsLawful (gate : Gate d) : Type 0 where
    pub middleware-skips :
        (tokens : List Text) (parse : Text → Option d.jwt.Claims)
        → gate.jwt_middleware true tokens parse ≡ skipped
    pub middleware-admits :
        (token : Text) (parse : Text → Option d.jwt.Claims) (claims : d.jwt.Claims)
        → parse token ≡ some claims
        → gate.jwt_middleware false (token ∷ []) parse ≡ admitted claims
    pub middleware-refuses :
        (token : Text) (parse : Text → Option d.jwt.Claims)
        → parse token ≡ none
        → (why : Text) × (gate.jwt_middleware false (token ∷ []) parse ≡ refused 401 why)

  abbrev pub unauthorized : Text → Response
  unauthorized why = record {
    status = http 401;
    success = http 401;
    message = text why;
    body = nothing;
  }

  module _ (gate : Gate d) (law : IsLawful gate) where
    abbrev pub IsExternal : Request → Type 0
    IsExternal r = gate.is_internal_request r.real_ip r.authorization ≡ false

    abbrev pub claims_of : Request → Option d.jwt.Claims
    claims_of r = parse_token_func d gate r.now (token_lookup d gate r)

    admission-none :
        (r : Request)
        → IsExternal r
        → claims_of r ≡ none
        → (why : Text) × (admission d gate r ≡ refused 401 why)
    unfolding admission
    admission-none r out e =
        let (why, h) =
          law.middleware-refuses (token_lookup d gate r) (parse_token_func d gate r.now) e in
        (why, rw (admission, out) h)

    admission-some :
        (r : Request) (claims : d.jwt.Claims)
        → IsExternal r
        → claims_of r ≡ some claims
        → admission d gate r ≡ admitted claims
    unfolding admission
    admission-some r claims out e =
        rw (admission, out)
          (law.middleware-admits (token_lookup d gate r) (parse_token_func d gate r.now) claims e)

    pub serve-unauthorized :
        (r : Request) (w : World d)
        → is_open r.endpoint ≡ false
        → IsExternal r
        → claims_of r ≡ none
        → (why : Text) × (serve d gate r w ≡ replied (unauthorized why) w)
    unfolding serve
    serve-unauthorized r w closed out e =
        let (why, h) = admission-none r out e in (why, rw (closed, h) refl)

    -- The token of the request is valid, with these claims.
    abbrev pub HasToken : Request → d.jwt.Claims → Type 0
    HasToken r claims = gate.validate (token_lookup d gate r) d.public_key r.now ≡ ok (true, claims)

    parsed-none :
        (o : Result (Bool × d.jwt.Claims)) (claims : d.jwt.Claims)
        → o ≡ ok (true, claims)
        → parsed d gate o ≡ none
        → ⊥
    parsed-none (err e) claims h k = cc
    parsed-none (ok (false, c)) claims h k = cc
    parsed-none (ok (true, c)) claims h k = cc

    parsed-some :
        (o : Result (Bool × d.jwt.Claims)) (claims : d.jwt.Claims)
        → parsed d gate o ≡ some claims
        → o ≡ ok (true, claims)
    parsed-some (err e) claims k = cc
    parsed-some (ok (false, c)) claims k = cc
    parsed-some (ok (true, c)) claims k = cc

    claims_of-none :
        (r : Request) → claims_of r ≡ none → (claims : d.jwt.Claims) → HasToken r claims → ⊥
    unfolding parse_token_func
    claims_of-none r e claims h = parsed-none _ claims h e

    claims_of-some :
        (r : Request) (claims : d.jwt.Claims) → claims_of r ≡ some claims → HasToken r claims
    unfolding parse_token_func
    claims_of-some r claims e = parsed-some _ claims e

    pub no_token :
        (r : Request) → ((claims : d.jwt.Claims) → HasToken r claims → ⊥) → claims_of r ≡ none
    no_token r h = elim (Option-cases (claims_of r)) [
      | inl e ↦ e
      | inr (claims, e) ↦ absurd (h claims (claims_of-some r claims e))
    ]

    -- A request from outside for a route behind the gate has no valid token, is answered by 401 and
    -- changes nothing, or has a valid token and is handled under the id of that token.
    pub serve-gated :
        (r : Request) (w : World d)
        → is_open r.endpoint ≡ false
        → IsExternal r
        → (((claims : d.jwt.Claims) → HasToken r claims → ⊥)
            × (why : Text) × (serve d gate r w ≡ replied (unauthorized why) w))
          ⊎ ((claims : d.jwt.Claims) × HasToken r claims
              × (serve d gate r w ≡ handle d gate r r.endpoint (itoa (d.jwt.id claims)) w))
    unfolding serve
    serve-gated r w closed out = elim (Option-cases (claims_of r)) [
      | inl e ↦
          let (why, h) = serve-unauthorized r w closed out e in inl (claims_of-none r e, why, h)
      | inr (claims, e) ↦
          inr (claims, claims_of-some r claims e, rw (closed, admission-some r claims out e) refl)
    ]

    -- No handler reads the header by itself.
    handle-user_id :
        (r : Request) (e : Endpoint) (a id : Text) (w : World d)
        → handle d gate (record r { user_id = a }) e id w ≡ handle d gate r e id w
    unfolding handle
    handle-user_id r (register json) a id w = refl
    handle-user_id r (login json) a id w = refl
    handle-user_id r (verify_factor json) a id w = refl
    handle-user_id r (refresh_tokens json) a id w = refl
    handle-user_id r all_names a id w = refl
    handle-user_id r status a id w = refl
    handle-user_id r (image_of path) a id w = refl
    handle-user_id r current a id w = refl
    handle-user_id r avatar_of a id w = refl
    handle-user_id r delete_everyone a id w = refl
    handle-user_id r (change_info json) a id w = refl
    handle-user_id r (change_password json) a id w = refl
    handle-user_id r (setup_factor json) a id w = refl
    handle-user_id r (enable_factor json) a id w = refl
    handle-user_id r (disable_factor json) a id w = refl
    handle-user_id r (change_avatar json) a id w = refl
    handle-user_id r (conf name) a id w = refl
    handle-user_id r (delete_conf name) a id w = refl
    handle-user_id r (delete_image path) a id w = refl
    handle-user_id r (delete_one which) a id w = refl
    handle-user_id r (by_username name) a id w = refl
    handle-user_id r (store_conf name t) a id w = refl
    handle-user_id r (upload_image key kind form) a id w = refl
    handle-user_id r (change_image key json) a id w = refl
    handle-user_id r (change_style style) a id w = refl

    -- The handlers of the open routes do not read it at all.
    handle-open :
        (r : Request) (e : Endpoint) (a b : Text) (w : World d)
        → is_open e ≡ true
        → handle d gate r e a w ≡ handle d gate r e b w
    unfolding handle is_open
    handle-open r (register json) a b w h = refl
    handle-open r (login json) a b w h = refl
    handle-open r (verify_factor json) a b w h = refl
    handle-open r (refresh_tokens json) a b w h = refl
    handle-open r all_names a b w h = refl
    handle-open r status a b w h = refl
    handle-open r (image_of path) a b w h = refl
    handle-open r current a b w h = cc
    handle-open r avatar_of a b w h = cc
    handle-open r delete_everyone a b w h = cc
    handle-open r (change_info json) a b w h = cc
    handle-open r (change_password json) a b w h = cc
    handle-open r (setup_factor json) a b w h = cc
    handle-open r (enable_factor json) a b w h = cc
    handle-open r (disable_factor json) a b w h = cc
    handle-open r (change_avatar json) a b w h = cc
    handle-open r (conf name) a b w h = cc
    handle-open r (delete_conf name) a b w h = cc
    handle-open r (delete_image path) a b w h = cc
    handle-open r (delete_one which) a b w h = cc
    handle-open r (by_username name) a b w h = cc
    handle-open r (store_conf name t) a b w h = cc
    handle-open r (upload_image key kind form) a b w h = cc
    handle-open r (change_image key json) a b w h = cc
    handle-open r (change_style style) a b w h = cc

    behind_gate-user_id :
        (r : Request) (a : Text) (w : World d) (o : Option d.jwt.Claims)
        → IsExternal r
        → claims_of r ≡ o
        → behind_gate d gate
            (record r { user_id = a })
            w
            (admission d gate r)
            (λ id. handle d gate (record r { user_id = a }) r.endpoint id w)
          ≡ behind_gate d gate r w (admission d gate r) (λ id. handle d gate r r.endpoint id w)
    behind_gate-user_id r a w none out e = let (why, h) = admission-none r out e in rw h refl
    behind_gate-user_id r a w (some claims) out e =
        rw (admission-some r claims out e)
          (handle-user_id r r.endpoint a (itoa (d.jwt.id claims)) w)

    -- What a request from outside does, does not depend on the user_id header that it was sent with.
    pub serve-user_id :
        (r : Request) (a : Text) (w : World d)
        → IsExternal r
        → serve d gate (record r { user_id = a }) w ≡ serve d gate r w
    unfolding serve admission token_lookup
    serve-user_id r a w out = elim (Bool-cases (is_open r.endpoint)) [
      | inl free ↦
          rw free (handle-user_id r r.endpoint a a w ∙ handle-open r r.endpoint a r.user_id w free)
      | inr closed ↦ rw closed (behind_gate-user_id r a w (claims_of r) out refl)
    ]
