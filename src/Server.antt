-- ===== src/Server.antt =====
-- The router of route/v1.go: which handler answers a request, behind which gate.
--
-- The JWT middleware of echo, `IsInternalRequest`, `TokenFromAuthorization` and `jwt.Validate` are
-- not of this repository and are fields of `Gate`. A request has been matched with its route, the
-- parameters of the path included: an `Endpoint` for each that `InitRouter` registers. What CORS,
-- gzip and the access log add to a reply is left out.
pub mod Guarded
pub mod Outsiders
pub mod Second
pub mod Tokens
pub mod Replies
pub mod Reached
use casa_os_user_service.Common.{
  ℕ, Bool, true, false, Option, none, some, List, [], ◌∷◌, if◌then◌else◌,
}
use casa_os_user_service.Common.Text.{Text, is_empty}
use casa_os_user_service.Common.Decimal.{itoa}
use casa_os_user_service.Totp.{Draw}
use casa_os_user_service.Route.{
  Deps, World, Json, Result, ok, err, Response, Served, replied, exited, panicked, http, text,
  nothing,
}
use casa_os_user_service.Route.Login.{post_user_login}
use casa_os_user_service.Route.TwoFactor.{
  post_user_2fa_verify, post_user_2fa_setup, post_user_2fa_enable, post_user_2fa_disable,
}
use casa_os_user_service.Route.Register.{post_user_register, get_user_status}
use casa_os_user_service.Route.Account.{
  UserJson, put_user_info, put_user_password, get_user_info, get_user_info_by_username,
  get_user_all_username, delete_user, delete_user_all,
}
use casa_os_user_service.Route.Refresh.{post_user_refresh_token}
use casa_os_user_service.Route.LoginStyle.{put_login_style}
use casa_os_user_service.Route.UserFiles.{
  get_user_avatar, delete_user_image, delete_user_custom_conf,
}
use casa_os_user_service.Route.Images.{
  put_user_avatar, put_user_image, post_user_upload_image, get_user_image,
}
use casa_os_user_service.Route.CustomConf.{get_user_custom_conf, post_user_custom_conf}

-- What the JWT middleware makes of a request: it is let through unseen, let through with the
-- claims of its token, or answered with a status and a message.
pub data Admission (C : Type 0) : Type 0 where
  skipped : Admission C
  admitted : C → Admission C
  refused : ℕ → Text → Admission C

pub record Gate (d : Deps) : Type 0 where
  -- The address and the Authorization header, with the secret in the runtime directory.
  pub is_internal_request : Text → Text → Bool
  pub token_from_authorization : Text → Text
  pub validate : Text → d.jwt.PublicKey → ℕ → Result (Bool × d.jwt.Claims)
  -- What the skipper said, the tokens that were looked up, and ParseTokenFunc.
  pub jwt_middleware : Bool → List Text → (Text → Option d.jwt.Claims) → Admission d.jwt.Claims

-- The routes of `InitRouter`, with the parameters and the body that their handlers read.
pub data Endpoint : Type 0 where
  -- open to all
  register login verify_factor refresh_tokens : Json → Endpoint
  all_names status : Endpoint
  image_of : Text → Endpoint
  -- behind the gate
  current avatar_of delete_everyone : Endpoint
  change_info : UserJson → Endpoint
  change_password setup_factor enable_factor disable_factor change_avatar : Json → Endpoint
  conf delete_conf delete_image delete_one by_username : Text → Endpoint
  store_conf : Text → Text → Endpoint
  -- key, type, file of the form
  upload_image : Text → Text → Result (Text × Result Text) → Endpoint
  change_image : Text → Json → Endpoint
  change_style : Result Text → Endpoint

unfoldable pub is_open : Endpoint → Bool
is_open (register json) = true
is_open (login json) = true
is_open (verify_factor json) = true
is_open (refresh_tokens json) = true
is_open all_names = true
is_open status = true
is_open (image_of path) = true
is_open _ = false

pub record Request : Type 0 where
  pub endpoint : Endpoint
  pub real_ip : Text
  pub authorization : Text
  pub token_param : Text
  -- the header that the handlers read, as the client sent it
  pub user_id : Text
  pub now : ℕ
  -- what is drawn at random while it is handled
  pub salt : Text
  pub draws : List Draw
  pub draw_error : Text
  pub totp_key : Text → Result (Text × Text)
  pub uuid : Text
  -- the graphics cards that were found
  pub gpus : ℕ

module _ (d : Deps) (gate : Gate d) where
  abbrev pub parsed : Result (Bool × d.jwt.Claims) → Option d.jwt.Claims
  parsed (err e) = none
  parsed (ok (false, claims)) = none
  parsed (ok (true, claims)) = some claims

  unfoldable pub parse_token_func : ℕ → Text → Option d.jwt.Claims
  parse_token_func now token = parsed (gate.validate token d.public_key now)

  unfoldable pub token_lookup : Request → Text
  token_lookup r =
      if is_empty r.authorization
      then r.token_param
      else gate.token_from_authorization r.authorization

  unfoldable pub admission : Request → Admission d.jwt.Claims
  admission r =
      gate.jwt_middleware (gate.is_internal_request r.real_ip r.authorization) (token_lookup r ∷ [])
        (parse_token_func r.now)

  -- The id of the claims takes the place of the header.
  abbrev pub behind_gate : Request → World d → Admission d.jwt.Claims → (Text → Served d) → Served d
  behind_gate r w skipped k = k r.user_id
  behind_gate r w (admitted claims) k = k (itoa (d.jwt.id claims))
  behind_gate r w (refused code why) k =
      replied
        (record { status = http code; success = http code; message = text why; body = nothing }) w

  abbrev pub served : Response × World d → Served d
  served (answer, w) = replied answer w

  -- The handler of each route, with the id that it reads from the header.
  unfoldable pub handle : Request → Endpoint → Text → World d → Served d
  handle r (register json) id w = served (post_user_register d r.salt json w)
  handle r (login json) id w = served (post_user_login d r.now r.salt json w)
  handle r (verify_factor json) id w = served (post_user_2fa_verify d r.now json w)
  handle r (refresh_tokens json) id w = replied (post_user_refresh_token d r.now json) w
  handle r all_names id w = replied (get_user_all_username d w) w
  handle r status id w = served (get_user_status d r.uuid r.gpus w)
  handle r (image_of path) id w = replied (get_user_image d path w) w
  handle r current id w = replied (get_user_info d id w) w
  handle r avatar_of id w = replied (get_user_avatar d id w) w
  handle r delete_everyone id w = served (delete_user_all d w)
  handle r (change_info json) id w = served (put_user_info d id json w)
  handle r (change_password json) id w = served (put_user_password d r.salt id json w)
  handle r (setup_factor json) id w = served (post_user_2fa_setup d r.now r.totp_key id json w)
  handle r (enable_factor json) id w =
      served (post_user_2fa_enable d r.now r.draws r.draw_error id json w)
  handle r (disable_factor json) id w = served (post_user_2fa_disable d r.now id json w)
  handle r (change_avatar json) id w = put_user_avatar d id json w
  handle r (conf name) id w = replied (get_user_custom_conf d id name w) w
  handle r (delete_conf name) id w = served (delete_user_custom_conf d id name w)
  handle r (delete_image path) id w = served (delete_user_image d id path w)
  handle r (delete_one which) id w = served (delete_user d which w)
  handle r (by_username name) id w = replied (get_user_info_by_username d name w) w
  handle r (store_conf name t) id w = post_user_custom_conf d id name t w
  handle r (upload_image key kind form) id w = served (post_user_upload_image d id key kind form w)
  handle r (change_image key json) id w = put_user_image d id key json w
  handle r (change_style style) id w = served (put_login_style d style w)

  unfoldable pub serve : Request → World d → Served d
  serve r w =
      if is_open r.endpoint
      then handle r r.endpoint r.user_id w
      else behind_gate r w (admission r) (λ id. handle r r.endpoint id w)

  -- The world that a request leaves to the next one, or none if the process ended. A panic is
  -- recovered by the server of net/http.
  abbrev pub left : Served d → Option (World d)
  left (replied answer w) = some w
  left (exited w) = none
  left (panicked w) = some w

  abbrev pub next_served : Option (World d) → (World d → Option (World d)) → Option (World d)
  next_served none k = none
  next_served (some w) k = k w

  unfoldable pub serve_all : List Request → World d → Option (World d)
  serve_all [] w = some w
  serve_all (r ∷ rs) w = next_served (left (serve r w)) (serve_all rs)
