-- ===== src/Server/Replies/Sent.antt =====
-- Every reply of the server has its shape.
use casa_os_user_service.Common.{◌≡◌, refl, subst, []}
use casa_os_user_service.Common.Text.{Text}
use casa_os_user_service.Route.{Deps, World, Response, replied}
use casa_os_user_service.Server.{
  Admission, skipped, admitted, refused, Gate, Endpoint, register, login, verify_factor,
  refresh_tokens, all_names, status, image_of, current, avatar_of, delete_everyone, change_info,
  change_password, setup_factor, enable_factor, disable_factor, change_avatar, conf, delete_conf,
  delete_image, delete_one, by_username, store_conf, upload_image, change_image, change_style,
  is_open, Request, admission, behind_gate, handle, serve, served,
}
use casa_os_user_service.Server.Replies.{IsFit, Fits, ServedFit, Sends, if-Sends, replies}
use casa_os_user_service.Server.Replies.Sessions.{post_user_login-Fits}
use casa_os_user_service.Server.Replies.Factors.{
  post_user_2fa_verify-Fits, post_user_2fa_setup-Fits, post_user_2fa_enable-Fits,
  post_user_2fa_disable-Fits,
}
use casa_os_user_service.Server.Replies.Accounts.{
  post_user_register-Fits, get_user_status-Fits, put_user_password-Fits, get_user_info-IsFit,
  get_user_info_by_username-IsFit, get_user_all_username-IsFit, delete_user-Fits,
  delete_user_all-Fits, post_user_refresh_token-IsFit, put_user_info-Fits,
}
use casa_os_user_service.Server.Replies.Files.{
  get_user_avatar-IsFit, delete_user_image-Fits, delete_user_custom_conf-Fits,
  put_user_avatar-Sends, put_user_image-Sends, post_user_upload_image-Fits, get_user_image-IsFit,
  get_user_custom_conf-IsFit, post_user_custom_conf-Sends, put_login_style-Fits,
}

-- The password that a request sends for a profile.
abbrev pub sent_by : Endpoint → Text
sent_by (change_info json) = json.password
sent_by _ = []

module _ (d : Deps) (gate : Gate d) where
  served-Sends :
      (sent : Text) (r : Response × World d) → Fits d sent r → Sends d sent (served d gate r)
  served-Sends sent (a, w) h = record { sends = h.fits }

  handle-Sends :
      (r : Request) (e : Endpoint) (id : Text) (w : World d)
      → Sends d (sent_by e) (handle d gate r e id w)
  unfolding handle
  handle-Sends r (register json) id w =
      served-Sends [] _ (post_user_register-Fits d [] r.salt json w)
  handle-Sends r (login json) id w =
      served-Sends [] _ (post_user_login-Fits d [] r.now r.salt json w)
  handle-Sends r (verify_factor json) id w =
      served-Sends [] _ (post_user_2fa_verify-Fits d [] r.now json w)
  handle-Sends r (refresh_tokens json) id w =
      replies d [] _ w (post_user_refresh_token-IsFit d [] r.now json)
  handle-Sends r all_names id w = replies d [] _ w (get_user_all_username-IsFit d [] w)
  handle-Sends r status id w = served-Sends [] _ (get_user_status-Fits d [] r.uuid r.gpus w)
  handle-Sends r (image_of path) id w = replies d [] _ w (get_user_image-IsFit d [] path w)
  handle-Sends r current id w = replies d [] _ w (get_user_info-IsFit d [] id w refl)
  handle-Sends r avatar_of id w = replies d [] _ w (get_user_avatar-IsFit d [] id w)
  handle-Sends r delete_everyone id w = served-Sends [] _ (delete_user_all-Fits d [] w)
  handle-Sends r (change_info json) id w =
      served-Sends json.password _ (put_user_info-Fits d id json w)
  handle-Sends r (change_password json) id w =
      served-Sends [] _ (put_user_password-Fits d [] r.salt id json w refl)
  handle-Sends r (setup_factor json) id w =
      served-Sends [] _ (post_user_2fa_setup-Fits d [] r.now r.totp_key id json w)
  handle-Sends r (enable_factor json) id w =
      served-Sends [] _ (post_user_2fa_enable-Fits d [] r.now r.draws r.draw_error id json w)
  handle-Sends r (disable_factor json) id w =
      served-Sends [] _ (post_user_2fa_disable-Fits d [] r.now id json w)
  handle-Sends r (change_avatar json) id w = put_user_avatar-Sends d [] id json w refl
  handle-Sends r (conf name) id w = replies d [] _ w (get_user_custom_conf-IsFit d [] id name w)
  handle-Sends r (delete_conf name) id w =
      served-Sends [] _ (delete_user_custom_conf-Fits d [] id name w)
  handle-Sends r (delete_image path) id w =
      served-Sends [] _ (delete_user_image-Fits d [] id path w)
  handle-Sends r (delete_one which) id w = served-Sends [] _ (delete_user-Fits d [] which w)
  handle-Sends r (by_username name) id w =
      replies d [] _ w (get_user_info_by_username-IsFit d [] name w refl)
  handle-Sends r (store_conf name t) id w = post_user_custom_conf-Sends d [] id name t w
  handle-Sends r (upload_image key kind form) id w =
      served-Sends [] _ (post_user_upload_image-Fits d [] id key kind form w)
  handle-Sends r (change_image key json) id w = put_user_image-Sends d [] id key json w
  handle-Sends r (change_style style) id w = served-Sends [] _ (put_login_style-Fits d [] style w)

  behind_gate-Sends :
      (r : Request) (w : World d) (a : Admission d.jwt.Claims)
      → Sends d
          (sent_by r.endpoint)
          (behind_gate d gate r w a (λ id. handle d gate r r.endpoint id w))
  behind_gate-Sends r w skipped = handle-Sends r r.endpoint r.user_id w
  behind_gate-Sends r w (admitted claims) = handle-Sends r r.endpoint _ w
  behind_gate-Sends r w (refused code why) = record { sends = record { status = refl; body = tt } }

  serve-Sends : (r : Request) (w : World d) → Sends d (sent_by r.endpoint) (serve d gate r w)
  unfolding serve
  serve-Sends r w =
      if-Sends d (sent_by r.endpoint) (is_open r.endpoint) _ _
        (handle-Sends r r.endpoint r.user_id w) (behind_gate-Sends r w (admission d gate r))

  -- Every reply of the server, whatever the request and the world, has a shape: a success has the
  -- status of one; a session, tokens, an enrolment, recovery codes, a status, names, files and a
  -- configuration come with a success only, and a token for the second step only with the code that
  -- asks for it; a session has no password or hash of one in its user, and neither has any other
  -- account, but that the profile that a request changes comes back with the password that the
  -- request itself sent.
  pub serve-IsFit :
      (r : Request) (w w' : World d) (a : Response)
      → serve d gate r w ≡ replied a w'
      → IsFit (sent_by r.endpoint) a
  serve-IsFit r w w' a h = subst (ServedFit d (sent_by r.endpoint)) h (serve-Sends r w).sends
