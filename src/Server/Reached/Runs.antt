-- ===== src/Server/Reached/Runs.antt =====
-- Any sequence of requests reaches the table by statements, which keep the ids of the accounts
-- distinct.
use casa_os_user_service.Common.{◌≡◌, refl, subst, Option, none, some, List, [], ◌∷◌, ◌==◌, All}
use casa_os_user_service.Common.Text.{Text, bytes, text_eq, is_empty}
use casa_os_user_service.Common.Decimal.{itoa}
use casa_os_user_service.Disk.{is_not_exist_mk_dir, write_to_path}
use casa_os_user_service.Users.Database.{IsLawful}
use casa_os_user_service.Users.Table.{HasKeys}
use casa_os_user_service.Users.Statements.{Statement, perform, run, IsAnonymous, perform-HasKeys}
use casa_os_user_service.Users.{get_user_info_by_id}
use casa_os_user_service.Route.{
  Deps, World, Response, Result, ok, err, Published, unreachable, answered, Served, replied, exited,
  panicked, user_dir,
}
use casa_os_user_service.Route.CustomConf.{
  conf_file, conf_published, conf_written, conf_dir_made, post_user_custom_conf,
}
use casa_os_user_service.Server.{
  Admission, skipped, admitted, refused, Gate, Endpoint, register, login, verify_factor,
  refresh_tokens, all_names, status, image_of, current, avatar_of, delete_everyone, change_info,
  change_password, setup_factor, enable_factor, disable_factor, change_avatar, conf, delete_conf,
  delete_image, delete_one, by_username, store_conf, upload_image, change_image, change_style,
  is_open, Request, admission, behind_gate, handle, serve, left, next_served, serve_all, served,
}
use casa_os_user_service.Server.Reached.{Reaches, stays, then-Reaches, Acts}
use casa_os_user_service.Server.Reached.Factors.{
  post_user_2fa_verify-Acts, post_user_2fa_setup-Acts, post_user_2fa_enable-Acts,
  post_user_2fa_disable-Acts,
}
use casa_os_user_service.Server.Reached.Handlers.{
  post_user_register-Acts, get_user_status-Acts, post_user_login-Acts, put_user_info-Acts,
  put_user_password-Acts, delete_user-Acts, delete_user_all-Acts,
}
use casa_os_user_service.Server.Reached.Requests.{
  Ends, if-Ends, unchanged, put_login_style-Acts, delete_user_image-Acts,
  delete_user_custom_conf-Acts, post_user_upload_image-Acts, put_user_avatar-Ends,
  put_user_image-Ends,
}

module _ (d : Deps) where
  conf_published-Ends :
      (t : Text) (w : World d) (f : d.fs.Files) (p : Published)
      → Ends d w.db (conf_published d t (record w { files = f }) p)
  conf_published-Ends t w f unreachable = record { ends = stays d w.db }
  conf_published-Ends t w f (answered code) = record { ends = stays d w.db }

  conf_written-Ends :
      (name t : Text) (w : World d) (r : Result (Unit {0}) × d.fs.Files)
      → Ends d w.db (conf_written d name t w r)
  conf_written-Ends name t w (err e, f) = record { ends = stays d w.db }
  conf_written-Ends name t w (ok _, f) =
      if-Ends d w.db (text_eq name (bytes "system")) _ _
        (conf_published-Ends t w f (d.web.publish_save_config t)) (record { ends = stays d w.db })

  conf_dir_made-Ends :
      (name t path : Text) (w : World d) (r : Result (Unit {0}) × d.fs.Files)
      → Ends d w.db (conf_dir_made d name t path w r)
  conf_dir_made-Ends name t path w (err e, f) = record { ends = stays d w.db }
  conf_dir_made-Ends name t path w (ok _, f) =
      conf_written-Ends name t w (write_to_path d.fs t path (conf_file d name) f)

  post_user_custom_conf-Ends :
      (id name t : Text) (w : World d) → Ends d w.db (post_user_custom_conf d id name t w)
  unfolding post_user_custom_conf
  post_user_custom_conf-Ends id name t w =
      let user = get_user_info_by_id d.gorm id w.db in
      if-Ends d w.db (is_empty name) _ _ (unchanged d w _) (
        if-Ends d w.db (user.id == 0) _ _ (unchanged d w _) (
          conf_dir_made-Ends name t (user_dir d user.id) w
            (is_not_exist_mk_dir d.fs (user_dir d user.id) w.files)))

  module _ (gate : Gate d) where
    served-Ends :
        (s : d.gorm.State) (r : Response × World d) → Acts d s r → Ends d s (served d gate r)
    served-Ends s (answer, w) h = record { ends = h.acts }

    handle-Ends :
        (r : Request) (e : Endpoint) (id : Text) (w : World d)
        → Ends d w.db (handle d gate r e id w)
    unfolding handle
    handle-Ends r (register json) id w =
        served-Ends w.db _ (post_user_register-Acts d r.salt json w)
    handle-Ends r (login json) id w =
        served-Ends w.db _ (post_user_login-Acts d r.now r.salt json w)
    handle-Ends r (verify_factor json) id w =
        served-Ends w.db _ (post_user_2fa_verify-Acts d r.now json w)
    handle-Ends r (refresh_tokens json) id w = unchanged d w _
    handle-Ends r all_names id w = unchanged d w _
    handle-Ends r status id w = served-Ends w.db _ (get_user_status-Acts d r.uuid r.gpus w)
    handle-Ends r (image_of path) id w = unchanged d w _
    handle-Ends r current id w = unchanged d w _
    handle-Ends r avatar_of id w = unchanged d w _
    handle-Ends r delete_everyone id w = served-Ends w.db _ (delete_user_all-Acts d w)
    handle-Ends r (change_info json) id w = served-Ends w.db _ (put_user_info-Acts d id json w)
    handle-Ends r (change_password json) id w =
        served-Ends w.db _ (put_user_password-Acts d r.salt id json w)
    handle-Ends r (setup_factor json) id w =
        served-Ends w.db _ (post_user_2fa_setup-Acts d r.now r.totp_key id json w)
    handle-Ends r (enable_factor json) id w =
        served-Ends w.db _ (post_user_2fa_enable-Acts d r.now r.draws r.draw_error id json w)
    handle-Ends r (disable_factor json) id w =
        served-Ends w.db _ (post_user_2fa_disable-Acts d r.now id json w)
    handle-Ends r (change_avatar json) id w = put_user_avatar-Ends d id json w
    handle-Ends r (conf name) id w = unchanged d w _
    handle-Ends r (delete_conf name) id w =
        served-Ends w.db _ (delete_user_custom_conf-Acts d id name w)
    handle-Ends r (delete_image path) id w = served-Ends w.db _ (delete_user_image-Acts d id path w)
    handle-Ends r (delete_one which) id w = served-Ends w.db _ (delete_user-Acts d which w)
    handle-Ends r (by_username name) id w = unchanged d w _
    handle-Ends r (store_conf name t) id w = post_user_custom_conf-Ends id name t w
    handle-Ends r (upload_image key kind form) id w =
        served-Ends w.db _ (post_user_upload_image-Acts d id key kind form w)
    handle-Ends r (change_image key json) id w = put_user_image-Ends d id key json w
    handle-Ends r (change_style style) id w = served-Ends w.db _ (put_login_style-Acts d style w)

    behind_gate-Ends :
        (r : Request) (w : World d) (a : Admission d.jwt.Claims) (k : Text → Served d)
        → ((id : Text) → Ends d w.db (k id))
        → Ends d w.db (behind_gate d gate r w a k)
    behind_gate-Ends r w skipped k h = h r.user_id
    behind_gate-Ends r w (admitted claims) k h = h (itoa (d.jwt.id claims))
    behind_gate-Ends r w (refused code why) k h = record { ends = stays d w.db }

    pub serve-Ends : (r : Request) (w : World d) → Ends d w.db (serve d gate r w)
    unfolding serve
    serve-Ends r w =
        if-Ends d w.db (is_open r.endpoint) _ _ (handle-Ends r r.endpoint r.user_id w) (
          behind_gate-Ends r w (admission d gate r) (λ id. handle d gate r r.endpoint id w)
            (λ id. handle-Ends r r.endpoint id w))

    left-Reaches :
        (s : d.gorm.State) (r : Served d) (w' : World d)
        → Ends d s r
        → left d gate r ≡ some w'
        → Reaches d s w'.db
    left-Reaches s (replied answer w) w' h e =
        let same : w ≡ w' = cc in subst (λ (x : World d). Reaches d s x.db) same h.ends
    left-Reaches s (exited w) w' h e = cc
    left-Reaches s (panicked w) w' h e =
        let same : w ≡ w' = cc in subst (λ (x : World d). Reaches d s x.db) same h.ends

    next-Reaches :
        (s : d.gorm.State) (o : Option (World d)) (rs : List Request) (w' : World d)
        → ((w : World d) → o ≡ some w → Reaches d s w.db)
        → ((w : World d) → serve_all d gate rs w ≡ some w' → Reaches d w.db w'.db)
        → next_served d gate o (serve_all d gate rs) ≡ some w'
        → Reaches d s w'.db
    next-Reaches s none rs w' first rest e = cc
    next-Reaches s (some w) rs w' first rest e =
        then-Reaches d s w.db w'.db (first w refl) (rest w e)

    serve_all-Reaches :
        (rs : List Request) (w w' : World d)
        → serve_all d gate rs w ≡ some w'
        → Reaches d w.db w'.db
    unfolding serve_all
    serve_all-Reaches [] w w' e =
        let same : w ≡ w' = cc in subst (λ (x : World d). Reaches d w.db x.db) same (stays d w.db)
    serve_all-Reaches (r ∷ rs) w w' e =
        next-Reaches w.db (left d gate (serve d gate r w)) rs w'
          (λ x. left-Reaches w.db (serve d gate r w) x (serve-Ends r w))
          (λ x. serve_all-Reaches rs x w') e

    module _ (law : IsLawful d.gorm) where
      run-HasKeys :
          (as' : List Statement) (s : d.gorm.State)
          → All (IsAnonymous d.gorm) as'
          → HasKeys (d.gorm.rows s)
          → HasKeys (d.gorm.rows (run d.gorm as' s))
      unfolding run
      run-HasKeys [] s h u = u
      run-HasKeys (a ∷ as') s (h, hs) u =
          run-HasKeys as' (perform d.gorm a s) hs (perform-HasKeys d.gorm law a s h u)

      -- Whatever requests are served, and by whomever they are sent: if the process has not ended by
      -- then, the table is reached by statements of service/user.go in which accounts are created
      -- with no id of their own, and the ids of the accounts are still distinct.
      pub serve_all-HasKeys :
          (rs : List Request) (w w' : World d)
          → serve_all d gate rs w ≡ some w'
          → HasKeys (d.gorm.rows w.db)
          → Reaches d w.db w'.db × HasKeys (d.gorm.rows w'.db)
      serve_all-HasKeys rs w w' e u =
          let way = serve_all-Reaches rs w w' e in
          (
            way,
            subst (λ s. HasKeys (d.gorm.rows s)) way.reached
                (run-HasKeys way.statements w.db way.anonymous u),
          )
