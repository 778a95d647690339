-- ===== src/Server/Replies/Files.antt =====
-- The replies about files of users: images, avatars, configurations and the login style.
use casa_os_user_service.Common.{
  ◌*◌, ◌^◌, ◌≡◌, refl, sym, not, ◌&&◌, ◌||◌, Option, none, some, [], ◌==◌, ltb, Bool-cases, inl,
  inr,
}
use casa_os_user_service.Common.Text.{Text, bytes, text_eq, is_empty}
use casa_os_user_service.Disk.{
  Stat, info, not_exist, is_exist, unknown, exists, contains, is_not_exist_mk_dir, write_to_path,
}
use casa_os_user_service.Disk.Images.{get_image_ext_by_name}
use casa_os_user_service.Users.Database.{UserDbModel}
use casa_os_user_service.Users.{select_info, get_user_info_by_id}
use casa_os_user_service.Route.{
  Deps, World, Json, Result, ok, err, Removal, removed, missing, unremoved, Published, unreachable,
  answered, success, client_error, service_error, http, invalid_params, user_not_exist,
  file_does_not_exist, insufficient_permissions, not_image, image_too_large, detail, user_dir,
}
use casa_os_user_service.Route.UserFiles.{
  get_user_avatar, delete_user_image, conf_removed, delete_user_custom_conf,
}
use casa_os_user_service.Route.Images.{
  is_user_file, avatar_decoded, avatar_read, put_user_avatar, image_sized, image_typed,
  put_user_image, upload_typed, upload_found, post_user_upload_image, image_found, get_user_image,
}
use casa_os_user_service.Route.CustomConf.{
  conf_reply, get_user_custom_conf, conf_published, conf_written, conf_dir_made,
  post_user_custom_conf, conf_file,
}
use casa_os_user_service.Route.LoginStyle.{
  style_reply, put_login_style, set_login_style, login_style_classic, login_style_beta,
}
use casa_os_user_service.Server.Replies.{
  IsFit, Fits, if-Fits, if-IsFit, reply-IsFit, reply-Fits, reply_ok-IsFit, reply_raw-IsFit,
  reply_file-IsFit, internal_error-IsFit, Sends, if-Sends, replies,
}

module _ (d : Deps) (sent : Text) where
  pub get_user_avatar-IsFit : (id : Text) (w : World d) → IsFit sent (get_user_avatar d id w)
  unfolding get_user_avatar
  get_user_avatar-IsFit id w =
      let user = get_user_info_by_id d.gorm id w.db in
      if-IsFit d sent (user.id == 0) _ _ (reply-IsFit d sent service_error user_not_exist refl) (
        if-IsFit d sent (exists d.fs user.avatar w.files) _ _ (reply_file-IsFit d sent _ w) (
          if-IsFit d sent (exists d.fs (bytes "/usr/share/casaos/www/avatar.svg") w.files) _ _
            (reply_file-IsFit d sent _ w) (reply_file-IsFit d sent _ w)))

  pub delete_user_image-Fits :
      (id path : Text) (w : World d) → Fits d sent (delete_user_image d id path w)
  unfolding delete_user_image
  delete_user_image-Fits id path w =
      let user = get_user_info_by_id d.gorm id w.db in
      if-Fits d sent (is_empty path) _ _ (reply-Fits d sent client_error invalid_params w refl) (
        if-Fits d sent (user.id == 0) _ _ (reply-Fits d sent service_error user_not_exist w refl) (
          if-Fits d sent (not (exists d.fs path w.files)) _ _
            (reply-Fits d sent service_error file_does_not_exist w refl)
            (if-Fits d sent (not (contains path (user_dir d user.id))) _ _
              (reply-Fits d sent service_error insufficient_permissions w refl)
              (reply-Fits d sent success success _ refl))))

  conf_removed-Fits : (w : World d) (r : Removal × d.fs.Files) → Fits d sent (conf_removed d w r)
  conf_removed-Fits w (removed, f) = reply-Fits d sent success success _ refl
  conf_removed-Fits w (missing, f) = reply-Fits d sent service_error service_error _ refl
  conf_removed-Fits w (unremoved e, f) = reply-Fits d sent service_error service_error _ refl

  pub delete_user_custom_conf-Fits :
      (id name : Text) (w : World d) → Fits d sent (delete_user_custom_conf d id name w)
  unfolding delete_user_custom_conf
  delete_user_custom_conf-Fits id name w =
      let user = get_user_info_by_id d.gorm id w.db in
      if-Fits d sent (is_empty name) _ _ (reply-Fits d sent client_error invalid_params w refl) (
        if-Fits d sent (user.id == 0) _ _ (reply-Fits d sent service_error user_not_exist w refl)
          (conf_removed-Fits w _))

  avatar_decoded-Sends :
      (id : Text) (user : UserDbModel) (w : World d) (o : Option d.web.Image)
      → user.password ≡ sent
      → Sends d sent (avatar_decoded d id user w o)
  avatar_decoded-Sends id user w none h = record { sends = tt }
  avatar_decoded-Sends id user w (some image) h = record {
    sends = record { status = refl; body = (refl, h) };
  }

  avatar_read-Sends :
      (id : Text) (user : UserDbModel) (w : World d) (r : Result Text)
      → user.password ≡ sent
      → Sends d sent (avatar_read d id user w r)
  avatar_read-Sends id user w (err e) h = replies d sent _ w (internal_error-IsFit d sent e)
  avatar_read-Sends id user w (ok t) h = avatar_decoded-Sends id user w (d.web.decode_image t) h

  pub put_user_avatar-Sends :
      (id : Text) (json : Json) (w : World d)
      → sent ≡ []
      → Sends d sent (put_user_avatar d id json w)
  unfolding put_user_avatar get_user_info_by_id select_info
  put_user_avatar-Sends id json w h =
      let user = get_user_info_by_id d.gorm id w.db in
      if-Sends d sent (user.id == 0) _ _
        (replies d sent _ w (reply-IsFit d sent service_error user_not_exist refl))
        (avatar_read-Sends id user w _ (sym h))

  image_sized-Sends :
      (path key : Text) (user : UserDbModel) (w : World d) (r : Stat)
      → Sends d sent (image_sized d path key user w r)
  image_sized-Sends path key user w (info size mode) =
      if-Sends d sent (ltb (10 * 2 ^ 20) size) _ _
        (replies d sent _ w (reply-IsFit d sent (http 200) image_too_large refl))
        (record { sends = record { status = refl; body = refl } })
  image_sized-Sends path key user w (not_exist e) = record { sends = tt }
  image_sized-Sends path key user w (is_exist e) = record { sends = tt }
  image_sized-Sends path key user w (unknown e) = record { sends = tt }

  image_typed-Sends :
      (id path key : Text) (w : World d) (r : Result Text)
      → Sends d sent (image_typed d id path key w r)
  image_typed-Sends id path key w (err e) =
      replies d sent _ w (reply-IsFit d sent (http 200) not_image refl)
  image_typed-Sends id path key w (ok ext) =
      let user = get_user_info_by_id d.gorm id w.db in
      if-Sends d sent (user.id == 0) _ _
        (replies d sent _ w (reply-IsFit d sent (http 200) user_not_exist refl))
        (image_sized-Sends path key user w (d.fs.stat path w.files))

  pub put_user_image-Sends :
      (id key : Text) (json : Json) (w : World d) → Sends d sent (put_user_image d id key json w)
  unfolding put_user_image
  put_user_image-Sends id key json w =
      if-Sends d sent (is_empty (json "path") || is_empty key) _ _
        (replies d sent _ w (reply-IsFit d sent (http 200) invalid_params refl))
        (if-Sends d sent (not (exists d.fs (json "path") w.files)) _ _
          (replies d sent _ w (reply-IsFit d sent (http 200) file_does_not_exist refl))
          (image_typed-Sends id (json "path") key w _))

  upload_typed-Fits :
      (id key kind file_name : Text) (content : Result Text) (w : World d) (r : Result Text)
      → Fits d sent (upload_typed d id key kind file_name content w r)
  upload_typed-Fits id key kind file_name content w (err e) =
      reply-Fits d sent service_error not_image w refl
  upload_typed-Fits id key kind file_name content w (ok ext) =
      if-Fits d sent ((get_user_info_by_id d.gorm id w.db).id == 0) _ _
        (reply-Fits d sent service_error user_not_exist w refl)
        (record { fits = record { status = refl; body = refl } })

  upload_found-Fits :
      (id key kind : Text) (w : World d) (r : Result (Text × Result Text))
      → Fits d sent (upload_found d id key kind w r)
  upload_found-Fits id key kind w (err e) = record { fits = record { status = refl; body = tt } }
  upload_found-Fits id key kind w (ok (file_name, content)) =
      upload_typed-Fits id key kind file_name content w (get_image_ext_by_name file_name)

  pub post_user_upload_image-Fits :
      (id key kind : Text) (form : Result (Text × Result Text)) (w : World d)
      → Fits d sent (post_user_upload_image d id key kind form w)
  unfolding post_user_upload_image
  post_user_upload_image-Fits id key kind form w =
      if-Fits d sent (is_empty key) _ _ (reply-Fits d sent client_error invalid_params w refl)
        (upload_found-Fits id key kind w form)

  image_found-IsFit : (w : World d) (r : Result Text) → IsFit sent (image_found d w r)
  image_found-IsFit w (err e) = reply-IsFit d sent (http 404) invalid_params refl
  image_found-IsFit w (ok path) =
      if-IsFit d sent (not (exists d.fs path w.files)) _ _
        (reply-IsFit d sent (http 404) file_does_not_exist refl)
        (if-IsFit d sent (not (contains path d.user_data_path)) _ _
          (reply-IsFit d sent (http 404) insufficient_permissions refl)
          (if-IsFit d sent (not (is_user_file path)) _ _
            (reply-IsFit d sent (http 404) insufficient_permissions refl)
            (reply_file-IsFit d sent path w)))

  pub get_user_image-IsFit : (path : Text) (w : World d) → IsFit sent (get_user_image d path w)
  unfolding get_user_image
  get_user_image-IsFit path w =
      if-IsFit d sent (is_empty path) _ _ (reply-IsFit d sent (http 404) invalid_params refl)
        (image_found-IsFit w _)

  conf_reply-IsFit : (t : Text) → IsFit sent (conf_reply d t)
  conf_reply-IsFit t = elim (Bool-cases (d.web.valid_bytes t)) [
    | inl e ↦ rw e (reply_raw-IsFit d sent t)
    | inr e ↦ rw e (reply_ok-IsFit d sent (detail t) tt)
  ]

  pub get_user_custom_conf-IsFit :
      (id name : Text) (w : World d) → IsFit sent (get_user_custom_conf d id name w)
  unfolding get_user_custom_conf
  get_user_custom_conf-IsFit id name w =
      let user = get_user_info_by_id d.gorm id w.db in
      if-IsFit d sent (is_empty name) _ _ (reply-IsFit d sent client_error invalid_params refl) (
        if-IsFit d sent (user.id == 0) _ _ (reply-IsFit d sent service_error user_not_exist refl)
          (conf_reply-IsFit _))

  conf_published-Sends :
      (t : Text) (w : World d) (p : Published) → Sends d sent (conf_published d t w p)
  conf_published-Sends t w unreachable = record { sends = tt }
  conf_published-Sends t w (answered code) = replies d sent _ w (reply_raw-IsFit d sent t)

  conf_written-Sends :
      (name t : Text) (w : World d) (r : Result (Unit {0}) × d.fs.Files)
      → Sends d sent (conf_written d name t w r)
  conf_written-Sends name t w (err e, f) =
      replies d sent _ _ (reply-IsFit d sent service_error service_error refl)
  conf_written-Sends name t w (ok _, f) =
      if-Sends d sent (text_eq name (bytes "system")) _ _ (conf_published-Sends t _ _)
        (replies d sent _ _ (reply_raw-IsFit d sent t))

  conf_dir_made-Sends :
      (name t path : Text) (w : World d) (r : Result (Unit {0}) × d.fs.Files)
      → Sends d sent (conf_dir_made d name t path w r)
  conf_dir_made-Sends name t path w (err e, f) =
      replies d sent _ _ (reply-IsFit d sent service_error service_error refl)
  conf_dir_made-Sends name t path w (ok _, f) =
      conf_written-Sends name t w (write_to_path d.fs t path (conf_file d name) f)

  pub post_user_custom_conf-Sends :
      (id name t : Text) (w : World d) → Sends d sent (post_user_custom_conf d id name t w)
  unfolding post_user_custom_conf
  post_user_custom_conf-Sends id name t w =
      let user = get_user_info_by_id d.gorm id w.db in
      if-Sends d sent (is_empty name) _ _
        (replies d sent _ w (reply-IsFit d sent client_error invalid_params refl))
        (if-Sends d sent (user.id == 0) _ _
          (replies d sent _ w (reply-IsFit d sent service_error user_not_exist refl))
          (conf_dir_made-Sends name t _ w (is_not_exist_mk_dir d.fs (user_dir d user.id) w.files)))

  style_reply-IsFit : (style : Text) (r : Result (Unit {0})) → IsFit sent (style_reply d style r)
  style_reply-IsFit style (err e) = internal_error-IsFit d sent e
  style_reply-IsFit style (ok _) = record { status = refl; body = tt }

  pub put_login_style-Fits :
      (style : Result Text) (w : World d) → Fits d sent (put_login_style d style w)
  unfolding put_login_style
  put_login_style-Fits (err e) w = record { fits = record { status = refl; body = tt } }
  put_login_style-Fits (ok style) w =
      if-Fits d sent
        (not (text_eq style login_style_classic) && not (text_eq style login_style_beta)) _ _
        (record { fits = record { status = refl; body = tt } })
        (record { fits = style_reply-IsFit style (set_login_style d style w.files).0 })
