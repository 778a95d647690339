-- ===== src/Server/Reached/Requests.antt =====
-- Every request reaches the table by statements, and so does any sequence of requests.
use casa_os_user_service.Common.{
  Bool, true, false, not, ◌&&◌, ◌||◌, Option, none, some, ◌∷◌, ◌++◌, ◌*◌, ◌^◌, ◌==◌, ltb,
  if◌then◌else◌,
}
use casa_os_user_service.Common.Text.{Text, bytes, text_eq, is_empty}
use casa_os_user_service.Disk.{Stat, info, not_exist, is_exist, unknown, exists, contains}
use casa_os_user_service.Disk.Images.{get_image_ext, get_image_ext_by_name}
use casa_os_user_service.Users.Database.{UserDbModel}
use casa_os_user_service.Users.Statements.{perform, updates_info}
use casa_os_user_service.Users.{get_user_info_by_id}
use casa_os_user_service.Route.{
  Deps, World, Json, Response, Result, ok, err, Removal, removed, missing, unremoved, Served,
  replied, exited, panicked, user_dir,
}
use casa_os_user_service.Route.LoginStyle.{login_style_classic, login_style_beta, put_login_style}
use casa_os_user_service.Route.UserFiles.{delete_user_image, conf_removed, delete_user_custom_conf}
use casa_os_user_service.Route.Images.{
  drop_first, avatar_path, avatar_decoded, avatar_read, put_user_avatar, image_sized, image_typed,
  put_user_image, upload_typed, upload_found, post_user_upload_image,
}
use casa_os_user_service.Server.Reached.{Reaches, stays, performs, Acts, if-Acts, answers}

module _ (d : Deps) where
  abbrev pub world_of : Served d → World d
  world_of (replied answer w) = w
  world_of (exited w) = w
  world_of (panicked w) = w

  -- However the handler ends, the table was reached by statements.
  pub record Ends (s : d.gorm.State) (r : Served d) : Type 0 where
    pub ends : Reaches d s (world_of r).db

  pub if-Ends :
      (s : d.gorm.State) (b : Bool) (x y : Served d)
      → Ends s x
      → Ends s y
      → Ends s (if b then x else y)
  if-Ends s true x y h k = h
  if-Ends s false x y h k = k

  pub unchanged : (w : World d) (answer : Response) → Ends w.db (replied answer w)
  unchanged w answer = record { ends = stays d w.db }

  -- Handlers of files.
  pub put_login_style-Acts :
      (style : Result Text) (w : World d) → Acts d w.db (put_login_style d style w)
  unfolding put_login_style
  put_login_style-Acts (err e) w = record { acts = stays d w.db }
  put_login_style-Acts (ok style) w =
      if-Acts d w.db
        (not (text_eq style login_style_classic) && not (text_eq style login_style_beta)) _ _
        (answers d w _) (record { acts = stays d w.db })

  pub delete_user_image-Acts :
      (id path : Text) (w : World d) → Acts d w.db (delete_user_image d id path w)
  unfolding delete_user_image
  delete_user_image-Acts id path w =
      let user = get_user_info_by_id d.gorm id w.db in
      if-Acts d w.db (is_empty path) _ _ (answers d w _) (
        if-Acts d w.db (user.id == 0) _ _ (answers d w _) (
          if-Acts d w.db (not (exists d.fs path w.files)) _ _ (answers d w _) (
            if-Acts d w.db (not (contains path (user_dir d user.id))) _ _ (answers d w _)
              (record { acts = stays d w.db }))))

  conf_removed-Acts : (w : World d) (r : Removal × d.fs.Files) → Acts d w.db (conf_removed d w r)
  conf_removed-Acts w (removed, f) = record { acts = stays d w.db }
  conf_removed-Acts w (missing, f) = record { acts = stays d w.db }
  conf_removed-Acts w (unremoved e, f) = record { acts = stays d w.db }

  pub delete_user_custom_conf-Acts :
      (id name : Text) (w : World d) → Acts d w.db (delete_user_custom_conf d id name w)
  unfolding delete_user_custom_conf
  delete_user_custom_conf-Acts id name w =
      let user = get_user_info_by_id d.gorm id w.db in
      if-Acts d w.db (is_empty name) _ _ (answers d w _) (
        if-Acts d w.db (user.id == 0) _ _ (answers d w _) (
          conf_removed-Acts w
            (d.fs.remove (user_dir d user.id ++ b'/' ∷ (name ++ bytes ".json")) w.files)))

  upload_typed-Acts :
      (id key kind file_name : Text) (content : Result Text) (w : World d) (r : Result Text)
      → Acts d w.db (upload_typed d id key kind file_name content w r)
  upload_typed-Acts id key kind file_name content w (err e) = record { acts = stays d w.db }
  upload_typed-Acts id key kind file_name content w (ok ext) =
      if-Acts d w.db ((get_user_info_by_id d.gorm id w.db).id == 0) _ _ (answers d w _)
        (record { acts = stays d w.db })

  upload_found-Acts :
      (id key kind : Text) (w : World d) (r : Result (Text × Result Text))
      → Acts d w.db (upload_found d id key kind w r)
  upload_found-Acts id key kind w (err e) = record { acts = stays d w.db }
  upload_found-Acts id key kind w (ok (file_name, content)) =
      upload_typed-Acts id key kind file_name content w (get_image_ext_by_name file_name)

  pub post_user_upload_image-Acts :
      (id key kind : Text) (form : Result (Text × Result Text)) (w : World d)
      → Acts d w.db (post_user_upload_image d id key kind form w)
  unfolding post_user_upload_image
  post_user_upload_image-Acts id key kind form w =
      if-Acts d w.db (is_empty key) _ _ (answers d w _) (upload_found-Acts id key kind w form)

  avatar_decoded-Ends :
      (id : Text) (user : UserDbModel) (w : World d) (o : Option d.web.Image)
      → Ends w.db (avatar_decoded d id user w o)
  unfolding perform
  avatar_decoded-Ends id user w none = record { ends = stays d w.db }
  avatar_decoded-Ends id user w (some image) = record {
    ends = performs d (updates_info (record user { avatar = avatar_path d id })) w.db tt;
  }

  avatar_read-Ends :
      (id : Text) (user : UserDbModel) (w : World d) (r : Result Text)
      → Ends w.db (avatar_read d id user w r)
  avatar_read-Ends id user w (err e) = record { ends = stays d w.db }
  avatar_read-Ends id user w (ok t) = avatar_decoded-Ends id user w (d.web.decode_image t)

  pub put_user_avatar-Ends :
      (id : Text) (json : Json) (w : World d) → Ends w.db (put_user_avatar d id json w)
  unfolding put_user_avatar
  put_user_avatar-Ends id json w =
      let user = get_user_info_by_id d.gorm id w.db in
      if-Ends w.db (user.id == 0) _ _ (unchanged w _) (
        avatar_read-Ends id user w
          (d.web.decode_base64 (drop_first (json "file") (bytes "data:image/png;base64,"))))

  image_sized-Ends :
      (path key : Text) (user : UserDbModel) (w : World d) (s : Stat)
      → Ends w.db (image_sized d path key user w s)
  image_sized-Ends path key user w (info size mode) =
      if-Ends w.db (ltb (10 * 2 ^ 20) size) _ _ (unchanged w _) (record { ends = stays d w.db })
  image_sized-Ends path key user w (not_exist e) = record { ends = stays d w.db }
  image_sized-Ends path key user w (is_exist e) = record { ends = stays d w.db }
  image_sized-Ends path key user w (unknown e) = record { ends = stays d w.db }

  image_typed-Ends :
      (id path key : Text) (w : World d) (r : Result Text)
      → Ends w.db (image_typed d id path key w r)
  image_typed-Ends id path key w (err e) = record { ends = stays d w.db }
  image_typed-Ends id path key w (ok ext) =
      let user = get_user_info_by_id d.gorm id w.db in
      if-Ends w.db (user.id == 0) _ _ (unchanged w _)
        (image_sized-Ends path key user w (d.fs.stat path w.files))

  pub put_user_image-Ends :
      (id key : Text) (json : Json) (w : World d) → Ends w.db (put_user_image d id key json w)
  unfolding put_user_image
  put_user_image-Ends id key json w =
      if-Ends w.db (is_empty (json "path") || is_empty key) _ _ (unchanged w _) (
        if-Ends w.db (not (exists d.fs (json "path") w.files)) _ _ (unchanged w _)
          (image_typed-Ends id (json "path") key w (get_image_ext d.fs (json "path") w.files)))
