-- ===== src/Route/Images.antt =====
-- The image handlers of route/v1/user.go: `PutUserAvatar`, `PutUserImage`, `PostUserUploadImage` and
-- `GetUserImage`.
pub mod Stored
use casa_os_user_service.Common.{
  ℕ, ◌*◌, ◌^◌, Bool, true, false, not, ◌&&◌, ◌||◌, Option, none, some, List, [], ◌∷◌, ◌++◌, ltb,
  ◌==◌, if◌then◌else◌, drop, length,
}
use casa_os_user_service.Common.Text.{Text, bytes, is_empty, text_eq}
use casa_os_user_service.Common.Decimal.{is_digit}
use casa_os_user_service.Disk.{
  Stat, info, not_exist, is_exist, unknown, exists, has_prefix, contains, get_ext, copy_single_file,
  save_uploaded_file,
}
use casa_os_user_service.Disk.Images.{get_image_ext, get_image_ext_by_name}
use casa_os_user_service.Users.Database.{UserDbModel}
use casa_os_user_service.Users.{get_user_info_by_id, update_user}
use casa_os_user_service.Route.{
  Deps, World, Json, Response, Result, ok, err, Served, replied, exited, panicked, Code, http,
  reply, reply_ok, reply_file, user_dir, account, image_at, detail, of_code, nothing,
  internal_error, success, client_error, service_error, invalid_params, user_not_exist,
  file_does_not_exist, insufficient_permissions, not_image, image_too_large,
}

abbrev pub image_url : Text
image_url = bytes "/v1/users/image?path="

-- strings.Replace(s, old, "", 1), for an `old` that is not empty
unfoldable pub drop_first : Text → Text → Text
drop_first [] old = []
drop_first (c ∷ s) old =
    let rest = drop_first s old in
    if has_prefix (c ∷ s) old then drop (length old) (c ∷ s) else c ∷ rest

abbrev pub starts_in_digit : Text → Bool
starts_in_digit [] = false
starts_in_digit (c ∷ s) = is_digit c

-- The regular expression ^/var/lib/casaos/\d
unfoldable pub is_user_file : Text → Bool
is_user_file path = has_prefix path (bytes "/var/lib/casaos/") && starts_in_digit (drop 16 path)

module _ (d : Deps) where
  abbrev pub avatar_path : Text → Text
  avatar_path id = d.user_data_path ++ b'/' ∷ (id ++ bytes "/avatar.png")

  -- png.Encode to the file: neither an error of creating it nor one of encoding ends the request.
  abbrev pub write_png : Text → Result Text → Result (Unit {0}) × d.fs.Files → d.fs.Files
  write_png path (err e) (r, f) = f
  write_png path (ok t) (err e, f) = f
  write_png path (ok t) (ok _, f) = (d.fs.write_file path t f).1

  abbrev pub avatar_changed : Text → UserDbModel → World d → Served d
  avatar_changed path user w =
      let changed = record user { avatar = path } in
      replied (record (reply (http 200) success) { body = account changed })
        (record w { db = update_user d.gorm changed w.db })

  -- log.Fatal ends the process.
  abbrev pub avatar_decoded : Text → UserDbModel → World d → Option d.web.Image → Served d
  avatar_decoded id user w none = exited w
  avatar_decoded id user w (some image) =
      let path = avatar_path id in
      avatar_changed path user (record w {
        files =
            write_png path (d.web.encode_png image) (d.fs.create path (d.fs.remove path w.files).1);
      })

  abbrev pub avatar_read : Text → UserDbModel → World d → Result Text → Served d
  avatar_read id user w (err e) = replied (internal_error e) w
  avatar_read id user w (ok t) = avatar_decoded id user w (d.web.decode_image t)

  unfoldable pub put_user_avatar : Text → Json → World d → Served d
  put_user_avatar id json w =
      let user = get_user_info_by_id d.gorm id w.db in
      if user.id == 0
      then replied (reply service_error user_not_exist) w
      else avatar_read id user w
          (d.web.decode_base64 (drop_first (json "file") (bytes "data:image/png;base64,")))

  abbrev pub image_reply : Text → Text → Response
  image_reply path name = record {
    status = success;
    success = success;
    message = of_code success;
    body = image_at path name (image_url ++ path);
  }

  -- A file that cannot be looked at any more has no size to ask for.
  abbrev pub image_sized : Text → Text → UserDbModel → World d → Stat → Served d
  image_sized path key user w (info size mode) =
      if ltb (10 * 2 ^ 20) size
      then replied (reply (http 200) image_too_large) w
      else (let name = key ++ get_ext path in
          let target = user_dir d user.id ++ b'/' ∷ name in
          replied (record (image_reply target name) { status = http 200 })
            (record w {
              files = (copy_single_file d.fs path target (bytes "overwrite") w.files).1;
            }))
  image_sized path key user w (not_exist e) = panicked w
  image_sized path key user w (is_exist e) = panicked w
  image_sized path key user w (unknown e) = panicked w

  abbrev pub image_typed : Text → Text → Text → World d → Result Text → Served d
  image_typed id path key w (err e) = replied (reply (http 200) not_image) w
  image_typed id path key w (ok ext) =
      let user = get_user_info_by_id d.gorm id w.db in
      if user.id == 0
      then replied (reply (http 200) user_not_exist) w
      else image_sized path key user w (d.fs.stat path w.files)

  unfoldable pub put_user_image : Text → Text → Json → World d → Served d
  put_user_image id key json w =
      let path = json "path" in
      if is_empty path || is_empty key
      then replied (reply (http 200) invalid_params) w
      else if not (exists d.fs path w.files)
      then replied (reply (http 200) file_does_not_exist) w
      else image_typed id path key w (get_image_ext d.fs path w.files)

  abbrev pub upload_typed :
      Text → Text → Text → Text → Result Text → World d → Result Text → Response × World d
  upload_typed id key kind file_name content w (err e) = (reply service_error not_image, w)
  upload_typed id key kind file_name content w (ok ext) =
      let user = get_user_info_by_id d.gorm id w.db in
      let name =
        (if text_eq kind (bytes "avatar") then bytes "avatar" else key) ++ get_ext file_name in
      let path = user_dir d user.id ++ b'/' ∷ name in
      if user.id == 0 then (reply service_error user_not_exist, w) else (
        image_reply path name,
        record w { files = (save_uploaded_file d.fs content path w.files).1 },
      )

  -- The file of the form: its name and its content, or the error of finding it.
  abbrev pub upload_found :
      Text → Text → Text → World d → Result (Text × Result Text) → Response × World d
  upload_found id key kind w (err e) =
      (record (reply client_error client_error) { body = detail e }, w)
  upload_found id key kind w (ok (file_name, content)) =
      upload_typed id key kind file_name content w (get_image_ext_by_name file_name)

  unfoldable pub post_user_upload_image :
      Text → Text → Text → Result (Text × Result Text) → World d → Response × World d
  post_user_upload_image id key kind form w =
      if is_empty key
      then (reply client_error invalid_params, w)
      else upload_found id key kind w form

  abbrev pub image_found : World d → Result Text → Response
  image_found w (err e) = reply (http 404) invalid_params
  image_found w (ok path) =
      if not (exists d.fs path w.files)
      then reply (http 404) file_does_not_exist
      else if not (contains path d.user_data_path)
      then reply (http 404) insufficient_permissions
      else if not (is_user_file path)
      then reply (http 404) insufficient_permissions
      else reply_file d path w

  unfoldable pub get_user_image : Text → World d → Response
  get_user_image path w =
      if is_empty path then reply (http 404) invalid_params else image_found w (d.fs.abs_clean path)
