-- ===== src/Route/UserFiles.antt =====
-- The handlers of route/v1/user.go that serve and delete files of a user: `GetUserAvatar`,
-- `DeleteUserImage` and `DeleteUserCustomConf`.
pub mod Removed
use casa_os_user_service.Common.{
  ℕ, Bool, true, false, not, ◌&&◌, ◌||◌, List, [], ◌∷◌, ◌++◌, ◌==◌, if◌then◌else◌,
}
use casa_os_user_service.Common.Text.{Text, bytes, is_empty}
use casa_os_user_service.Disk.{exists, contains}
use casa_os_user_service.Users.{get_user_info_by_id}
use casa_os_user_service.Route.{
  Deps, World, Response, Result, ok, err, Removal, removed, missing, unremoved, reply, reply_file,
  user_dir, success, client_error, service_error, invalid_params, user_not_exist,
  file_does_not_exist, insufficient_permissions,
}

module _ (d : Deps) where
  -- The avatar of the row if its file is there, else the one of the system; the last is not asked
  -- for first.
  unfoldable pub get_user_avatar : Text → World d → Response
  get_user_avatar id w =
      let user = get_user_info_by_id d.gorm id w.db in
      if user.id == 0
      then reply service_error user_not_exist
      else if exists d.fs user.avatar w.files
      then reply_file d user.avatar w
      else if exists d.fs (bytes "/usr/share/casaos/www/avatar.svg") w.files
      then reply_file d (bytes "/usr/share/casaos/www/avatar.svg") w
      else reply_file d (bytes "/var/lib/casaos/www/avatar.svg") w

  unfoldable pub delete_user_image : Text → Text → World d → Response × World d
  delete_user_image id path w =
      let user = get_user_info_by_id d.gorm id w.db in
      if is_empty path
      then (reply client_error invalid_params, w)
      else if user.id == 0
      then (reply service_error user_not_exist, w)
      else if not (exists d.fs path w.files)
      then (reply service_error file_does_not_exist, w)
      else if not (contains path (user_dir d user.id))
      then (reply service_error insufficient_permissions, w)
      else (reply success success, record w { files = (d.fs.remove path w.files).1 })

  -- `UpLoadFile` of service/user.go, which no handler calls: what goes wrong is not reported.
  unfoldable pub up_load_file : Text → Text → d.fs.Files → Result (Unit {0}) × d.fs.Files
  up_load_file t url f = (ok tt, (d.fs.write_file url t f).1)

  -- os.Remove fails for a file that is not there, too.
  abbrev pub conf_removed : World d → Removal × d.fs.Files → Response × World d
  conf_removed w (removed, f) = (reply success success, record w { files = f })
  conf_removed w (missing, f) = (reply service_error service_error, record w { files = f })
  conf_removed w (unremoved e, f) = (reply service_error service_error, record w { files = f })

  unfoldable pub delete_user_custom_conf : Text → Text → World d → Response × World d
  delete_user_custom_conf id name w =
      let user = get_user_info_by_id d.gorm id w.db in
      if is_empty name
      then (reply client_error invalid_params, w)
      else if user.id == 0
      then (reply service_error user_not_exist, w)
      else conf_removed w
          (d.fs.remove (user_dir d user.id ++ b'/' ∷ (name ++ bytes ".json")) w.files)
