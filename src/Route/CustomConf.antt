-- ===== src/Route/CustomConf.antt =====
-- The custom configuration of a user: `GetUserCustomConf` and `PostUserCustomConf` of
-- route/v1/user.go.
pub mod Kept
use casa_os_user_service.Common.{
  ℕ, Bool, true, false, not, ◌&&◌, ◌||◌, List, [], ◌∷◌, ◌++◌, ◌==◌, if◌then◌else◌,
}
use casa_os_user_service.Common.Text.{Text, bytes, is_empty, text_eq}
use casa_os_user_service.Disk.{is_not_exist_mk_dir, write_to_path, read_full_file}
use casa_os_user_service.Users.{get_user_info_by_id}
use casa_os_user_service.Route.{
  Deps, World, Response, Result, ok, err, Published, unreachable, answered, Served, replied,
  panicked, reply, reply_ok, reply_raw, user_dir, detail, success, client_error, service_error,
  invalid_params, user_not_exist,
}

module _ (d : Deps) where
  abbrev pub conf_file : Text → Text
  conf_file name = name ++ bytes ".json"

  -- What is no JSON is sent as a text.
  abbrev pub conf_reply : Text → Response
  conf_reply t = if d.web.valid_bytes t then reply_raw d t else reply_ok (detail t)

  unfoldable pub get_user_custom_conf : Text → Text → World d → Response
  get_user_custom_conf id name w =
      let user = get_user_info_by_id d.gorm id w.db in
      if is_empty name
      then reply client_error invalid_params
      else if user.id == 0
      then reply service_error user_not_exist
      else conf_reply
          (read_full_file d.fs (d.user_data_path ++ b'/' ∷ (id ++ b'/' ∷ conf_file name)) w.files)

  -- The status of a response that is not there is asked for all the same.
  abbrev pub conf_published : Text → World d → Published → Served d
  conf_published t w unreachable = panicked w
  conf_published t w (answered code) = replied (reply_raw d t) w

  abbrev pub conf_written : Text → Text → World d → Result (Unit {0}) × d.fs.Files → Served d
  conf_written name t w (err e, f) =
      replied (reply service_error service_error) (record w { files = f })
  conf_written name t w (ok _, f) =
      if text_eq name (bytes "system")
      then conf_published t (record w { files = f }) (d.web.publish_save_config t)
      else replied (reply_raw d t) (record w { files = f })

  abbrev pub conf_dir_made :
      Text → Text → Text → World d → Result (Unit {0}) × d.fs.Files → Served d
  conf_dir_made name t path w (err e, f) =
      replied (reply service_error service_error) (record w { files = f })
  conf_dir_made name t path w (ok _, f) =
      conf_written name t w (write_to_path d.fs t path (conf_file name) f)

  -- The body of the request is the configuration.
  unfoldable pub post_user_custom_conf : Text → Text → Text → World d → Served d
  post_user_custom_conf id name t w =
      let user = get_user_info_by_id d.gorm id w.db in
      if is_empty name
      then replied (reply client_error invalid_params) w
      else if user.id == 0
      then replied (reply service_error user_not_exist) w
      else conf_dir_made name t (user_dir d user.id) w
          (is_not_exist_mk_dir d.fs (user_dir d user.id) w.files)
