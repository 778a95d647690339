-- ===== src/Route/Register.antt =====
-- `PostUserRegister` and `GetUserStatus` of route/v1/user.go: the first account over the network.
pub mod Keyed
use casa_os_user_service.Common.{
  ℕ, ◌+◌, Bool, true, false, not, ◌&&◌, ◌||◌, List, [], ◌∷◌, ◌++◌, length, ltb, ◌==◌, if◌then◌else◌,
  reject,
}
use casa_os_user_service.Common.Text.{Text, bytes, text_eq, is_empty}
use casa_os_user_service.Disk.{mk_dir}
use casa_os_user_service.Encryption.{hash_password}
use casa_os_user_service.Users.Database.{UserDbModel}
use casa_os_user_service.Users.{create_user, get_user_count, get_user_info_by_user_name}
use casa_os_user_service.Route.{
  Deps, World, Json, Response, Code, http, reply, reply_ok, user_dir, text, nothing, init_status,
  success, client_error, service_error, invalid_params, key_not_exist, pwd_is_too_simple,
  user_exist,
}
use casa_os_user_service.Route.FirstAdmin.{first_admin_local, new_admin}
use casa_os_user_service.Route.LoginStyle.{login_style}

abbrev pub has_key : Text → List Text → Bool
has_key key [] = false
has_key key (k ∷ ks) = text_eq k key || has_key key ks

-- delete(m, key)
abbrev pub drop_key : Text → List Text → List Text
drop_key key = reject (λ k. text_eq k key)

module _ (d : Deps) where
  abbrev pub refused_on_the_web : Response
  refused_on_the_web = record {
    status = http 403;
    success = key_not_exist;
    message =
        text (
          bytes
            "the first account is created on the machine: casaos-user-service -bootstrap-admin");
    body = nothing;
  }

  abbrev pub registered : Text → World d → UserDbModel × d.gorm.State → Response × World d
  registered key w (user, s) =
      if user.id == 0 then (reply service_error service_error, record w { db = s }) else (
        reply success success,
        record w {
          db = s;
          files = (mk_dir d.fs (user_dir d user.id) w.files).1;
          user_register_hash = drop_key key w.user_register_hash;
        },
      )

  unfoldable pub register_fields : Text → Text → Text → Text → World d → Response × World d
  register_fields salt username pwd key w =
      if not (has_key key w.user_register_hash)
      then (reply client_error key_not_exist, w)
      else if is_empty username || is_empty pwd
      then (reply client_error invalid_params, w)
      else if ltb (length pwd) 6
      then (reply client_error pwd_is_too_simple, w)
      else if ltb 0 (get_user_info_by_user_name d.gorm username w.db).id
      then (reply client_error user_exist, w)
      else registered key w
          (create_user d.gorm (new_admin username (hash_password d.crypto salt pwd)) w.db)

  unfoldable pub post_user_register : Text → Json → World d → Response × World d
  post_user_register salt json w =
      if first_admin_local d
      then (refused_on_the_web, w)
      else register_fields salt (json "username") (json "password") (json "key") w

  abbrev pub first_admin_place : Text
  first_admin_place = if first_admin_local d then bytes "local" else bytes "web"

  abbrev pub status_reply : Bool → Text → ℕ → World d → Response
  status_reply initialized key gpus w =
      reply_ok (init_status first_admin_place initialized key gpus (login_style d w.files))

  -- The key is a fresh UUID, and `gpus` how many graphics cards were found.
  unfoldable pub get_user_status : Text → ℕ → World d → Response × World d
  get_user_status key gpus w =
      if ltb 0 (get_user_count d.gorm w.db)
      then (status_reply true [] gpus w, w)
      else if first_admin_local d
      then (status_reply false [] gpus w, w)
      else (
        status_reply false key gpus w,
        record w { user_register_hash = key ∷ w.user_register_hash },
      )
