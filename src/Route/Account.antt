-- ===== src/Route/Account.antt =====
-- The account handlers of route/v1/user.go: profile, password, names, deletion.
pub mod Profile
pub mod Password
use casa_os_user_service.Common.{
  ℕ, Bool, true, false, not, ◌&&◌, ◌||◌, List, [], ◌∷◌, map, ltb, ◌==◌, if◌then◌else◌,
}
use casa_os_user_service.Common.Text.{Text, bytes, text_eq, is_empty}
use casa_os_user_service.Encryption.{hash_password}
use casa_os_user_service.Users.Database.{UserDbModel, zero_user, Outcome, failed, affected}
use casa_os_user_service.Users.{
  or_old, update_user, update_user_password, get_user_info_by_id, get_user_all_info_by_id,
  get_user_info_by_user_name, get_all_user_name, delete_user_by_id, delete_all_user,
}
use casa_os_user_service.Route.{
  Deps, World, Json, Response, Code, http, of_code, reply, reply_ok, account, names, detail,
  password_matches, success, client_error, service_error, invalid_params, user_exist,
  user_not_exist, user_not_exist_or_pwd_invalid, pwd_invalid_old,
}

-- What a request body can set of a `UserDBModel`: the 2FA secrets are `json:"-"`.
pub record UserJson : Type 0 where
  pub id : ℕ
  pub username : Text
  pub password : Text
  pub role : Text
  pub email : Text
  pub nickname : Text
  pub avatar : Text
  pub description : Text
  pub totp_enabled : Bool

unfoldable pub bind_user : UserJson → UserDbModel
bind_user j = record zero_user {
  id = j.id;
  username = j.username;
  password = j.password;
  role = j.role;
  email = j.email;
  nickname = j.nickname;
  avatar = j.avatar;
  description = j.description;
  totp_enabled = j.totp_enabled;
}

-- What the request leaves empty is taken from the row; the id, the name, the password and
-- `totp_enabled` stay as the request has them.
unfoldable pub fill_in : UserDbModel → UserDbModel → UserDbModel
fill_in user json = record json {
  email = or_old json.email user.email;
  avatar = or_old json.avatar user.avatar;
  role = or_old json.role user.role;
  description = or_old json.description user.description;
  nickname = or_old json.nickname user.nickname;
}

module _ (d : Deps) where
  unfoldable pub put_user_info : Text → UserJson → World d → Response × World d
  put_user_info id j w =
      let json = bind_user j in
      let user = get_user_info_by_id d.gorm id w.db in
      let updated = fill_in user json in
      if user.id == 0
      then (reply service_error user_not_exist_or_pwd_invalid, w)
      else if not (is_empty json.username)
          && ltb 0 (get_user_info_by_user_name d.gorm json.username w.db).id
      then (reply client_error user_exist, w)
      else (reply_ok (account updated), record w { db = update_user d.gorm updated w.db })

  abbrev pub password_written : UserDbModel → World d → Outcome × d.gorm.State → Response × World d
  password_written user w (failed e, s) =
      (record (reply service_error service_error) { body = detail e }, record w { db = s })
  password_written user w (affected n, s) =
      (reply_ok (account (record user { password = [] })), record w { db = s })

  unfoldable pub password_row : Text → Text → Text → UserDbModel → World d → Response × World d
  password_row salt old_pwd pwd user w =
      if user.id == 0
      then (reply service_error user_not_exist, w)
      else if password_matches d user.password old_pwd
      then (let changed = record user { password = hash_password d.crypto salt pwd } in
          password_written changed w (update_user_password d.gorm changed w.db))
      else (reply client_error pwd_invalid_old, w)

  unfoldable pub put_user_password : Text → Text → Json → World d → Response × World d
  put_user_password salt id json w =
      if is_empty (json "old_password") || is_empty (json "password")
      then (reply client_error invalid_params, w)
      else password_row salt (json "old_password") (json "password")
          (get_user_all_info_by_id d.gorm id w.db) w

  abbrev pub reply_200 : Code → Response
  reply_200 code = reply (http 200) code

  unfoldable pub put_user_nick : Text → Json → World d → Response × World d
  put_user_nick id json w =
      let user = get_user_info_by_id d.gorm id w.db in
      let renamed = record user { nickname = json "nick_name" } in
      if is_empty (json "nick_name")
      then (reply_200 invalid_params, w)
      else if user.id == 0
      then (reply_200 user_not_exist, w)
      else (
        record (reply_200 success) { body = account renamed },
        record w { db = update_user d.gorm renamed w.db },
      )

  unfoldable pub put_user_desc : Text → Json → World d → Response × World d
  put_user_desc id json w =
      let user = get_user_info_by_id d.gorm id w.db in
      let described = record user { description = json "description" } in
      if is_empty (json "description")
      then (reply_200 invalid_params, w)
      else if user.id == 0
      then (reply_200 user_not_exist, w)
      else (
        record (reply_200 success) { body = account described },
        record w { db = update_user d.gorm described w.db },
      )

  unfoldable pub get_user_info : Text → World d → Response
  get_user_info id w = reply_ok (account (get_user_info_by_id d.gorm id w.db))

  unfoldable pub get_user_info_by_username : Text → World d → Response
  get_user_info_by_username username w =
      let user = get_user_info_by_user_name d.gorm username w.db in
      if is_empty username
      then reply client_error invalid_params
      else if user.id == 0
      then reply service_error user_not_exist
      else reply_ok (account user)

  unfoldable pub get_user_all_username : World d → Response
  get_user_all_username w = reply_ok (names (map (λ u. u.username) (get_all_user_name d.gorm w.db)))

  unfoldable pub delete_user : Text → World d → Response × World d
  delete_user id w = (reply_ok (detail id), record w { db = delete_user_by_id d.gorm id w.db })

  unfoldable pub delete_user_all : World d → Response × World d
  delete_user_all w = (reply success success, record w { db = delete_all_user d.gorm w.db })
