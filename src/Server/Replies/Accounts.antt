-- ===== src/Server/Replies/Accounts.antt =====
-- The replies about accounts.
use casa_os_user_service.Common.{
  ℕ, ◌≡◌, refl, sym, Bool, true, false, not, ◌&&◌, ◌||◌, [], ◌==◌, ltb, length,
}
use casa_os_user_service.Common.Text.{Text, bytes, is_empty}
use casa_os_user_service.Encryption.{hash_password}
use casa_os_user_service.Users.Database.{UserDbModel, Outcome, failed, affected}
use casa_os_user_service.Users.{
  select_info, create_user, get_user_count, get_user_info_by_user_name, get_user_info_by_id,
  get_user_all_info_by_id, update_user_password,
}
use casa_os_user_service.Route.{
  Deps, World, Json, Result, ok, err, success, client_error, service_error, http, invalid_params,
  user_exist, user_not_exist, user_not_exist_or_pwd_invalid, pwd_invalid_old, pwd_is_too_simple,
  key_not_exist, verification_failure, account, tokens, password_matches,
}
use casa_os_user_service.Route.FirstAdmin.{first_admin_local, new_admin}
use casa_os_user_service.Route.Register.{
  has_key, registered, register_fields, post_user_register, get_user_status, status_reply,
}
use casa_os_user_service.Route.Account.{
  UserJson, bind_user, fill_in, put_user_info, password_written, password_row, put_user_password,
  get_user_info, get_user_info_by_username, get_user_all_username, delete_user, delete_user_all,
}
use casa_os_user_service.Route.Refresh.{refresh_claims, post_user_refresh_token}
use casa_os_user_service.Server.Replies.{
  IsFit, Fits, if-Fits, if-IsFit, reply-IsFit, reply-Fits, reply_ok-IsFit,
}
use casa_os_user_service.Server.Replies.Sessions.{with_tokens-IsFit}

module _ (d : Deps) (sent : Text) where
  registered-Fits :
      (key : Text) (w : World d) (r : UserDbModel × d.gorm.State)
      → Fits d sent (registered d key w r)
  registered-Fits key w (user, s) =
      if-Fits d sent (user.id == 0) _ _ (reply-Fits d sent service_error service_error _ refl)
        (reply-Fits d sent success success _ refl)

  register_fields-Fits :
      (salt username pwd key : Text) (w : World d)
      → Fits d sent (register_fields d salt username pwd key w)
  unfolding register_fields
  register_fields-Fits salt username pwd key w =
      if-Fits d sent (not (has_key key w.user_register_hash)) _ _
        (reply-Fits d sent client_error key_not_exist w refl)
        (if-Fits d sent (is_empty username || is_empty pwd) _ _
          (reply-Fits d sent client_error invalid_params w refl)
          (if-Fits d sent (ltb (length pwd) 6) _ _
            (reply-Fits d sent client_error pwd_is_too_simple w refl)
            (if-Fits d sent (ltb 0 (get_user_info_by_user_name d.gorm username w.db).id) _ _
              (reply-Fits d sent client_error user_exist w refl)
              (registered-Fits key w
                (create_user d.gorm (new_admin username (hash_password d.crypto salt pwd)) w.db)))))

  pub post_user_register-Fits :
      (salt : Text) (json : Json) (w : World d) → Fits d sent (post_user_register d salt json w)
  unfolding post_user_register
  post_user_register-Fits salt json w =
      if-Fits d sent (first_admin_local d) _ _
        (record { fits = record { status = refl; body = tt } })
        (register_fields-Fits salt (json "username") (json "password") (json "key") w)

  status_reply-IsFit :
      (initialized : Bool) (key : Text) (gpus : ℕ) (w : World d)
      → IsFit sent (status_reply d initialized key gpus w)
  status_reply-IsFit initialized key gpus w = record { status = refl; body = refl }

  pub get_user_status-Fits :
      (key : Text) (gpus : ℕ) (w : World d) → Fits d sent (get_user_status d key gpus w)
  unfolding get_user_status
  get_user_status-Fits key gpus w =
      if-Fits d sent (ltb 0 (get_user_count d.gorm w.db)) _ _
        (record { fits = status_reply-IsFit true [] gpus w })
        (if-Fits d sent (first_admin_local d) _ _
          (record { fits = status_reply-IsFit false [] gpus w })
          (record { fits = status_reply-IsFit false key gpus w }))

  password_written-Fits :
      (user : UserDbModel) (w : World d) (r : Outcome × d.gorm.State)
      → sent ≡ []
      → Fits d sent (password_written d user w r)
  password_written-Fits user w (failed e, s) h = record {
    fits = record { status = refl; body = tt };
  }
  password_written-Fits user w (affected n, s) h = record {
    fits = reply_ok-IsFit d sent _ (refl, sym h);
  }

  password_row-Fits :
      (salt old_pwd pwd : Text) (user : UserDbModel) (w : World d)
      → sent ≡ []
      → Fits d sent (password_row d salt old_pwd pwd user w)
  unfolding password_row
  password_row-Fits salt old_pwd pwd user w h =
      let changed = record user { password = hash_password d.crypto salt pwd } in
      if-Fits d sent (user.id == 0) _ _ (reply-Fits d sent service_error user_not_exist w refl) (
        if-Fits d sent (password_matches d user.password old_pwd) _ _
          (password_written-Fits changed w (update_user_password d.gorm changed w.db) h)
          (reply-Fits d sent client_error pwd_invalid_old w refl))

  pub put_user_password-Fits :
      (salt id : Text) (json : Json) (w : World d)
      → sent ≡ []
      → Fits d sent (put_user_password d salt id json w)
  unfolding put_user_password
  put_user_password-Fits salt id json w h =
      if-Fits d sent (is_empty (json "old_password") || is_empty (json "password")) _ _
        (reply-Fits d sent client_error invalid_params w refl)
        (password_row-Fits salt (json "old_password") (json "password")
          (get_user_all_info_by_id d.gorm id w.db) w h)

  pub get_user_info-IsFit :
      (id : Text) (w : World d) → sent ≡ [] → IsFit sent (get_user_info d id w)
  unfolding get_user_info get_user_info_by_id select_info
  get_user_info-IsFit id w h = reply_ok-IsFit d sent _ (refl, sym h)

  pub get_user_info_by_username-IsFit :
      (name : Text) (w : World d) → sent ≡ [] → IsFit sent (get_user_info_by_username d name w)
  unfolding get_user_info_by_username get_user_info_by_user_name select_info
  get_user_info_by_username-IsFit name w h =
      let user = get_user_info_by_user_name d.gorm name w.db in
      if-IsFit d sent (is_empty name) _ _ (reply-IsFit d sent client_error invalid_params refl) (
        if-IsFit d sent (user.id == 0) _ _ (reply-IsFit d sent service_error user_not_exist refl)
          (reply_ok-IsFit d sent (account user) (refl, sym h)))

  pub get_user_all_username-IsFit : (w : World d) → IsFit sent (get_user_all_username d w)
  unfolding get_user_all_username
  get_user_all_username-IsFit w = reply_ok-IsFit d sent _ refl

  pub delete_user-Fits : (id : Text) (w : World d) → Fits d sent (delete_user d id w)
  unfolding delete_user
  delete_user-Fits id w = record { fits = reply_ok-IsFit d sent _ tt }

  pub delete_user_all-Fits : (w : World d) → Fits d sent (delete_user_all d w)
  unfolding delete_user_all
  delete_user_all-Fits w = reply-Fits d sent success success _ refl

  refresh_claims-IsFit : (now : ℕ) (r : Result d.jwt.Claims) → IsFit sent (refresh_claims d now r)
  refresh_claims-IsFit now (err e) = record { status = refl; body = tt }
  refresh_claims-IsFit now (ok claims) =
      if-IsFit d sent
        (not (d.jwt.verify_expires_at claims now)
          || not (d.jwt.verify_issuer claims (bytes "refresh")))
        _ _ (reply-IsFit d sent (http 401) verification_failure refl)
        (with_tokens-IsFit d sent now (d.jwt.username claims) (d.jwt.id claims) _ _
          (λ t. reply_ok-IsFit d sent (tokens t) refl))

  pub post_user_refresh_token-IsFit :
      (now : ℕ) (json : Json) → IsFit sent (post_user_refresh_token d now json)
  unfolding post_user_refresh_token
  post_user_refresh_token-IsFit now json = refresh_claims-IsFit now _

-- The profile that is sent back has the password that it was sent with.
pub put_user_info-Fits :
    (d : Deps) (id : Text) (json : UserJson) (w : World d)
    → Fits d json.password (put_user_info d id json w)
unfolding put_user_info get_user_info_by_id bind_user fill_in get_user_info_by_user_name
put_user_info-Fits d id json w =
    let user = get_user_info_by_id d.gorm id w.db in
    if-Fits d json.password (user.id == 0) _ _
      (reply-Fits d json.password service_error user_not_exist_or_pwd_invalid w refl)
      (if-Fits d json.password
        (not (is_empty json.username)
          && ltb 0 (get_user_info_by_user_name d.gorm (bind_user json).username w.db).id)
        _ _ (reply-Fits d json.password client_error user_exist w refl)
        (record { fits = reply_ok-IsFit d json.password _ (refl, refl) }))
