-- ===== src/Server/Reached/Handlers.antt =====
-- The handlers of accounts act by statements.
use casa_os_user_service.Common.{
  ℕ, refl, Bool, true, false, not, ◌&&◌, ◌||◌, ◌==◌, ltb, length, Bool-cases, inl, inr,
}
use casa_os_user_service.Common.Text.{Text, is_empty}
use casa_os_user_service.Common.Decimal.{itoa}
use casa_os_user_service.Encryption.{hash_password, needs_rehash}
use casa_os_user_service.Users.Database.{UserDbModel, Outcome, failed, affected}
use casa_os_user_service.Users.Statements.{
  perform, creates, updates_info, updates_password, deletes_all, deletes, replaces_hash,
  clears_pending,
}
use casa_os_user_service.Users.{
  create_user, get_user_count, get_user_info_by_user_name, get_user_info_by_id,
  get_user_all_info_by_id, get_user_all_info_by_name, clear_pending_totp, update_user_password,
}
use casa_os_user_service.Route.{Deps, World, Json, password_matches}
use casa_os_user_service.Route.FirstAdmin.{first_admin_local, new_admin}
use casa_os_user_service.Route.Register.{
  has_key, registered, register_fields, post_user_register, get_user_status,
}
use casa_os_user_service.Route.Login.{
  upgrade_password, after_clear, login_matched, login_row, login_fields, post_user_login,
}
use casa_os_user_service.Route.Account.{
  UserJson, bind_user, fill_in, put_user_info, password_written, password_row, put_user_password,
  delete_user, delete_user_all,
}
use casa_os_user_service.Server.Reached.{
  Reaches, stays, performs, then-Reaches, Acts, if-Acts, answers,
}

module _ (d : Deps) where
  registered-Acts :
      (key : Text) (w : World d) (r : UserDbModel × d.gorm.State)
      → Reaches d w.db r.1
      → Acts d w.db (registered d key w r)
  registered-Acts key w (user, s) h =
      if-Acts d w.db (user.id == 0) _ _ (record { acts = h }) (record { acts = h })

  register_fields-Acts :
      (salt username pwd key : Text) (w : World d)
      → Acts d w.db (register_fields d salt username pwd key w)
  unfolding register_fields perform
  register_fields-Acts salt username pwd key w =
      let admin = new_admin username (hash_password d.crypto salt pwd) in
      let go =
        registered-Acts key w (create_user d.gorm admin w.db)
          (performs d (creates admin) w.db refl) in
      if-Acts d w.db (not (has_key key w.user_register_hash)) _ _ (answers d w _) (
        if-Acts d w.db (is_empty username || is_empty pwd) _ _ (answers d w _) (
          if-Acts d w.db (ltb (length pwd) 6) _ _ (answers d w _) (
            if-Acts d w.db (ltb 0 (get_user_info_by_user_name d.gorm username w.db).id) _ _
              (answers d w _) go)))

  pub post_user_register-Acts :
      (salt : Text) (json : Json) (w : World d) → Acts d w.db (post_user_register d salt json w)
  unfolding post_user_register
  post_user_register-Acts salt json w =
      if-Acts d w.db (first_admin_local d) _ _ (answers d w _)
        (register_fields-Acts salt (json "username") (json "password") (json "key") w)

  pub get_user_status-Acts :
      (key : Text) (gpus : ℕ) (w : World d) → Acts d w.db (get_user_status d key gpus w)
  unfolding get_user_status
  get_user_status-Acts key gpus w =
      if-Acts d w.db (ltb 0 (get_user_count d.gorm w.db)) _ _ (answers d w _)
        (if-Acts d w.db (first_admin_local d) _ _ (answers d w _) (record { acts = stays d w.db }))

  upgrade_password-Reaches :
      (salt : Text) (user : UserDbModel) (password : Text) (s : d.gorm.State)
      → Reaches d s (upgrade_password d salt user password s)
  unfolding upgrade_password perform
  upgrade_password-Reaches salt user password s =
      elim (Bool-cases (needs_rehash d.crypto user.password)) [
        | inl due ↦ rw due (
            performs d (replaces_hash user.id user.password (hash_password d.crypto salt password))
              s tt)
        | inr current ↦ rw current (stays d s)
      ]

  after_clear-Reaches :
      (now : ℕ) (user : UserDbModel) (s : d.gorm.State) (r : Bool × d.gorm.State)
      → Reaches d s r.1
      → Reaches d s (after_clear d now user r).1
  after_clear-Reaches now user s (true, t) h = h
  after_clear-Reaches now user s (false, t) h =
      elim (Bool-cases ((get_user_all_info_by_id d.gorm (itoa user.id) t).id == 0)) [
        | inl gone ↦ rw gone h
        | inr here ↦ rw here h
      ]

  login_matched-Reaches :
      (now : ℕ) (user : UserDbModel) (s : d.gorm.State) → Reaches d s (login_matched d now user s).1
  unfolding login_matched perform
  login_matched-Reaches now user s =
      elim (Bool-cases (not user.totp_enabled && not (is_empty user.totp_secret))) [
        | inl pending ↦ rw pending (
            after_clear-Reaches now user s (clear_pending_totp d.gorm user.id user.totp_secret s)
              (performs d (clears_pending user.id user.totp_secret) s tt))
        | inr settled ↦ rw settled (stays d s)
      ]

  login_row-Reaches :
      (now : ℕ) (salt password : Text) (user : UserDbModel) (s : d.gorm.State)
      → Reaches d s (login_row d now salt password user s).1
  unfolding login_row
  login_row-Reaches now salt password user s = elim (Bool-cases (user.id == 0)) [
    | inl gone ↦ rw gone (stays d s)
    | inr here ↦ elim (Bool-cases (password_matches d user.password password)) [
      | inr other ↦ rw (here, other) (stays d s)
      | inl same ↦
          rw (here, same)
            (then-Reaches d s (upgrade_password d salt user password s) _
              (upgrade_password-Reaches salt user password s)
              (login_matched-Reaches now user (upgrade_password d salt user password s)))
    ]
  ]

  login_fields-Reaches :
      (now : ℕ) (salt username password : Text) (s : d.gorm.State)
      → Reaches d s (login_fields d now salt username password s).1
  unfolding login_fields
  login_fields-Reaches now salt username password s =
      elim (Bool-cases (is_empty username || is_empty password)) [
        | inl lacking ↦ rw lacking (stays d s)
        | inr given ↦
            rw given
              (login_row-Reaches now salt password (get_user_all_info_by_name d.gorm username s) s)
      ]

  pub post_user_login-Acts :
      (now : ℕ) (salt : Text) (json : Json) (w : World d)
      → Acts d w.db (post_user_login d now salt json w)
  unfolding post_user_login
  post_user_login-Acts now salt json w =
      if-Acts d w.db (d.rate.allow w.login_limiter now).0 _ _
        (record { acts = login_fields-Reaches now salt (json "username") (json "password") w.db })
        (record { acts = stays d w.db })

  pub put_user_info-Acts :
      (id : Text) (json : UserJson) (w : World d) → Acts d w.db (put_user_info d id json w)
  unfolding put_user_info perform get_user_info_by_id bind_user fill_in get_user_info_by_user_name
  put_user_info-Acts id json w =
      let user = get_user_info_by_id d.gorm id w.db in
      if-Acts d w.db (user.id == 0) _ _ (answers d w _) (
        if-Acts d w.db
          (not (is_empty json.username)
            && ltb 0 (get_user_info_by_user_name d.gorm (bind_user json).username w.db).id)
          _ _ (answers d w _)
          (record { acts = performs d (updates_info (fill_in user (bind_user json))) w.db tt }))

  password_written-Acts :
      (user : UserDbModel) (w : World d) (r : Outcome × d.gorm.State)
      → Reaches d w.db r.1
      → Acts d w.db (password_written d user w r)
  password_written-Acts user w (failed e, s) h = record { acts = h }
  password_written-Acts user w (affected n, s) h = record { acts = h }

  password_row-Acts :
      (salt old_pwd pwd : Text) (user : UserDbModel) (w : World d)
      → Acts d w.db (password_row d salt old_pwd pwd user w)
  unfolding password_row perform
  password_row-Acts salt old_pwd pwd user w =
      let changed = record user { password = hash_password d.crypto salt pwd } in
      if-Acts d w.db (user.id == 0) _ _ (answers d w _) (
        if-Acts d w.db (password_matches d user.password old_pwd) _ _
          (password_written-Acts changed w (update_user_password d.gorm changed w.db)
            (performs d (updates_password changed) w.db tt))
          (answers d w _))

  pub put_user_password-Acts :
      (salt id : Text) (json : Json) (w : World d)
      → Acts d w.db (put_user_password d salt id json w)
  unfolding put_user_password
  put_user_password-Acts salt id json w =
      if-Acts d w.db (is_empty (json "old_password") || is_empty (json "password")) _ _
        (answers d w _)
        (password_row-Acts salt (json "old_password") (json "password")
          (get_user_all_info_by_id d.gorm id w.db) w)

  pub delete_user-Acts : (id : Text) (w : World d) → Acts d w.db (delete_user d id w)
  unfolding delete_user perform
  delete_user-Acts id w = record { acts = performs d (deletes id) w.db tt }

  pub delete_user_all-Acts : (w : World d) → Acts d w.db (delete_user_all d w)
  unfolding delete_user_all perform
  delete_user_all-Acts w = record { acts = performs d deletes_all w.db tt }
