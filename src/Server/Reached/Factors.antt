-- ===== src/Server/Reached/Factors.antt =====
-- The second-factor handlers act by statements.
use casa_os_user_service.Common.{ℕ, Bool, true, false, not, ◌||◌, Option, none, some, List, ◌==◌}
use casa_os_user_service.Common.Text.{Text, is_empty}
use casa_os_user_service.Common.Int.{ℤ, pos}
use casa_os_user_service.Totp.{Draw, verify_totp, new_recovery_codes, consume_recovery_code}
use casa_os_user_service.Users.Database.{UserDbModel}
use casa_os_user_service.Users.Statements.{
  perform, consumes_step, replaces_codes, sets_pending, enables, disables,
}
use casa_os_user_service.Users.{
  use_codes, replace_if, use_recovery_code, get_user_all_info_by_id, enable_user_totp,
  disable_user_totp,
}
use casa_os_user_service.Route.{Deps, World, Json, Response, Result, ok, err, allow_user}
use casa_os_user_service.Route.TwoFactor.{
  if_won, consume_checked, verify_factor, if_allowed, verify_row, verify_claims,
  post_user_2fa_verify, store_key, setup_checked, setup_row, post_user_2fa_setup, enable_outcome,
  enable_with_codes, enable_verified, enable_checked, enable_row, post_user_2fa_enable,
  disable_checked, both_or_neither, disable_row, post_user_2fa_disable, parse_pre_auth_token,
}
use casa_os_user_service.Server.Reached.{Reaches, stays, performs, Acts, if-Acts, answers}

module _ (d : Deps) where
  replace_if-Reaches :
      (id : ℕ) (prev : List Text) (r : List Text × Bool) (s : d.gorm.State)
      → Reaches d s (replace_if d.gorm id prev r s).1
  unfolding perform
  replace_if-Reaches id prev (remaining, true) s =
      performs d (replaces_codes id prev remaining) s tt
  replace_if-Reaches id prev (remaining, false) s = stays d s

  use_codes-Reaches :
      (id : ℕ) (code : Text) (row : Option UserDbModel) (s : d.gorm.State)
      → Reaches d s (use_codes d.gorm d.otp id code row s).1
  use_codes-Reaches id code none s = stays d s
  use_codes-Reaches id code (some user) s =
      replace_if-Reaches id user.recovery_codes
        (consume_recovery_code d.otp user.recovery_codes code) s

  consume_checked-Acts :
      (now : ℕ) (user : UserDbModel) (w : World d) (r : ℤ × Bool)
      → Acts d w.db (consume_checked d now user w r)
  unfolding perform
  consume_checked-Acts now user w (next, true) = record {
    acts = performs d (consumes_step user.id next) w.db tt;
  }
  consume_checked-Acts now user w (next, false) = record { acts = stays d w.db }

  recovered-Acts :
      (id : ℕ) (code : Text) (w : World d) (refusal answer : Response)
      → Acts d w.db (if_won d w refusal answer (use_recovery_code d.gorm d.otp id code w.db))
  unfolding use_recovery_code
  recovered-Acts id code w refusal answer = record {
    acts = use_codes-Reaches id code (d.gorm.first (λ r. r.id == id) w.db) w.db;
  }

  verify_factor-Acts :
      (now : ℕ) (json : Json) (user : UserDbModel) (w : World d)
      → Acts d w.db (verify_factor d now json user w)
  unfolding verify_factor
  verify_factor-Acts now json user w = search (
    if-Acts,
    consume_checked-Acts now user w,
    recovered-Acts user.id (json "recovery_code") w,
    answers,
  )

  if_allowed-Acts :
      (id now : ℕ) (w : World d) (k : World d → Response × World d)
      → ((w' : World d) → Acts d w'.db (k w'))
      → Acts d w.db (if_allowed d (allow_user d id now w) k)
  unfolding allow_user
  if_allowed-Acts id now w k h =
      if-Acts d w.db (allow_user d id now w).0 (k (allow_user d id now w).1) _
        (h (allow_user d id now w).1) (record { acts = stays d w.db })

  verify_row-Acts :
      (now : ℕ) (json : Json) (user : UserDbModel) (w : World d)
      → Acts d w.db (verify_row d now json user w)
  unfolding verify_row
  verify_row-Acts now json user w =
      if-Acts d w.db (user.id == 0 || not user.totp_enabled) _ _ (answers d w _) (
        if_allowed-Acts user.id now w (verify_factor d now json user)
          (λ w'. verify_factor-Acts now json user w'))

  verify_claims-Acts :
      (now : ℕ) (json : Json) (w : World d) (r : Result d.jwt.Claims)
      → Acts d w.db (verify_claims d now json w r)
  verify_claims-Acts now json w (err e) = record { acts = stays d w.db }
  verify_claims-Acts now json w (ok claims) = verify_row-Acts now json _ w

  pub post_user_2fa_verify-Acts :
      (now : ℕ) (json : Json) (w : World d) → Acts d w.db (post_user_2fa_verify d now json w)
  unfolding post_user_2fa_verify
  post_user_2fa_verify-Acts now json w =
      verify_claims-Acts now json w (parse_pre_auth_token d now (json "pre_auth_token"))

  store_key-Acts :
      (user : UserDbModel) (w : World d) (r : Result (Text × Text))
      → Acts d w.db (store_key d user w r)
  unfolding perform
  store_key-Acts user w (err e) = record { acts = stays d w.db }
  store_key-Acts user w (ok (secret, url)) = record {
    acts = performs d (sets_pending user.id secret) w.db tt;
  }

  setup_checked-Acts :
      (generate : Text → Result (Text × Text)) (json : Json) (user : UserDbModel) (w : World d)
      → Acts d w.db (setup_checked d generate json user w)
  unfolding setup_checked
  setup_checked-Acts generate json user w = search (if-Acts, store_key-Acts user w, answers)

  setup_row-Acts :
      (now : ℕ) (generate : Text → Result (Text × Text)) (json : Json) (user : UserDbModel)
      (w : World d)
      → Acts d w.db (setup_row d now generate json user w)
  unfolding setup_row
  setup_row-Acts now generate json user w = if-Acts d w.db (user.id == 0) _ _ (answers d w _) (
      if-Acts d w.db user.totp_enabled _ _ (answers d w _)
        (if-Acts d w.db (is_empty (json "password")) _ _ (answers d w _) go))
    where
      go :
          Acts d w.db
            (if_allowed d (allow_user d user.id now w) (setup_checked d generate json user))
      go =
          if_allowed-Acts user.id now w (setup_checked d generate json user)
            (setup_checked-Acts generate json user)

  pub post_user_2fa_setup-Acts :
      (now : ℕ) (generate : Text → Result (Text × Text)) (id : Text) (json : Json) (w : World d)
      → Acts d w.db (post_user_2fa_setup d now generate id json w)
  unfolding post_user_2fa_setup
  post_user_2fa_setup-Acts now generate id json w =
      setup_row-Acts now generate json (get_user_all_info_by_id d.gorm id w.db) w

  enable_outcome-Acts :
      (user : UserDbModel) (w : World d) (plain : List Text) (r : Bool × d.gorm.State)
      → Reaches d w.db r.1
      → Acts d w.db (enable_outcome d user w plain r)
  enable_outcome-Acts user w plain (true, s) h = record { acts = h }
  enable_outcome-Acts user w plain (false, s) h = record { acts = h }

  enable_with_codes-Acts :
      (user : UserDbModel) (step : ℤ) (w : World d) (failure : Text)
      (codes : Option (List Text × List Text))
      → Acts d w.db (enable_with_codes d user step w failure codes)
  unfolding perform
  enable_with_codes-Acts user step w failure none = record { acts = stays d w.db }
  enable_with_codes-Acts user step w failure (some (plain, hashes)) =
      enable_outcome-Acts user w plain
        (enable_user_totp d.gorm user.id user.totp_secret step hashes w.db)
        (performs d (enables user.id user.totp_secret step hashes) w.db tt)

  enable_verified-Acts :
      (draws : List Draw) (failure : Text) (user : UserDbModel) (w : World d) (r : ℤ × Bool)
      → Acts d w.db (enable_verified d draws failure user w r)
  enable_verified-Acts draws failure user w (step, true) =
      enable_with_codes-Acts user step w failure (new_recovery_codes d.otp draws)
  enable_verified-Acts draws failure user w (step, false) = record { acts = stays d w.db }

  enable_checked-Acts :
      (now : ℕ) (draws : List Draw) (failure : Text) (json : Json) (user : UserDbModel)
      (w : World d)
      → Acts d w.db (enable_checked d now draws failure json user w)
  unfolding enable_checked
  enable_checked-Acts now draws failure json user w =
      enable_verified-Acts draws failure user w
        (verify_totp d.otp user.totp_secret (json "code") (pos 0) now)

  enable_row-Acts :
      (now : ℕ) (draws : List Draw) (failure : Text) (json : Json) (user : UserDbModel)
      (w : World d)
      → Acts d w.db (enable_row d now draws failure json user w)
  unfolding enable_row
  enable_row-Acts now draws failure json user w =
      if-Acts d w.db (user.id == 0) _ _ (answers d w _) (
        if-Acts d w.db user.totp_enabled _ _ (answers d w _)
          (if-Acts d w.db (is_empty user.totp_secret) _ _ (answers d w _) go))
    where
      go :
          Acts d w.db (
            if_allowed d
              (allow_user d user.id now w)
              (enable_checked d now draws failure json user))
      go =
          if_allowed-Acts user.id now w (enable_checked d now draws failure json user)
            (enable_checked-Acts now draws failure json user)

  pub post_user_2fa_enable-Acts :
      (now : ℕ) (draws : List Draw) (failure id : Text) (json : Json) (w : World d)
      → Acts d w.db (post_user_2fa_enable d now draws failure id json w)
  unfolding post_user_2fa_enable
  post_user_2fa_enable-Acts now draws failure id json w =
      enable_row-Acts now draws failure json (get_user_all_info_by_id d.gorm id w.db) w

  disabled-Acts :
      (user : UserDbModel) (w : World d) (refusal answer : Response)
      → Acts d w.db
          (if_won d w refusal answer (disable_user_totp d.gorm user.id user.totp_secret w.db))
  unfolding perform
  disabled-Acts user w refusal answer = record {
    acts = performs d (disables user.id user.totp_secret) w.db tt;
  }

  disable_checked-Acts :
      (now : ℕ) (json : Json) (user : UserDbModel) (w : World d)
      → Acts d w.db (disable_checked d now json user w)
  unfolding disable_checked
  disable_checked-Acts now json user w = search (if-Acts, disabled-Acts user w, answers)

  disable_row-Acts :
      (now : ℕ) (json : Json) (user : UserDbModel) (w : World d)
      → Acts d w.db (disable_row d now json user w)
  unfolding disable_row
  disable_row-Acts now json user w = if-Acts d w.db (user.id == 0) _ _ (answers d w _) (
      if-Acts d w.db (not user.totp_enabled) _ _ (answers d w _)
        (if-Acts d w.db (both_or_neither d (json "code") (json "password")) _ _ (answers d w _) go))
    where
      go : Acts d w.db (if_allowed d (allow_user d user.id now w) (disable_checked d now json user))
      go =
          if_allowed-Acts user.id now w (disable_checked d now json user)
            (disable_checked-Acts now json user)

  pub post_user_2fa_disable-Acts :
      (now : ℕ) (id : Text) (json : Json) (w : World d)
      → Acts d w.db (post_user_2fa_disable d now id json w)
  unfolding post_user_2fa_disable
  post_user_2fa_disable-Acts now id json w =
      disable_row-Acts now json (get_user_all_info_by_id d.gorm id w.db) w
