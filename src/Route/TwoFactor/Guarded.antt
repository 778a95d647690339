-- ===== src/Route/TwoFactor/Guarded.antt =====
-- What the handlers may do to an enrolment that they have not seen: a handler reads the row once,
-- and by the time that it writes, the account may have been enrolled by a concurrent request.
use mathlib.Core.List.{Sublist}
use casa_os_user_service.Common.{
  ℕ, ◌≡◌, ◌≢◌, refl, ◌⊎◌, Bool, true, false, not, ◌||◌, Option, none, some, List, ◌==◌,
  if◌then◌else◌, arith,
}
use casa_os_user_service.Common.Text.{Text}
use casa_os_user_service.Common.Int.{ℤ, pos}
use casa_os_user_service.Totp.{Draw, verify_totp, new_recovery_codes, consume_recovery_code}
use casa_os_user_service.Totp.Recovery.{consume_recovery_code-Sublist}
use casa_os_user_service.Users.Database.{UserDbModel, IsLawful}
use casa_os_user_service.Users.Statements.{
  perform, consumes_step, replaces_codes, sets_pending, enables, disables,
}
use casa_os_user_service.Users.Enrolment.{Enrolled, taken_off, perform-Enrolled}
use casa_os_user_service.Users.{
  use_codes, replace_if, use_recovery_code, enable_user_totp, disable_user_totp,
}
use casa_os_user_service.Route.{Deps, World, Json, Response, Result, ok, err, allow_user}
use casa_os_user_service.Route.TwoFactor.{
  if_won, consume_checked, verify_factor, if_allowed, verify_row, store_key, setup_checked,
  setup_row, enable_outcome, enable_with_codes, enable_checked, enable_row, disable_checked,
  disable_row,
}

module _ (d : Deps) (law : IsLawful d.gorm) (i : ℕ) (secret : Text) (step : ℤ)
    (codes : List Text) where
  abbrev pub Safe : d.gorm.State → Type 0
  Safe = Enrolled taken_off d.gorm law i secret step codes

  -- The outcome leaves the enrolment in force.
  pub record Keeps (r : Response × World d) : Type 0 where
    pub kept : Safe r.1.db

  if-Keeps :
      (b : Bool) (x y : Response × World d)
      → Keeps x
      → (b ≡ false → Keeps y)
      → Keeps (if b then x else y)
  if-Keeps true x y v h = v
  if-Keeps false x y v h = h refl

  refused : (w : World d) → Safe w.db → (answer : Response) → Keeps (answer, w)
  refused w v answer = record { kept = v }

  use_codes-Safe :
      (id : ℕ) (code : Text) (row : Option UserDbModel) (s : d.gorm.State)
      → Safe s
      → Safe (use_codes d.gorm d.otp id code row s).1
  unfolding perform
  use_codes-Safe id code none s v = v
  use_codes-Safe id code (some user) s v =
      replaced (consume_recovery_code d.otp user.recovery_codes code) less
    where
      less : Sublist (consume_recovery_code d.otp user.recovery_codes code).0 user.recovery_codes
      less = consume_recovery_code-Sublist d.otp user.recovery_codes code

      replaced :
          (r : List Text × Bool)
          → Sublist r.0 user.recovery_codes
          → Safe (replace_if d.gorm id user.recovery_codes r s).1
      replaced (remaining, true) le =
          perform-Enrolled taken_off d.gorm law i secret step codes
            (replaces_codes id user.recovery_codes remaining) s le v
      replaced (remaining, false) le = v

  consume_checked-Keeps :
      (now : ℕ) (user : UserDbModel) (w : World d) (r : ℤ × Bool)
      → Safe w.db
      → Keeps (consume_checked d now user w r)
  unfolding perform
  consume_checked-Keeps now user w (next, true) v = record {
    kept =
        perform-Enrolled taken_off d.gorm law i secret step codes (consumes_step user.id next) w.db
          tt v;
  }
  consume_checked-Keeps now user w (next, false) v = record { kept = v }

  verify_factor-Keeps :
      (now : ℕ) (json : Json) (user : UserDbModel) (w : World d)
      → Safe w.db
      → Keeps (verify_factor d now json user w)
  unfolding verify_factor use_recovery_code
  verify_factor-Keeps now json user w v =
      search (if-Keeps, consume_checked-Keeps now user w, recovered, refused w v)
    where
      recovered :
          (refusal answer : Response)
          → Keeps (
              if_won d w refusal answer
                (use_recovery_code d.gorm d.otp user.id (json "recovery_code") w.db))
      recovered refusal answer = record {
        kept =
            use_codes-Safe user.id (json "recovery_code") (d.gorm.first (λ r. r.id == user.id) w.db)
              w.db v;
      }

  allowed-Safe : (id now : ℕ) (w : World d) → Safe w.db → Safe (allow_user d id now w).1.db
  unfolding allow_user
  allowed-Safe id now w v = v

  if_allowed-Keeps :
      (id now : ℕ) (w : World d) (k : World d → Response × World d)
      → Safe w.db
      → ((w' : World d) → Safe w'.db → Keeps (k w'))
      → Keeps (if_allowed d (allow_user d id now w) k)
  if_allowed-Keeps id now w k v h = let v' = allowed-Safe id now w v in search (if-Keeps)

  -- A second-factor login, whatever row it read, leaves the enrolment in force.
  pub verify_row-Enrolled :
      (now : ℕ) (json : Json) (user : UserDbModel) (w : World d)
      → Safe w.db
      → Keeps (verify_row d now json user w)
  unfolding verify_row
  verify_row-Enrolled now json user w v = search (if-Keeps, go, refused w v)
    where
      go :
          (user.id == 0 || not user.totp_enabled) ≡ false
          → Keeps (if_allowed d (allow_user d user.id now w) (verify_factor d now json user))
      go _ =
          if_allowed-Keeps user.id now w (verify_factor d now json user) v
            (verify_factor-Keeps now json user)

  store_key-Keeps :
      (user : UserDbModel) (w : World d) (r : Result (Text × Text))
      → Safe w.db
      → Keeps (store_key d user w r)
  unfolding perform
  store_key-Keeps user w (err e) v = record { kept = v }
  store_key-Keeps user w (ok (key, url)) v = record {
    kept =
        perform-Enrolled taken_off d.gorm law i secret step codes (sets_pending user.id key) w.db tt
          v;
  }

  setup_checked-Keeps :
      (generate : Text → Result (Text × Text)) (json : Json) (user : UserDbModel) (w : World d)
      → Safe w.db
      → Keeps (setup_checked d generate json user w)
  unfolding setup_checked
  setup_checked-Keeps generate json user w v =
      search (if-Keeps, store_key-Keeps user w (generate user.username) v, refused w v)

  -- A setup, whatever row it read, leaves the enrolment in force.
  pub setup_row-Enrolled :
      (now : ℕ) (generate : Text → Result (Text × Text)) (json : Json) (user : UserDbModel)
      (w : World d)
      → Safe w.db
      → Keeps (setup_row d now generate json user w)
  unfolding setup_row
  setup_row-Enrolled now generate json user w v = search (if-Keeps, go, refused w v)
    where
      go :
          (user.id == 0) ≡ false
          → Keeps (if_allowed d (allow_user d user.id now w) (setup_checked d generate json user))
      go _ =
          if_allowed-Keeps user.id now w (setup_checked d generate json user) v
            (setup_checked-Keeps generate json user)

  enable_outcome-Keeps :
      (user : UserDbModel) (w : World d) (plain : List Text) (r : Bool × d.gorm.State)
      → Safe r.1
      → Keeps (enable_outcome d user w plain r)
  enable_outcome-Keeps user w plain (true, s) v = record { kept = v }
  enable_outcome-Keeps user w plain (false, s) v = record { kept = v }

  enable_with_codes-Keeps :
      (user : UserDbModel) (next : ℤ) (w : World d) (failure : Text)
      (r : Option (List Text × List Text))
      → Safe w.db
      → Keeps (enable_with_codes d user next w failure r)
  unfolding perform
  enable_with_codes-Keeps user next w failure none v = record { kept = v }
  enable_with_codes-Keeps user next w failure (some (plain, hashes)) v =
      enable_outcome-Keeps user w plain
        (enable_user_totp d.gorm user.id user.totp_secret next hashes w.db)
        (perform-Enrolled taken_off d.gorm law i secret step codes
          (enables user.id user.totp_secret next hashes) w.db tt v)

  enable_checked-Keeps :
      (now : ℕ) (draws : List Draw) (failure : Text) (json : Json) (user : UserDbModel)
      (w : World d)
      → Safe w.db
      → Keeps (enable_checked d now draws failure json user w)
  unfolding enable_checked
  enable_checked-Keeps now draws failure json user w v = search (
    if-Keeps,
    enable_with_codes-Keeps user (verify_totp d.otp user.totp_secret (json "code") (pos 0) now).0 w
        failure (new_recovery_codes d.otp draws) v,
    refused w v,
  )

  -- An enabling request, whatever row it read, leaves the enrolment in force.
  pub enable_row-Enrolled :
      (now : ℕ) (draws : List Draw) (failure : Text) (json : Json) (user : UserDbModel)
      (w : World d)
      → Safe w.db
      → Keeps (enable_row d now draws failure json user w)
  unfolding enable_row
  enable_row-Enrolled now draws failure json user w v = search (if-Keeps, go, refused w v)
    where
      go :
          (user.id == 0) ≡ false
          → Keeps (
              if_allowed d
                (allow_user d user.id now w)
                (enable_checked d now draws failure json user))
      go _ =
          if_allowed-Keeps user.id now w (enable_checked d now draws failure json user) v
            (enable_checked-Keeps now draws failure json user)

  disable_checked-Keeps :
      (now : ℕ) (json : Json) (user : UserDbModel) (w : World d)
      → user.id ≢ 0
      → (user.id ≢ i) ⊎ (user.totp_secret ≢ secret)
      → Safe w.db
      → Keeps (disable_checked d now json user w)
  unfolding disable_checked perform
  disable_checked-Keeps now json user w known other v = search (if-Keeps, done, refused w v)
    where
      done :
          (refusal answer : Response)
          → Keeps
              (if_won d w refusal answer (disable_user_totp d.gorm user.id user.totp_secret w.db))
      done refusal answer = record {
        kept =
            perform-Enrolled taken_off d.gorm law i secret step codes
              (disables user.id user.totp_secret) w.db (known, other) v;
      }

  -- A disabling request that read the row of another user, or that row under another secret,
  -- leaves the enrolment in force.
  pub disable_row-Enrolled :
      (now : ℕ) (json : Json) (user : UserDbModel) (w : World d)
      → (user.id ≢ i) ⊎ (user.totp_secret ≢ secret)
      → Safe w.db
      → Keeps (disable_row d now json user w)
  unfolding disable_row
  disable_row-Enrolled now json user w other v = search (if-Keeps, go, refused w v)
    where
      go :
          (user.id == 0) ≡ false
          → Keeps (if_allowed d (allow_user d user.id now w) (disable_checked d now json user))
      go here =
          if_allowed-Keeps user.id now w (disable_checked d now json user) v
            (λ w' v'. disable_checked-Keeps now json user w' (λ z. ground arith) other v')
