-- ===== src/Route/Login/Guarded.antt =====
-- A login does no harm to an enrolment that it has not seen: the pending secret that it clears and
-- the hash that it upgrades are those of the row that it read.
use casa_os_user_service.Common.{ℕ, Bool, true, false, List, not, ◌&&◌, ◌==◌, Bool-cases, inl, inr}
use casa_os_user_service.Common.Text.{Text, is_empty}
use casa_os_user_service.Common.Decimal.{itoa}
use casa_os_user_service.Common.Int.{ℤ}
use casa_os_user_service.Encryption.{hash_password, needs_rehash}
use casa_os_user_service.Users.Database.{UserDbModel, IsLawful}
use casa_os_user_service.Users.Statements.{perform, replaces_hash, clears_pending}
use casa_os_user_service.Users.Enrolment.{Enrolled, taken_off, perform-Enrolled}
use casa_os_user_service.Users.{clear_pending_totp, get_user_all_info_by_id}
use casa_os_user_service.Route.{Deps, password_matches}
use casa_os_user_service.Route.Login.{after_clear, login_matched, login_row, upgrade_password}

module _ (d : Deps) (law : IsLawful d.gorm) (i : ℕ) (secret : Text) (step : ℤ)
    (codes : List Text) where
  abbrev pub Safe : d.gorm.State → Type 0
  Safe = Enrolled taken_off d.gorm law i secret step codes

  upgrade_password-Safe :
      (salt : Text) (user : UserDbModel) (password : Text) (s : d.gorm.State)
      → Safe s
      → Safe (upgrade_password d salt user password s)
  unfolding upgrade_password perform
  upgrade_password-Safe salt user password s v =
      elim (Bool-cases (needs_rehash d.crypto user.password)) [
        | inl due ↦ rw due (
            perform-Enrolled taken_off d.gorm law i secret step codes
              (replaces_hash user.id user.password (hash_password d.crypto salt password)) s tt v)
        | inr current ↦ rw current v
      ]

  after_clear-Safe :
      (now : ℕ) (user : UserDbModel) (r : Bool × d.gorm.State)
      → Safe r.1
      → Safe (after_clear d now user r).1
  after_clear-Safe now user (true, s) v = v
  after_clear-Safe now user (false, s) v =
      elim (Bool-cases ((get_user_all_info_by_id d.gorm (itoa user.id) s).id == 0)) [
        | inl gone ↦ rw gone v
        | inr here ↦ rw here v
      ]

  login_matched-Safe :
      (now : ℕ) (user : UserDbModel) (s : d.gorm.State)
      → Safe s
      → Safe (login_matched d now user s).1
  unfolding login_matched perform
  login_matched-Safe now user s v =
      elim (Bool-cases (not user.totp_enabled && not (is_empty user.totp_secret))) [
        | inl pending ↦ rw pending (
            after_clear-Safe now user (clear_pending_totp d.gorm user.id user.totp_secret s) (
              perform-Enrolled taken_off d.gorm law i secret step codes
                (clears_pending user.id user.totp_secret) s tt v))
        | inr settled ↦ rw settled v
      ]

  -- A login, whatever row it read and however the table has moved on since, leaves an enrolment
  -- that is in force in force.
  pub login_row-Enrolled :
      (now : ℕ) (salt password : Text) (user : UserDbModel) (s : d.gorm.State)
      → Safe s
      → Safe (login_row d now salt password user s).1
  unfolding login_row
  login_row-Enrolled now salt password user s v = elim (Bool-cases (user.id == 0)) [
    | inl gone ↦ rw gone v
    | inr here ↦ elim (Bool-cases (password_matches d user.password password)) [
      | inl same ↦
          rw (here, same)
            (login_matched-Safe now user _ (upgrade_password-Safe salt user password s v))
      | inr other ↦ rw (here, other) v
    ]
  ]
