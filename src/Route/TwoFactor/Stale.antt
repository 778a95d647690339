-- ===== src/Route/TwoFactor/Stale.antt =====
-- What the four second-factor requests do to an enrolment when the row that they read is stale.
use casa_os_user_service.Common.{◌≡◌, ◌≢◌, ◌⊎◌, inl, inr, ℕ, false, List, ◌==◌, Bool-cases}
use casa_os_user_service.Common.Text.{Text}
use casa_os_user_service.Common.Int.{ℤ}
use casa_os_user_service.Totp.{Draw}
use casa_os_user_service.Users.Database.{UserDbModel, IsLawful}
use casa_os_user_service.Route.{Deps, World, Json, Result}
use casa_os_user_service.Route.TwoFactor.{verify_row, setup_row, enable_row, disable_row}
use casa_os_user_service.Route.TwoFactor.Guarded.{
  Safe, Keeps, verify_row-Enrolled, setup_row-Enrolled, enable_row-Enrolled, disable_row-Enrolled,
}

module _ (d : Deps) (law : IsLawful d.gorm) (i : ℕ) (secret : Text) (step : ℤ)
    (codes : List Text) where
  -- The row is not that of the enrolment: it is of another user, or of an earlier moment.
  abbrev pub IsStale : UserDbModel → Type 0
  IsStale user = (user.id ≢ i) ⊎ ((user.totp_secret ≢ secret) ⊎ (user.totp_enabled ≡ false))

  off-Keeps :
      (now : ℕ) (json : Json) (user : UserDbModel) (w : World d)
      → user.totp_enabled ≡ false
      → Safe d law i secret step codes w.db
      → Keeps d law i secret step codes (disable_row d now json user w)
  unfolding disable_row
  off-Keeps now json user w off v = elim (Bool-cases (user.id == 0)) [
    | inl gone ↦ simp (gone) (record { kept = v })
    | inr here ↦ simp (here, off) (record { kept = v })
  ]

  stale-Keeps :
      (now : ℕ) (json : Json) (user : UserDbModel) (w : World d)
      → IsStale user
      → Safe d law i secret step codes w.db
      → Keeps d law i secret step codes (disable_row d now json user w)
  stale-Keeps now json user w (inl other) v =
      disable_row-Enrolled d law i secret step codes now json user w (inl other) v
  stale-Keeps now json user w (inr (inl old)) v =
      disable_row-Enrolled d law i secret step codes now json user w (inr old) v
  stale-Keeps now json user w (inr (inr off)) v = off-Keeps now json user w off v

  -- A setup, an enabling, a second step of a login and a disabling that read a row of another user,
  -- a row under another secret or a row that was not enabled yet, each leave the enrolment in force,
  -- with no step and no recovery code put back, and no code replaced by another.
  pub stale_row-Enrolled :
      (now : ℕ) (generate : Text → Result (Text × Text)) (draws : List Draw) (failure : Text)
      (json : Json) (user : UserDbModel) (w : World d)
      → IsStale user
      → Safe d law i secret step codes w.db
      → Keeps d law i secret step codes (setup_row d now generate json user w)
        × Keeps d law i secret step codes (enable_row d now draws failure json user w)
        × Keeps d law i secret step codes (verify_row d now json user w)
        × Keeps d law i secret step codes (disable_row d now json user w)
  stale_row-Enrolled now generate draws failure json user w stale v = (
    setup_row-Enrolled d law i secret step codes now generate json user w v,
    enable_row-Enrolled d law i secret step codes now draws failure json user w v,
    verify_row-Enrolled d law i secret step codes now json user w v,
    stale-Keeps now json user w stale v,
  )
