-- ===== src/Route/Account/Password.antt =====
-- What a password change changes.
use casa_os_user_service.Common.{ℕ, ◌≡◌, ◌≢◌, refl, true, ◌||◌, ◌==◌, arith, Bool-cases, inl, inr}
use casa_os_user_service.Common.Text.{Text, is_empty}
use casa_os_user_service.Encryption.{hash_password}
use casa_os_user_service.Users.Database.{UserDbModel, IsLawful, Outcome, failed, affected}
use casa_os_user_service.Users.Table.{alter}
use casa_os_user_service.Users.Cas.{account, update-account_key}
use casa_os_user_service.Users.{update_user_password, get_user_all_info_by_id}
use casa_os_user_service.Route.{Deps, World, Json, password_matches}
use casa_os_user_service.Route.Account.{password_written, password_row, put_user_password}

module _ (d : Deps) (law : IsLawful d.gorm) where
  password_written-db :
      (user : UserDbModel) (w : World d) (r : Outcome × d.gorm.State)
      → (password_written d user w r).1.db ≡ r.1
  password_written-db user w (failed e, s) = refl
  password_written-db user w (affected n, s) = refl

  -- A row is as it was, or it is the row whose password the request knew and its password alone is
  -- replaced.
  pub data Changed (salt old_pwd pwd : Text) (user : UserDbModel) (s s' : d.gorm.State) (j : ℕ)
      : Type 0 where
    same : account d.gorm j s' ≡ account d.gorm j s → Changed salt old_pwd pwd user s s' j
    replaced :
        user.id ≢ 0
        → user.id ≡ j
        → password_matches d user.password old_pwd ≡ true
        → account d.gorm j s'
          ≡ alter
              (λ _. true)
              (λ r. record r { password = hash_password d.crypto salt pwd })
              (account d.gorm j s)
        → Changed salt old_pwd pwd user s s' j

  written-Changed :
      (salt old_pwd pwd : Text) (user : UserDbModel) (s : d.gorm.State) (j : ℕ)
      → user.id ≢ 0
      → password_matches d user.password old_pwd ≡ true
      → Changed salt old_pwd pwd user s
          (update_user_password d.gorm
            (record user { password = hash_password d.crypto salt pwd })
            s).1
          j
  unfolding update_user_password
  written-Changed salt old_pwd pwd user s j known knew =
      elim (update-account_key d.gorm law user.id _ s (λ r. refl) known j) [
        | inl e ↦ same e
        | inr (at_key, e) ↦ replaced known at_key knew e
      ]

  pub password_row-Changed :
      (salt old_pwd pwd : Text) (user : UserDbModel) (w : World d) (j : ℕ)
      → Changed salt old_pwd pwd user w.db (password_row d salt old_pwd pwd user w).1.db j
  unfolding password_row
  password_row-Changed salt old_pwd pwd user w j = elim (Bool-cases (user.id == 0)) [
    | inl gone ↦ rw gone (same refl)
    | inr here ↦ elim (Bool-cases (password_matches d user.password old_pwd)) [
      | inr wrong ↦ rw (here, wrong) (same refl)
      | inl knew ↦
          rw
            (
              here,
              knew,
              password_written-db (record user { password = hash_password d.crypto salt pwd }) w
                  (update_user_password d.gorm
                    (record user { password = hash_password d.crypto salt pwd }) w.db),
            )
            (written-Changed salt old_pwd pwd user w.db j (λ z. ground arith) knew)
    ]
  ]

  -- A password change leaves every row as it was, but for the row of the session's account: its
  -- password, and nothing else of it, is replaced by a hash of the new one, and only if the old
  -- password given matched.
  pub put_user_password-Changed :
      (salt id : Text) (json : Json) (w : World d) (j : ℕ)
      → Changed salt
          (json "old_password")
          (json "password")
          (get_user_all_info_by_id d.gorm id w.db)
          w.db
          (put_user_password d salt id json w).1.db
          j
  unfolding put_user_password
  put_user_password-Changed salt id json w j =
      elim (Bool-cases (is_empty (json "old_password") || is_empty (json "password"))) [
        | inl lacking ↦ rw lacking (same refl)
        | inr given ↦
            rw given (password_row-Changed salt (json "old_password") (json "password") _ w j)
      ]
