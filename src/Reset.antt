-- ===== src/Reset.antt =====
-- The `-ru` command of main.go, which gives an account a new password and ends its two-factor
-- authentication, and `RandomString` of pkg/utils/random/random.go.
pub mod Done
use casa_os_user_service.Common.{
  ℕ, ◌%◌, Bool, true, false, List, [], ◌∷◌, ◌++◌, drop, take, map, ◌==◌, if◌then◌else◌, length,
  find,
}
use casa_os_user_service.Common.Text.{Text, bytes, is_empty}
use casa_os_user_service.Common.Int.{pos}
use casa_os_user_service.Encryption.{hash_password}
use casa_os_user_service.Users.Database.{UserDbModel, Outcome, failed, affected}
use casa_os_user_service.Users.{get_user_all_info_by_name, reset_user_credentials}
use casa_os_user_service.Route.{Deps, Result, ok, err}

abbrev pub letters : Text
letters = bytes "abcdefghijklmnopqrstuvwxyzABCDEFGHIJKLMNOPQRSTUVWXYZ"

abbrev pub head_or : ℕ → Text → ℕ
head_or c [] = c
head_or c (x ∷ s) = x

-- One byte for each number that rand.Intn gave, an index of the letters.
unfoldable pub random_string : Bool → List ℕ → Text
random_string only_letter draws =
    let chosen = if only_letter then letters else letters ++ bytes "0123456789" in
    map (λ i. head_or 0 (drop i chosen)) draws

module _ (d : Deps) where
  -- The row with the new hash, and no second factor.
  abbrev pub reset_row : Text → Text → UserDbModel → UserDbModel
  reset_row salt password user = record user {
    password = hash_password d.crypto salt password;
    totp_secret = [];
    totp_enabled = false;
    totp_last_step = pos 0;
    recovery_codes = [];
  }

  abbrev pub reset_written :
      Text → Text → Outcome × d.gorm.State → Result (Text × Text) × d.gorm.State
  reset_written name password (failed e, s) = (err e, s)
  reset_written name password (affected n, s) = (ok (name, password), s)

  -- The draws are those of the six letters of the password. The name and the password are printed.
  unfoldable pub reset_user :
      Text → List ℕ → Text → d.gorm.State → Result (Text × Text) × d.gorm.State
  reset_user salt draws name s =
      let user = get_user_all_info_by_name d.gorm name s in
      let password = random_string false draws in
      if is_empty name
      then (err (bytes "user is empty"), s)
      else if user.id == 0
      then (err (bytes "user not exist"), s)
      else reset_written user.username password
          (reset_user_credentials d.gorm (reset_row salt password user) s)
