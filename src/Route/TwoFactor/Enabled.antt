-- ===== src/Route/TwoFactor/Enabled.antt =====
-- What an enabling request that hands out recovery codes leaves in the table.
use casa_os_user_service.Common.{ℕ, ◌≡◌, true, false, some, List, length, All}
use casa_os_user_service.Common.Text.{Text}
use casa_os_user_service.Common.Int.{ℤ, pos}
use casa_os_user_service.Totp.{Draw, verify_totp, consume_recovery_code}
use casa_os_user_service.Users.Database
use casa_os_user_service.Users.Database.{UserDbModel}
use casa_os_user_service.Users.Cas.{account}
use casa_os_user_service.Users.{set_enabled}
use casa_os_user_service.Route.{Deps, Json}

module _ (d : Deps) where
  -- The row is enabled under the secret that was shown at setup, the step of the code that was
  -- typed is used up, and each of the codes handed out is accepted against it.
  pub record IsReady (now : ℕ) (draws : List Draw) (json : Json) (user : UserDbModel)
      (plain : List Text) (s s' : d.gorm.State) : Type 0 where
    pub before : UserDbModel
    pub after : UserDbModel
    pub step : ℤ
    pub verified : verify_totp d.otp user.totp_secret (json "code") (pos 0) now ≡ (step, true)
    pub was : account d.gorm user.id s ≡ some before
    pub was_off : before.totp_enabled ≡ false
    pub was_pending : before.totp_secret ≡ user.totp_secret
    pub now_is : account d.gorm user.id s' ≡ some after
    pub rest : after ≡ set_enabled step after.recovery_codes before
    pub accepted : All (λ p. (consume_recovery_code d.otp after.recovery_codes p).1 ≡ true) plain
    pub as_many : length plain ≡ length draws
    pub stored : length after.recovery_codes ≡ length draws
