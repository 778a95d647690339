-- ===== src/Tests/Codes.antt =====
-- Tests of service/totp.go.
use casa_os_user_service.Totp.{
  new_recovery_code, verify_totp, new_recovery_codes, consume_recovery_code, normalize, to_lower,
  trim_space, drop_hyphens,
}
use casa_os_user_service.Common.{◌≡◌, ◌⊎◌, refl, true, false, [], ◌∷◌, length, All}
use casa_os_user_service.Common.Text.{Text, bytes}
use casa_os_user_service.Common.Int.{ℤ, pos}
use casa_os_user_service.Totp.Steps.{IsFresh, verify_totp-decides}
use casa_os_user_service.Totp.Recovery.{
  Removes, consume_recovery_code-Removes, new_recovery_codes-accepted,
}
use casa_os_user_service.Tests.Codec.{otp, otp-IsLawful, draw, draw-IsLawful}

verify_totp-decides_example :
    ((verify_totp otp [] (4 ∷ []) (pos 2) 100 ≡ ((verify_totp otp [] (4 ∷ []) (pos 2) 100).0, true))
      × IsFresh otp [] (4 ∷ []) (pos 2) 100 (verify_totp otp [] (4 ∷ []) (pos 2) 100).0)
    ⊎ (((verify_totp otp [] (4 ∷ []) (pos 2) 100).1 ≡ false)
        × ((step : ℤ) → IsFresh otp [] (4 ∷ []) (pos 2) 100 step → ⊥))
verify_totp-decides_example = verify_totp-decides otp [] (4 ∷ []) (pos 2) 100

new_recovery_codes-accepted_example :
    All
      (λ p. (consume_recovery_code otp (bytes "aaaaaaaaaa" ∷ []) p).1 ≡ true)
      (bytes "aaaaa-aaaaa" ∷ [])
    × (length {A = Text} (bytes "aaaaa-aaaaa" ∷ []) ≡ length (draw ∷ []))
    × (length {A = Text} (bytes "aaaaaaaaaa" ∷ []) ≡ length (draw ∷ []))
unfolding new_recovery_codes new_recovery_code
new_recovery_codes-accepted_example =
    new_recovery_codes-accepted otp otp-IsLawful (draw ∷ []) (bytes "aaaaa-aaaaa" ∷ [])
      (bytes "aaaaaaaaaa" ∷ []) (draw-IsLawful, tt) refl

consume_recovery_code-Removes_example :
    Removes otp
      (bytes "aaaaaaaaaa")
      (bytes "bbbbbbbbbb" ∷ bytes "aaaaaaaaaa" ∷ bytes "cccccccccc" ∷ [])
      (consume_recovery_code otp
        (bytes "bbbbbbbbbb" ∷ bytes "aaaaaaaaaa" ∷ bytes "cccccccccc" ∷ [])
        (bytes " AAAAA-aaaaa"))
unfolding normalize to_lower trim_space drop_hyphens
consume_recovery_code-Removes_example =
    consume_recovery_code-Removes otp
      (bytes "bbbbbbbbbb" ∷ bytes "aaaaaaaaaa" ∷ bytes "cccccccccc" ∷ []) (bytes " AAAAA-aaaaa")
