-- ===== src/Tests/Accounts.antt =====
-- Tests of the statements of service/user.go on a table of three accounts.
use mathlib.Core.List.Sublist
use casa_os_user_service.Common.Text.{text_eq, bytes}
use casa_os_user_service.Common.{◌≡◌, refl, false, List, [], ◌∷◌, arith}
use casa_os_user_service.Common.Int.{pos, ≤ℤ_refl}
use casa_os_user_service.Users.Table.{HasKeys, lookup_id}
use casa_os_user_service.Users.Statements.{
  Statement, sets_pending, replaces_hash, creates, deletes, run,
}
use casa_os_user_service.Users.{
  enable_user_totp, set_pending_totp, clear_pending_totp, consume_totp_step, replace_recovery_codes,
}
use casa_os_user_service.Users.Enrolment.{Enrolled, by_number, taken_off, run-Enrolled}
use casa_os_user_service.Users.Once.{
  enable_user_totp-once, consume_totp_step-once, replace_recovery_codes-once,
}
use casa_os_user_service.Users.Abstract.{Steps, view}
use casa_os_user_service.Users.Refined.{told, run-Steps}
use casa_os_user_service.Tests.Memory.{memory, memory-IsLawful}
use casa_os_user_service.Tests.Service.{alice, bob, table}

pub table-HasKeys : HasKeys table
table-HasKeys = ((refl, (refl, tt)), ((refl, tt), (tt, tt)))

abbrev others : List Statement
others = sets_pending 2 (bytes "EVIL") ∷ replaces_hash 1 alice.password (bytes "new") ∷ []

pub bob-Enrolled :
    Enrolled taken_off memory memory-IsLawful 2 (bytes "KEY") (pos 10) bob.recovery_codes table
unfolding lookup_id
bob-Enrolled = (
  bob,
  refl,
  record {
    enabled = refl;
    same_secret = refl;
    stepped = ≤ℤ_refl (pos 10);
    few = Sublist.refl bob.recovery_codes;
  },
)

bob-numbered :
    Enrolled by_number memory memory-IsLawful 2 (bytes "KEY") (pos 10) bob.recovery_codes table
unfolding lookup_id
bob-numbered = (
  bob,
  refl,
  record { enabled = refl; same_secret = refl; stepped = ≤ℤ_refl (pos 10); few = omega arith },
)

run-Enrolled_example :
    Enrolled taken_off memory memory-IsLawful 2
      (bytes "KEY")
      (pos 10)
      bob.recovery_codes
      (run memory others table)
run-Enrolled_example =
    run-Enrolled memory memory-IsLawful 2 (bytes "KEY") (pos 10) bob.recovery_codes others table
      (tt, (tt, tt)) bob-Enrolled

enable_user_totp-once_example :
    let t = run memory others (enable_user_totp memory 3 (bytes "NEW") (pos 7) [] table).1 in
    ((enable_user_totp memory 3 (bytes "NEW") (pos 8) [] t).0 ≡ false)
    × ((set_pending_totp memory 3 (bytes "NEW") t).0 ≡ false)
    × ((clear_pending_totp memory 3 (bytes "NEW") t).0 ≡ false)
unfolding enable_user_totp text_eq
enable_user_totp-once_example =
    enable_user_totp-once memory memory-IsLawful 3 (λ e. omega (arith, e)) (bytes "NEW") table
      table-HasKeys others (tt, (tt, tt)) (pos 7) [] refl (bytes "NEW") (pos 8) []

consume_totp_step-once_example :
    (consume_totp_step memory 2
      (pos 11)
      (run memory others (consume_totp_step memory 2 (pos 11) table).1)).0
    ≡ false
unfolding consume_totp_step
consume_totp_step-once_example =
    consume_totp_step-once memory memory-IsLawful 2 (λ e. omega (arith, e)) (bytes "KEY") table
      table-HasKeys others (tt, (tt, tt)) (pos 11) (pos 10) bob.recovery_codes bob-numbered refl
      (pos 11) (≤ℤ_refl (pos 11))

replace_recovery_codes-once_example :
    (replace_recovery_codes memory 2 bob.recovery_codes (bytes "one" ∷ []) (
      run memory others
        (replace_recovery_codes memory 2 bob.recovery_codes (bytes "two" ∷ []) table).1)).0
    ≡ false
unfolding replace_recovery_codes text_eq
replace_recovery_codes-once_example =
    replace_recovery_codes-once memory memory-IsLawful 2 (λ e. omega (arith, e)) (bytes "KEY") table
      table-HasKeys others (tt, (tt, tt)) (pos 10) bob.recovery_codes bob.recovery_codes
      (bytes "two" ∷ []) bob-numbered (omega arith) refl (bytes "one" ∷ [])

-- A setup, a registration and a deletion.
abbrev busy : List Statement
busy = sets_pending 1 (bytes "NEW") ∷ creates (record alice { id = 0 }) ∷ deletes (bytes "2") ∷ []

run-Steps_example :
    Steps memory.id_is
      (view memory memory-IsLawful table)
      (told memory busy table)
      (view memory memory-IsLawful (run memory busy table))
run-Steps_example = run-Steps memory memory-IsLawful busy table (tt, (refl, (tt, tt))) table-HasKeys
