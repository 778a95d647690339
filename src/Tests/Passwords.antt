-- ===== src/Tests/Passwords.antt =====
-- Tests of pkg/utils/encryption.
use casa_os_user_service.Common.{
  ◌+◌, ◌≤◌, ◌*◌, ◌⊎◌, length, List, [], ◌∷◌, ◌≡◌, ◌↔◌, refl, true, false, some, arith,
}
use casa_os_user_service.Common.Text.{Text, bytes}
use casa_os_user_service.Encryption.{
  ArgonHash, phc_text, parse_argon, hash_password, verify_password, needs_rehash,
}
use casa_os_user_service.Encryption.Parse.{Parsed, parse_argon-Parsed}
use casa_os_user_service.Encryption.Print.{parse_argon-phc_text}
use casa_os_user_service.Encryption.Verify.{today, verify_password-hash_password}
use casa_os_user_service.Tests.Codec.{
  crypto, crypto-IsLawful, repeat, encode, repeat-IsBytes, encode-Lacks, decode-encode,
}
use casa_os_user_service.Encryption.Slots.{
  returned, computing, Slots, SlotEvent, sends, receives, at_once, remaining, slot_step, run_slots,
  called, advance,
}
use casa_os_user_service.Encryption.Slots.Bounded.{run_slots-at_once}

abbrev salt : Text
salt = repeat 16 1

abbrev small : ArgonHash
small = record { memory = 64; time = 1; threads = 2; salt = repeat 8 1; key = repeat 16 2 }

abbrev small_text : Text
small_text = phc_text 19 64 1 2 (encode (repeat 8 1)) (encode (repeat 16 2))

parse_argon-phc_text_example : parse_argon crypto small_text ≡ some small
parse_argon-phc_text_example =
    parse_argon-phc_text crypto small (encode (repeat 8 1)) (encode (repeat 16 2)) (omega arith)
      refl (encode-Lacks (repeat 8 1)) (encode-Lacks (repeat 16 2)) (decode-encode (repeat 8 1))
      (decode-encode (repeat 16 2)) (omega arith) (omega arith) (omega arith)

parse_argon-Parsed_example : Parsed crypto small_text small
parse_argon-Parsed_example = parse_argon-Parsed crypto small_text small parse_argon-phc_text_example

verify_password-hash_password_example :
    ((verify_password crypto (hash_password crypto salt (bytes "a")) (bytes "b") ≡ true)
      ↔ (today crypto salt (bytes "b") ≡ today crypto salt (bytes "a")))
    × (verify_password crypto (hash_password crypto salt (bytes "a")) (bytes "a") ≡ true)
    × (needs_rehash crypto (hash_password crypto salt (bytes "a")) ≡ false)
verify_password-hash_password_example =
    verify_password-hash_password crypto crypto-IsLawful (omega arith) salt (bytes "a")
      (repeat-IsBytes 16 1 (omega arith)) (omega arith) (bytes "b")

-- Three calls: the third computes once the first has returned.
abbrev interleaved : List SlotEvent
interleaved = sends 0 ∷ sends 2 ∷ receives 0 ∷ sends 1 ∷ []

run_slots-at_once_example :
    (at_once (returned ∷ computing ∷ computing ∷ []) ≤ 2)
    × (remaining (returned ∷ computing ∷ computing ∷ []) + length interleaved ≡ 2 * 3)
    × ((remaining (returned ∷ computing ∷ computing ∷ []) ≡ 0)
        ⊎ ((e : SlotEvent) × (t : Slots) × (slot_step e
                (record { taken = 2; calls = returned ∷ computing ∷ computing ∷ [] })
              ≡ some t)))
unfolding run_slots slot_step called advance
run_slots-at_once_example =
    run_slots-at_once 3 interleaved
      (record { taken = 2; calls = returned ∷ computing ∷ computing ∷ [] }) refl
