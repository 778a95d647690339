-- ===== src/Totp.antt =====
-- service/totp.go: time-based codes and recovery codes.
--
-- HOTP, bcrypt and base32 are not this repository's: they are fields of `Otp`, and `IsLawful`
-- states what is documented of them. The clock is an argument, in seconds since 1970 and so not
-- negative. `TrimSpace` and `ToLower` are those of package strings on ASCII text.
pub mod Steps
pub mod Normal
pub mod Recovery
use casa_os_user_service.Common.{
  ℕ, zero, suc, ◌+◌, ◌-◌, ◌/◌, ◌<◌, ◌≡◌, Bool, true, false, not, ◌&&◌, ◌||◌, Option, none, some,
  List, [], ◌∷◌, ◌++◌, All, find, take, drop, reject, length, map, ltb, leb, ◌==◌, if◌then◌else◌,
  ◌>>=◌, arith,
}
use casa_os_user_service.Common.Text.{Text}
use casa_os_user_service.Common.Int.{ℤ, pos, ltb_ℤ, pred_ℤ, suc_ℤ, to_uint64}
use mathlib.Core.List.{reverse}

pub record Otp : Type 0 where
  -- hotp.ValidateCustom with six digits and SHA1: code, counter, secret; `none` is an error
  pub validate_custom : Text → ℕ → Text → Option Bool
  -- bcrypt.CompareHashAndPassword returned nil
  pub compare_hash : Text → Text → Bool
  -- base32 with no padding
  pub encode_to_string : Text → Text

-- The random bytes of one code, and bcrypt.GenerateFromPassword with the salt that it drew;
-- `none` is an error.
pub record Draw : Type 0 where
  pub raw : Option Text
  pub generate : Text → Option Text

abbrev pub is_base32 : ℕ → Bool
is_base32 c = leb b'A' c && leb c b'Z' || leb b'2' c && leb c b'7'

pub record IsLawful (o : Otp) : Type 0 where
  -- 7 bytes are 12 characters of the alphabet A-Z, 2-7.
  pub length-encode : (b : Text) → length b ≡ 7 → length (o.encode_to_string b) ≡ 12
  pub encode-alphabet : (b : Text) → All (λ c. is_base32 c ≡ true) (o.encode_to_string b)

pub record IsLawfulDraw (o : Otp) (d : Draw) : Type 0 where
  pub raw-length : (b : Text) → d.raw ≡ some b → length b ≡ 7
  pub compare-generate : (p h : Text) → d.generate p ≡ some h → o.compare_hash h p ≡ true

abbrev pub totp_period : ℕ
totp_period = 30

abbrev pub window : ℤ → List ℤ
window cur = pred_ℤ cur ∷ cur ∷ suc_ℤ cur ∷ []

abbrev pub is_space : ℕ → Bool
is_space c = leb 9 c && leb c 13 || c == 32

unfoldable pub trim_left : Text → Text
trim_left [] = []
trim_left (c ∷ s) = let rest = trim_left s in if is_space c then rest else c ∷ s

-- strings.TrimSpace
unfoldable pub trim_space : Text → Text
unfolding trim_left
trim_space s = reverse (trim_left (reverse (trim_left s)))

abbrev pub lower : ℕ → ℕ
lower c = if leb b'A' c && leb c b'Z' then c + 32 else c

-- strings.ToLower
abbrev pub to_lower : Text → Text
to_lower = map lower

-- ReplaceAll(s, "-", "")
abbrev pub drop_hyphens : Text → Text
drop_hyphens = reject (λ c. c == b'-')

unfoldable pub normalize : Text → Text
normalize code = to_lower (drop_hyphens (trim_space code))

-- err == nil && ok
abbrev pub is_ok : Option Bool → Bool
is_ok none = false
is_ok (some ok) = ok

abbrev pub step_or_zero : Option ℤ → ℤ × Bool
step_or_zero none = (pos 0, false)
step_or_zero (some step) = (step, true)

-- The code as it is shown, and its hash.
unfoldable pub hash_code : Draw → Text → Option (Text × Text)
hash_code d code = do hash ← d.generate code; some (take 5 code ++ b'-' ∷ drop 5 code, hash)

module _ (o : Otp) where
  -- One round of the loop.
  unfoldable pub new_recovery_code : Draw → Option (Text × Text)
  unfolding hash_code
  new_recovery_code d = do raw ← d.raw; hash_code d (take 10 (to_lower (o.encode_to_string raw)))

  -- err == nil && ok && step > lastStep
  abbrev pub accepts : Text → Text → ℤ → ℤ → Bool
  accepts secret code last_step step =
      is_ok (o.validate_custom code (to_uint64 step) secret) && ltb_ℤ last_step step

  unfoldable pub verify_totp : Text → Text → ℤ → ℕ → ℤ × Bool
  verify_totp secret code last_step now =
      step_or_zero (find (accepts secret code last_step) (window (pos (now / totp_period))))

  -- The loop, on the draws of its rounds: the source makes eight.
  unfoldable pub new_recovery_codes : List Draw → Option (List Text × List Text)
  new_recovery_codes [] = some ([], [])
  new_recovery_codes (d ∷ ds) = do
    (plain, hash) ← new_recovery_code d
    (plains, hashes) ← new_recovery_codes ds
    some (plain ∷ plains, hash ∷ hashes)

  abbrev pub keep_head : Text → List Text × Bool → List Text × Bool
  keep_head h (hs, ok) = (h ∷ hs, ok)

  -- The loop over the hashes: the list without the first that matches.
  unfoldable pub remove_match : Text → List Text → List Text × Bool
  remove_match code [] = ([], false)
  remove_match code (h ∷ hs) =
      let rest = keep_head h (remove_match code hs) in
      if o.compare_hash h code then (hs, true) else rest

  unfoldable pub consume_recovery_code : List Text → Text → List Text × Bool
  consume_recovery_code hashes code = remove_match (normalize code) hashes
