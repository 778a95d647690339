-- ===== src/Tests/Codec.antt =====
-- Stand-ins for the password primitives and for one-time codes, with their laws.
use casa_os_user_service.Common.{
  ℕ, zero, suc, ◌+◌, ◌%◌, ◌<◌, ◌≡◌, refl, ap, true, Option, none, some, [], ◌∷◌, arith, length, All,
  ◌==◌, if◌then◌else◌,
}
use casa_os_user_service.Common.Text.{Text, text_eq, text_eq_refl, Lacks}
use casa_os_user_service.Encryption.{Primitives, IsBytes, IsLawful}
use casa_os_user_service.Totp
use casa_os_user_service.Totp.{Otp, Draw, is_base32}

-- A byte in unary: as many B as its value, then an A.
abbrev pub unary : ℕ → Text → Text
unary zero rest = b'A' ∷ rest
unary (suc n) rest = b'B' ∷ unary n rest

abbrev pub encode : Text → Text
encode [] = []
encode (b ∷ s) = unary b (encode s)

abbrev pub push : Option Text → Option Text
push none = none
push (some s) = some (0 ∷ s)

abbrev pub bump : Option Text → Option Text
bump (some (b ∷ s)) = some (suc b ∷ s)
bump _ = none

abbrev pub decode : Text → Option Text
decode [] = some []
decode (c ∷ s) =
    let rest = decode s in if c == b'A' then push rest else if c == b'B' then bump rest else none

decode-unary : (n : ℕ) (rest s : Text) → decode rest ≡ some s → decode (unary n rest) ≡ some (n ∷ s)
decode-unary zero rest s e = ap push e
decode-unary (suc n) rest s e = ap bump (decode-unary n rest s e)

pub decode-encode : (s : Text) → decode (encode s) ≡ some s
decode-encode [] = refl
decode-encode (b ∷ s) = decode-unary b (encode s) s (decode-encode s)

unary-Lacks : (n : ℕ) (s : Text) → Lacks b'$' s → Lacks b'$' (unary n s)
unary-Lacks zero s h = (ground arith, h)
unary-Lacks (suc n) s h = (ground arith, unary-Lacks n s h)

pub encode-Lacks : (s : Text) → Lacks b'$' (encode s)
encode-Lacks [] = tt
encode-Lacks (b ∷ s) = unary-Lacks b (encode s) (encode-Lacks s)

abbrev pub sum : Text → ℕ
sum [] = 0
sum (c ∷ s) = c + sum s

abbrev pub repeat : ℕ → ℕ → Text
repeat zero c = []
repeat (suc n) c = c ∷ repeat n c

length-repeat : (n c : ℕ) → length (repeat n c) ≡ n
length-repeat zero c = refl
length-repeat (suc n) c = ap suc (length-repeat n c)

pub repeat-IsBytes : (n c : ℕ) → c < 256 → IsBytes (repeat n c)
repeat-IsBytes zero c h = tt
repeat-IsBytes (suc n) c h = (h, repeat-IsBytes n c h)

abbrev pub crypto : Primitives
crypto = record {
  argon2_version = 19;
  argon2_id_key = λ p s time memory threads n. repeat n ((sum p + sum s) % 256);
  md5_sum = λ s. s;
  encode_to_string = encode;
  decode_string = decode;
}

pub crypto-IsLawful : IsLawful crypto
crypto-IsLawful = record {
  length-id_key = λ p s time memory threads n. length-repeat n _;
  id_key-IsBytes = λ p s time memory threads n. repeat-IsBytes n _ (omega arith);
  decode-encode = λ b h. decode-encode b;
  encode-Lacks = λ b h. encode-Lacks b;
}

-- The code of a step is the step itself, whatever the secret; the hash of a recovery code is the
-- code.
abbrev pub otp : Otp
otp = record {
  validate_custom = λ code step secret. some (text_eq code (step ∷ []));
  compare_hash = text_eq;
  encode_to_string = λ b. repeat 12 b'A';
}

repeat-base32 : (n : ℕ) → All (λ c. is_base32 c ≡ true) (repeat n b'A')
repeat-base32 zero = tt
repeat-base32 (suc n) = (refl, repeat-base32 n)

pub otp-IsLawful : Totp.IsLawful otp
otp-IsLawful = record { length-encode = λ b e. refl; encode-alphabet = λ b. repeat-base32 12 }

abbrev pub draw : Draw
draw = record { raw = some (repeat 7 0); generate = λ p. some p }

pub draw-IsLawful : Totp.IsLawfulDraw otp draw
draw-IsLawful = record {
  raw-length = λ b e. (ground arith);
  compare-generate = λ p h e. (ground (arith, text_eq_refl p));
}
