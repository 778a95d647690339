-- ===== src/Encryption.antt =====
-- pkg/utils/encryption/password.go and md5_helper.go: how a password is stored and checked.
--
-- The primitives are not this repository's: argon2id, MD5 and base64 are fields of `Primitives`,
-- and `IsLawful` states what is documented of them. The random salt is an argument. The limit on
-- how many hashes are computed at once (`argonSlots`) delays a call and changes no result.
pub mod Slots
pub mod Parse
pub mod Print
pub mod Verify
use casa_os_user_service.Common.{
  ℕ, suc, ◌+◌, ◌*◌, ◌/◌, ◌%◌, ◌^◌, ◌<◌, ◌≡◌, Bool, true, false, not, ◌&&◌, ◌||◌, Option, none, some,
  List, [], ◌∷◌, ◌++◌, All, length, ltb, leb, ◌==◌, if◌then◌else◌, ◌>>=◌, ◌>>◌, guard,
}
use casa_os_user_service.Common.Text.{Text, bytes, text_eq, split, Lacks}
use casa_os_user_service.Common.Decimal.{itoa, scan_from, is_digit}

pub record Primitives : Type 0 where
  pub argon2_version : ℕ
  -- password, salt, time, memory, threads, length of the key
  pub argon2_id_key : Text → Text → ℕ → ℕ → ℕ → ℕ → Text
  pub md5_sum : Text → Text
  pub encode_to_string : Text → Text
  pub decode_string : Text → Option Text

abbrev pub IsBytes : Text → Type 0
IsBytes = All (λ c. c < 256)

pub record IsLawful (k : Primitives) : Type 0 where
  pub length-id_key :
      (p s : Text) (time memory threads n : ℕ)
      → length (k.argon2_id_key p s time memory threads n) ≡ n
  pub id_key-IsBytes :
      (p s : Text) (time memory threads n : ℕ) → IsBytes (k.argon2_id_key p s time memory threads n)
  pub decode-encode : (b : Text) → IsBytes b → k.decode_string (k.encode_to_string b) ≡ some b
  pub encode-Lacks : (b : Text) → IsBytes b → Lacks b'$' (k.encode_to_string b)

abbrev pub argon_memory : ℕ
argon_memory = 19456

abbrev pub argon_time : ℕ
argon_time = 2

abbrev pub argon_threads : ℕ
argon_threads = 1

abbrev pub argon_key_len : ℕ
argon_key_len = 32

abbrev pub argon_salt_len : ℕ
argon_salt_len = 16

abbrev pub argon_max_memory : ℕ
argon_max_memory = 262144

abbrev pub argon_max_time : ℕ
argon_max_time = 10

abbrev pub argon_max_threads : ℕ
argon_max_threads = 16

pub record ArgonHash : Type 0 where
  pub memory : ℕ
  pub time : ℕ
  pub threads : ℕ
  pub salt : Text
  pub key : Text

abbrev pub version_text : ℕ → Text
version_text v = bytes "v=" ++ itoa v

-- Sprintf "m=%d,t=%d,p=%d"
abbrev pub params_text : ℕ → ℕ → ℕ → Text
params_text m t p = bytes "m=" ++ (itoa m ++ (bytes ",t=" ++ (itoa t ++ (bytes ",p=" ++ itoa p))))

-- The PHC string with these parameters, salt and key, both in base64.
abbrev pub phc_text : ℕ → ℕ → ℕ → ℕ → Text → Text → Text
phc_text v m t p salt key =
    b'$'
    ∷ (bytes "argon2id"
        ++ b'$' ∷ (version_text v ++ b'$' ∷ (params_text m t p ++ b'$' ∷ (salt ++ b'$' ∷ key))))

-- A literal of a Sscanf format.
unfoldable pub expect : Text → Text → Option Text
expect [] s = some s
expect (c ∷ l) [] = none
expect (c ∷ l) (x ∷ s) = let rest = expect l s in if c == x then rest else none

-- %d of Sscanf: at least one digit, and a value that fits the variable. What Sscanf reads beyond
-- that (spaces in front, a sign) does not print back the same, and is refused after it.
unfoldable pub scan_uint : ℕ → Text → Option (ℕ × Text)
scan_uint limit [] = none
scan_uint limit (c ∷ s) =
    let r = scan_from 0 (c ∷ s) in if is_digit c && ltb r.0 limit then some r else none

-- Sscanf "v=%d"
unfoldable pub scan_version : Text → Option ℕ
unfolding expect scan_uint
scan_version s = do s ← expect (bytes "v=") s; (v, _) ← scan_uint (2 ^ 63) s; some v

-- Sscanf "m=%d,t=%d,p=%d" into two uint32 and a uint8
unfoldable pub scan_params : Text → Option (ℕ × ℕ × ℕ)
unfolding expect scan_uint
scan_params s = do
  s ← expect (bytes "m=") s
  (m, s) ← scan_uint (2 ^ 32) s
  s ← expect (bytes ",t=") s
  (t, s) ← scan_uint (2 ^ 32) s
  s ← expect (bytes ",p=") s
  (p, _) ← scan_uint (2 ^ 8) s
  some (m, t, p)

-- Whether the parameters ask for no more than the box would give.
abbrev pub in_bounds : ℕ → ℕ → ℕ → Bool
in_bounds m t p = not (
    p == 0
    || ltb argon_max_threads p
    || t == 0
    || ltb argon_max_time t
    || ltb m (8 * p)
    || ltb argon_max_memory m)

unfoldable pub parse_params : Text → Option (ℕ × ℕ × ℕ)
parse_params s = do
  (m, t, p) ← scan_params s
  guard (text_eq s (params_text m t p))
  guard (in_bounds m t p)
  some (m, t, p)

abbrev pub Parts : Type 0
Parts = Text × Text × Text × Text × Text × Text

unfoldable pub six : List Text → Option Parts
six (a ∷ b ∷ c ∷ d ∷ e ∷ f ∷ []) = some (a, b, c, d, e, f)
six _ = none

-- hex.EncodeToString
abbrev pub hex_digit : ℕ → ℕ
hex_digit n = if ltb n 10 then 48 + n else 87 + n

unfoldable pub hex : Text → Text
hex [] = []
hex (b ∷ s) = hex_digit (b / 16) ∷ hex_digit (b % 16) ∷ hex s

module _ (k : Primitives) where
  -- The empty text before the first separator, the name and the version.
  unfoldable pub parse_version : Text → Text → Text → Option ℕ
  parse_version p0 p1 p2 = do
    guard (text_eq p0 [] && text_eq p1 (bytes "argon2id"))
    version ← scan_version p2
    guard (version == k.argon2_version && text_eq p2 (version_text version))
    some version

  unfoldable pub parse_salt : Text → Option Text
  parse_salt p = do salt ← k.decode_string p; guard (leb 8 (length salt)); some salt

  unfoldable pub parse_key : Text → Option Text
  parse_key p = do
    key ← k.decode_string p
    guard (leb 16 (length key) && leb (length key) 64)
    some key

  unfoldable pub parse_parts : Parts → Option ArgonHash
  parse_parts (p0, p1, p2, p3, p4, p5) = do
    _ ← parse_version p0 p1 p2
    (m, t, p) ← parse_params p3
    salt ← parse_salt p4
    key ← parse_key p5
    some (record { memory = m; time = t; threads = p; salt = salt; key = key })

  unfoldable pub parse_argon : Text → Option ArgonHash
  parse_argon stored = do parts ← six (split b'$' stored); parse_parts parts

  -- The salt is what rand.Read gave.
  unfoldable pub hash_password : Text → Text → Text
  hash_password salt password =
      let key = k.argon2_id_key password salt argon_time argon_memory argon_threads argon_key_len in
      phc_text k.argon2_version argon_memory argon_time argon_threads (k.encode_to_string salt)
        (k.encode_to_string key)

  unfoldable pub get_md5_by_str : Text → Text
  get_md5_by_str s = hex (k.md5_sum s)

  abbrev pub check_argon : Text → ArgonHash → Bool
  check_argon candidate h =
      text_eq (k.argon2_id_key candidate h.salt h.time h.memory h.threads (length h.key)) h.key

  abbrev pub verify_parsed : Option ArgonHash → Text → Text → Bool
  verify_parsed (some h) stored candidate = check_argon candidate h
  verify_parsed none stored candidate = text_eq stored (get_md5_by_str candidate)

  unfoldable pub verify_password : Text → Text → Bool
  verify_password stored candidate = verify_parsed (parse_argon stored) stored candidate

  abbrev pub is_current : ArgonHash → Bool
  is_current h =
      h.memory == argon_memory
      && h.time == argon_time
      && h.threads == argon_threads
      && length h.key == argon_key_len

  abbrev pub is_outdated : Option ArgonHash → Bool
  is_outdated none = true
  is_outdated (some h) = not (is_current h)

  unfoldable pub needs_rehash : Text → Bool
  needs_rehash stored = is_outdated (parse_argon stored)
