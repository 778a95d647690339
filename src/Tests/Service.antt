-- ===== src/Tests/Service.antt =====
-- A service over the table in memory, with tokens, limiters and files of its own.
use casa_os_user_service.Common.{
  ℕ, zero, suc, ◌+◌, ◌≡◌, refl, ◌∙◌, Bool-cases, inl, inr, Bool, true, false, not, Option, none,
  some, List, [], ◌∷◌, drop, ltb, if◌then◌else◌,
}
use casa_os_user_service.Common.Text.{Text, bytes, text_eq, text_eq_refl, is_empty}
use casa_os_user_service.Common.Int.{pos}
use casa_os_user_service.Encryption.{get_md5_by_str}
use casa_os_user_service.Users.Database.{UserDbModel, zero_user}
use casa_os_user_service.Route.{
  Deps, Web, unreachable, World, Result, ok, err, Jwt, RateLimiter, FileSystem, Removal, removed,
  missing, Json,
}
use Prim.Native.String.{String}
use casa_os_user_service.Disk.{IsLawful, Stat, info, not_exist}
use casa_os_user_service.Tests.Memory.{memory}
use casa_os_user_service.Tests.Codec.{crypto, otp}

-- A token is its id, its time of expiry and its issuer.
abbrev pub first_or_zero : Text → ℕ
first_or_zero [] = 0
first_or_zero (c ∷ s) = c

abbrev jwt : Jwt
jwt = record {
  PrivateKey = Unit {0};
  PublicKey = Unit {0};
  Claims = Text;
  username = λ t. [];
  id = first_or_zero;
  get_access_token = λ name key id now. ok (id ∷ (now + 10800) ∷ bytes "casaos");
  get_refresh_token = λ name key id now. ok (id ∷ (now + 604800) ∷ bytes "refresh");
  generate_token = λ name key id issuer life now. ok (id ∷ (now + life) ∷ issuer);
  parse_token = λ t key now. ok t;
  verify_issuer = λ t issuer. text_eq (drop 2 t) issuer;
  verify_expires_at = λ t now. ltb now (first_or_zero (drop 1 t));
}

abbrev allow : ℕ → ℕ → Bool × ℕ
allow zero now = (false, 0)
allow (suc n) now = (true, n)

abbrev rate : RateLimiter
rate = record { Limiter = ℕ; new_user_limiter = 5; allow = allow }

abbrev Files : Type 0
Files = List (Text × Text)

abbrev read : Text → Files → Result Text
read path [] = err (bytes "no such file")
read path ((q, t) ∷ fs) = if text_eq q path then ok t else read path fs

abbrev readable : Result Text → Bool
readable (ok t) = true
readable (err e) = false

abbrev unlink : Text → Files → Files
unlink path [] = []
unlink path ((q, t) ∷ fs) = if text_eq q path then unlink path fs else (q, t) ∷ unlink path fs

abbrev write : Text → Text → Files → Files
write path t fs = (path, t) ∷ unlink path fs

abbrev move : Text → Text → Files → Result Text → Result (Unit {0}) × Files
move from to fs (err e) = (err e, fs)
move from to fs (ok t) = (ok tt, write to t (unlink from fs))

abbrev erase : Text → Files → Result Text → Removal × Files
erase path fs (err e) = (missing, fs)
erase path fs (ok t) = (removed, unlink path fs)

abbrev size : Text → ℕ
size [] = 0
size (c ∷ t) = suc (size t)

abbrev stat : Result Text → Stat
stat (ok t) = info (size t) 420
stat (err e) = not_exist e

abbrev pub fs : FileSystem
fs = record {
  Files = Files;
  stat = λ path f. stat (read path f);
  mkdir_all = λ path f. (ok tt, f);
  chmod = λ path mode f. (ok tt, f);
  create = λ path f. (ok tt, write path [] f);
  read_file = read;
  write_file = λ path t f. (ok tt, write path t f);
  rename = λ from to f. move from to f (read from f);
  remove = λ path f. erase path f (read path f);
  sends = λ path f. readable (read path f);
  dir = λ path. path;
  abs_clean = λ path. ok path;
  detect_content_type = λ t. bytes "image/png";
}

write-read : (path t : Text) (f : Files) → read path (write path t f) ≡ ok t
write-read path t f = rw (text_eq_refl path) refl

read-unlink : (path : Text) (f : Files) → (e : Text) × (read path (unlink path f) ≡ err e)
read-unlink path [] = (bytes "no such file", refl)
read-unlink path ((q, t) ∷ f) = elim (Bool-cases (text_eq q path)) [
  | inl e ↦ rw e (read-unlink path f)
  | inr e ↦ rw (e, e) (read-unlink path f)
]

move-read :
    (from to t : Text) (f : Files) (r : Result Text)
    → r ≡ ok t
    → read to (move from to f r).1 ≡ ok t
move-read from to t f (err e) h = cc
move-read from to t f (ok x) h = write-read to x (unlink from f) ∙ h

erase-read :
    (path : Text) (f : Files) (r : Result Text)
    → read path f ≡ r
    → (e : Text) × (read path (erase path f r).1 ≡ err e)
erase-read path f (err e) h = (e, h)
erase-read path f (ok t) h = read-unlink path f

pub fs-IsLawful : IsLawful fs
fs-IsLawful = record {
  write-read = λ path t f h. write-read path t f;
  rename-read = λ from to t f h k. move-read from to t f (read from f) h;
  remove-read = λ path f h. erase-read path f (read path f) refl;
}

abbrev is_image : Text → Option Text
is_image t = if text_eq t (bytes "PNG") then some t else none

abbrev web : Web
web = record {
  Image = Text;
  decode_base64 = λ t. ok t;
  decode_image = is_image;
  encode_png = λ t. ok t;
  valid_bytes = λ t. not (is_empty t);
  marshals_raw = λ t. not (is_empty t);
  publish_save_config = λ t. unreachable;
}

abbrev pub deps : Deps
deps = record {
  gorm = memory;
  crypto = crypto;
  otp = otp;
  jwt = jwt;
  rate = rate;
  fs = fs;
  web = web;
  private_key = tt;
  public_key = tt;
  pre_auth_priv = tt;
  pre_auth_pub = tt;
  user_data_path = bytes "/data";
  first_admin = [];
}

-- One account with a legacy password and no second factor, and one that is enrolled.
abbrev pub alice : UserDbModel
alice = record zero_user {
  id = 1;
  username = bytes "alice";
  password = get_md5_by_str crypto (bytes "secret");
  role = bytes "admin";
}

abbrev pub bob : UserDbModel
bob = record zero_user {
  id = 2;
  username = bytes "bob";
  password = get_md5_by_str crypto (bytes "hunter");
  totp_secret = bytes "KEY";
  totp_enabled = true;
  totp_last_step = pos 10;
  recovery_codes = bytes "one" ∷ bytes "two" ∷ [];
}

abbrev pub carol : UserDbModel
carol = record zero_user { id = 3; username = bytes "carol"; totp_secret = bytes "NEW" }

abbrev pub table : List UserDbModel
table = alice ∷ bob ∷ carol ∷ []

abbrev pub world : World deps
world = record {
  db = table;
  user_register_hash = bytes "key" ∷ [];
  login_limiter = 5;
  user_limiters = [];
  files = [];
}

-- A body with these two fields.
abbrev pub body_of : String × Text → String × Text → Json
body_of (a, s) (b, t) name =
    if text_eq (bytes name) (bytes a) then s else if text_eq (bytes name) (bytes b) then t else []
