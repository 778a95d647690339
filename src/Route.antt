-- ===== src/Route.antt =====
-- What the handlers of route/v1 share: the world that they act on, the replies, the session tokens
-- (`issueTokens`), the second-factor budget (`userLimiter`), and common/two_fa.go.
--
-- Not of this repository, and so fields of `Deps`: the database, the password primitives, one-time
-- codes, the token library of CasaOS-Common, the rate limiter of golang.org/x/time and the file
-- system. A request brings the time of its arrival, which stands for every `time.Now` in it, and
-- the random bytes that it draws.
pub mod Budget
pub mod Login
pub mod TwoFactor
pub mod Register
pub mod Account
pub mod Refresh
pub mod FirstAdmin
pub mod LoginStyle
pub mod UserFiles
pub mod Images
pub mod CustomConf
pub use casa_os_user_service.Disk.{
  Result, ok, err, Removal, removed, missing, unremoved, FileSystem,
}
use casa_os_user_service.Common.{
  ℕ, zero, suc, ◌+◌, ◌*◌, ◌≡◌, ◌≢◌, Bool, true, false, not, ◌&&◌, ◌||◌, Option, none, some, List,
  [], ◌∷◌, ◌++◌, ◌==◌, if◌then◌else◌,
}
use casa_os_user_service.Common.Text.{Text, bytes, text_eq, is_empty}
use casa_os_user_service.Encryption.{Primitives, verify_password, needs_rehash, hash_password}
use casa_os_user_service.Common.Decimal.{itoa}
use casa_os_user_service.Totp.{Otp}
use casa_os_user_service.Users.Database.{UserDbModel, Gorm}
use casa_os_user_service.Users.{replace_password_hash}
use Prim.Native.String.{String}

pub record Jwt : Type 1 where
  pub PrivateKey : Type 0
  pub PublicKey : Type 0
  pub Claims : Type 0
  pub username : Claims → Text
  pub id : Claims → ℕ
  -- user name, key, id, time of issue
  pub get_access_token : Text → PrivateKey → ℕ → ℕ → Result Text
  pub get_refresh_token : Text → PrivateKey → ℕ → ℕ → Result Text
  -- user name, key, id, issuer, life in seconds, time of issue
  pub generate_token : Text → PrivateKey → ℕ → Text → ℕ → ℕ → Result Text
  pub parse_token : Text → PublicKey → ℕ → Result Claims
  pub verify_issuer : Claims → Text → Bool
  pub verify_expires_at : Claims → ℕ → Bool

pub record RateLimiter : Type 1 where
  pub Limiter : Type 0
  -- NewLimiter(UserLimit, 5)
  pub new_user_limiter : Limiter
  pub allow : Limiter → ℕ → Bool × Limiter

-- What the message bus answered to an event: no response at all, or a status.
pub data Published : Type 0 where
  unreachable : Published
  answered : ℕ → Published

-- The codecs of Go's library and of gjson, and the message bus of CasaOS.
pub record Web : Type 1 where
  pub Image : Type 0
  pub decode_base64 : Text → Result Text
  pub decode_image : Text → Option Image
  pub encode_png : Image → Result Text
  pub valid_bytes : Text → Bool
  -- whether encoding/json takes the text as a json.RawMessage
  pub marshals_raw : Text → Bool
  pub publish_save_config : Text → Published

pub record Deps : Type 1 where
  pub gorm : Gorm
  pub crypto : Primitives
  pub otp : Otp
  pub jwt : Jwt
  pub rate : RateLimiter
  pub fs : FileSystem
  pub web : Web
  -- the keys of `userService`
  pub private_key : jwt.PrivateKey
  pub public_key : jwt.PublicKey
  pub pre_auth_priv : jwt.PrivateKey
  pub pre_auth_pub : jwt.PublicKey
  -- config.AppInfo
  pub user_data_path : Text
  pub first_admin : Text

-- The codes of CasaOS-Common by name, those of common/two_fa.go, and plain HTTP statuses.
pub data Code : Type 0 where
  success client_error service_error too_many_request too_many_login_requests : Code
  invalid_params user_exist user_not_exist user_not_exist_or_pwd_invalid : Code
  pwd_invalid_old pwd_is_too_simple key_not_exist verification_failure : Code
  file_does_not_exist insufficient_permissions not_image image_too_large : Code
  two_fa_required two_fa_code_invalid two_fa_already_enabled two_fa_not_enabled : Code
  http : ℕ → Code

-- `common.GetMsg`, over the messages of CasaOS-Common.
unfoldable pub get_msg : (Code → Text) → Code → Text
get_msg common two_fa_required = bytes "Two-factor code required"
get_msg common two_fa_code_invalid = bytes "Two-factor code invalid"
get_msg common two_fa_already_enabled = bytes "Two-factor authentication already enabled"
get_msg common two_fa_not_enabled = bytes "Two-factor authentication not enabled"
get_msg common code = common code

-- The message of a code, or a text of its own.
pub data Message : Type 0 where
  of_code : Code → Message
  text : Text → Message

pub record VerifyInformation : Type 0 where
  pub refresh_token : Text
  pub access_token : Text
  pub expires_at : ℕ

pub data Body : Type 0 where
  nothing : Body
  session : VerifyInformation → UserDbModel → Body
  tokens : VerifyInformation → Body
  pre_auth : Text → ℕ → Body
  enrolment : Text → Text → Body
  recovery : List Text → Body
  init_status : Text → Bool → Text → ℕ → Text → Body
  account : UserDbModel → Body
  names : List Text → Body
  detail : Text → Body
  file_at : Text → Body
  raw : Text → Body
  -- path, file name, online path
  image_at : Text → Text → Text → Body

-- The HTTP status and model.Result.
pub record Response : Type 0 where
  pub status : Code
  pub success : Code
  pub message : Message
  pub body : Body

-- A reply with the message of its code and no data, as `fail` gives.
abbrev pub reply : Code → Code → Response
reply status code = record {
  status = status;
  success = code;
  message = of_code code;
  body = nothing;
}

-- A success with data, as `ok` gives.
abbrev pub reply_ok : Body → Response
reply_ok body = record {
  status = success;
  success = success;
  message = of_code success;
  body = body;
}

abbrev pub internal_error : Text → Response
internal_error e = record {
  status = http 500;
  success = service_error;
  message = text e;
  body = nothing;
}

-- What echo answers for an error that a handler returns.
abbrev pub http_error : ℕ → Text → Response
http_error status why = record {
  status = http status;
  success = http status;
  message = text why;
  body = nothing;
}

-- A JSON object of texts: a key that is not there reads as the empty text.
abbrev pub Json : Type 0
Json = String → Text

pub record World (d : Deps) : Type 0 where
  pub db : d.gorm.State
  pub user_register_hash : List Text
  pub login_limiter : d.rate.Limiter
  pub user_limiters : List (ℕ × d.rate.Limiter)
  pub files : d.fs.Files

-- How a handler ends: with a reply, with the process (log.Fatal), or with a panic.
pub data Served (d : Deps) : Type 0 where
  replied : Response → World d → Served d
  exited panicked : World d → Served d

module _ (d : Deps) where
  -- The directory of a user.
  abbrev pub user_dir : ℕ → Text
  user_dir id = d.user_data_path ++ b'/' ∷ itoa id

  -- A success with a json.RawMessage: the encoder refuses what is no JSON, the empty text included.
  abbrev pub reply_raw : Text → Response
  reply_raw t =
      if d.web.marshals_raw t
      then reply_ok (raw t)
      else http_error 500 (bytes "Internal Server Error")

  -- `ctx.File`
  abbrev pub reply_file : Text → World d → Response
  reply_file path w =
      if d.fs.sends path w.files
      then reply_ok (file_at path)
      else http_error 404 (bytes "Not Found")

  -- `userLimiter`: the limiter of a user, made on first use. The map keeps a pointer to it, so
  -- what `Allow` takes is taken from the limiter in the map.
  unfoldable pub user_limiter : ℕ → List (ℕ × d.rate.Limiter) → d.rate.Limiter
  user_limiter id [] = d.rate.new_user_limiter
  user_limiter id ((j, l) ∷ m) = if j == id then l else user_limiter id m

  unfoldable pub put_limiter :
      ℕ → d.rate.Limiter → List (ℕ × d.rate.Limiter) → List (ℕ × d.rate.Limiter)
  put_limiter id l [] = (id, l) ∷ []
  put_limiter id l ((j, k) ∷ m) = if j == id then (id, l) ∷ m else (j, k) ∷ put_limiter id l m

  -- userLimiter(id).Allow()
  unfoldable pub allow_user : ℕ → ℕ → World d → Bool × World d
  allow_user id now w =
      let r = d.rate.allow (user_limiter id w.user_limiters) now in
      (r.0, record w { user_limiters = put_limiter id r.1 w.user_limiters })

  abbrev pub reset_user_limiters : World d → World d
  reset_user_limiters w = record w { user_limiters = [] }

  unfoldable pub password_matches : Text → Text → Bool
  password_matches stored candidate = verify_password d.crypto stored candidate

  abbrev pub access_life : ℕ
  access_life = 10800

  abbrev pub verify_information : ℕ → Text → Text → VerifyInformation
  verify_information now access refresh = record {
    access_token = access;
    refresh_token = refresh;
    expires_at = now + access_life;
  }

  -- The two tokens, the access token first, handed to what is done with them.
  abbrev pub with_refresh : ℕ → Text → Result Text → (VerifyInformation → Response) → Response
  with_refresh now access (err e) k = internal_error e
  with_refresh now access (ok refresh) k = k (verify_information now access refresh)

  abbrev pub with_tokens : ℕ → Text → ℕ → Result Text → (VerifyInformation → Response) → Response
  with_tokens now name id (err e) k = internal_error e
  with_tokens now name id (ok access) k =
      with_refresh now access (d.jwt.get_refresh_token name d.private_key id now) k

  -- `issueTokens`
  unfoldable pub issue_tokens : ℕ → UserDbModel → Response
  issue_tokens now user =
      with_tokens now user.username user.id
        (d.jwt.get_access_token user.username d.private_key user.id now)
        (λ t. reply_ok (session t (record user { password = [] })))
