-- ===== src/Tests/Restarts.antt =====
-- A session over a restart.
use casa_os_user_service.Common.{
  ◌≡◌, refl, some, [], ◌∷◌, ◌++◌, arith, inl, List, false, drop, ◌+◌, ◌==◌,
}
use casa_os_user_service.Common.Text.{Text, bytes, text_eq, split}
use casa_os_user_service.Common.Decimal.{itoa}
use casa_os_user_service.Config.{AppModel, app_info}
use casa_os_user_service.Encryption.{verify_password, parse_argon, six, get_md5_by_str, hex}
use casa_os_user_service.Keys.{load_or_create_key_pair}
use casa_os_user_service.Route.{
  World, ok, Served, replied, exited, panicked, VerifyInformation, session, reply_ok,
  password_matches, issue_tokens,
}
use casa_os_user_service.Route.FirstAdmin.{input}
use casa_os_user_service.Route.Login.{
  login_row, login_fields, login_matched, finish_login, post_user_login,
}
use casa_os_user_service.Server.{Gate, Request, current, serve, handle, is_open}
use casa_os_user_service.Server.Guarded.{IsLawful}
use casa_os_user_service.Server.Tokens.{IsKeyed, bearer}
use casa_os_user_service.Services.{UserService, new_user_service}
use casa_os_user_service.Start.Process.{Machine, served_by}
use casa_os_user_service.Start.Process.Restarted.{sign_in-restarted}
use casa_os_user_service.Users.{get_user_all_info_by_name}
use casa_os_user_service.Tests.Codec.{repeat}
use casa_os_user_service.Tests.Gates.{middleware, taken-none, taken-some}
use casa_os_user_service.Tests.Processes.{driver}
use casa_os_user_service.Tests.Starts.{plain, plain-IsLawful, ini, defaults}
use casa_os_user_service.Tests.Service.{fs-IsLawful, first_or_zero, table, alice, body_of}
use casa_os_user_service.Tests.Tokens.{keyed, validate, access_valid, other_invalid, asks}

-- The first byte of a key signs.
abbrev signing : Machine
signing = record {
  deps = keyed;
  ini = ini;
  defaults = defaults;
  codec = plain;
  private_of = first_or_zero;
  public_of = first_or_zero;
  driver = driver;
  table = λ db f. table;
  login_limiter = 5;
  Gateway = List (Text × Text);
  new_management_service = λ path f. ok [];
  create_route = λ path target g. (ok tt, (path, target) ∷ g);
  generate_jwks_json = λ k. ok (bytes "keys");
  jwks_path = bytes "jwks.json";
  join = λ directory name. directory ++ b'/' ∷ name;
  address_filename = bytes "user-service.url";
  v2_api_path = bytes "/v2/users";
  v2_doc_path = bytes "/doc/v2/users";
  sample = bytes "[app]";
  new_key = some (bytes "A");
  new_pre_auth = some (bytes "B");
  listen = ok (bytes "127.0.0.1:80");
  salt = repeat 16 1;
  draws = [];
  credentials = input false [] (ok tt);
}

abbrev settings : AppModel
settings = app_info defaults

-- Before the restart, and after it.
abbrev before : UserService plain
before = record { key = bytes "A"; pre_auth = bytes "B" }

abbrev after : UserService plain
after = record { key = bytes "A"; pre_auth = bytes "D" }

abbrev gate_of : (u : UserService plain) → Gate (served_by signing u settings)
gate_of u = record {
  is_internal_request = λ ip authorization. false;
  token_from_authorization = λ t. drop 7 t;
  validate = validate;
  jwt_middleware = middleware;
}

gate_of-IsLawful : (u : UserService plain) → IsLawful (served_by signing u settings) (gate_of u)
gate_of-IsLawful u = record {
  middleware-skips = λ tokens parse. refl;
  middleware-admits = λ token parse claims e. taken-some (parse token) claims e;
  middleware-refuses =
      λ token parse e. (bytes "invalid or expired jwt", taken-none (parse token) e);
}

gate_of-IsKeyed :
    (u : UserService plain)
    → (first_or_zero u.pre_auth == first_or_zero u.key) ≡ false
    → IsKeyed (served_by signing u settings) (gate_of u)
gate_of-IsKeyed u differ = record {
  token-bearer = λ token. refl;
  access-validate = λ name id issued now token made issue h.
      access_valid (first_or_zero u.key) id issued now token (cc made) h;
  other_key-validate = λ name id life issued now issuer token claims made h.
      other_invalid (first_or_zero u.key) (first_or_zero u.pre_auth) id (issued + life) now issuer
        token claims differ (cc made) h;
}

abbrev world_of_service : (u : UserService plain) → World (served_by signing u settings)
world_of_service u = record {
  db = table;
  user_register_hash = [];
  login_limiter = 5;
  user_limiters = [];
  files = [];
}

abbrev world_of :
    Served (served_by signing before settings) → World (served_by signing before settings)
world_of (replied answer w) = w
world_of (exited w) = w
world_of (panicked w) = w

abbrev key_kept : List (Text × Text)
key_kept = (bytes "/var/lib/casaos/user-service.key", bytes "A") ∷ []

abbrev signed : VerifyInformation
signed = record {
  refresh_token = 1 ∷ 604900 ∷ 65 ∷ bytes "refresh";
  access_token = 1 ∷ 10900 ∷ 65 ∷ bytes "casaos";
  expires_at = 10900;
}

abbrev bears : Request
bears = record asks {
  endpoint = current;
  authorization = bearer ++ signed.access_token;
  now = 5000;
}

sign_in-restarted_example :
    serve (served_by signing after settings) (gate_of after) bears (world_of_service after)
    ≡ handle
        (served_by signing after settings)
        (gate_of after)
        bears
        current
        (itoa 1)
        (world_of_service after)
unfolding new_user_service load_or_create_key_pair serve handle is_open post_user_login login_fields
    text_eq login_row get_user_all_info_by_name password_matches verify_password parse_argon six
    split get_md5_by_str hex login_matched finish_login issue_tokens
sign_in-restarted_example =
    sign_in-restarted signing fs-IsLawful plain-IsLawful settings settings (some (bytes "A"))
      (some (bytes "C")) (some (bytes "B")) (some (bytes "D")) [] key_kept key_kept key_kept before
      after refl refl refl refl (gate_of before) (gate_of after) (gate_of-IsLawful before)
      (gate_of-IsLawful after) (gate_of-IsKeyed before refl) (gate_of-IsKeyed after refl) asks
      (body_of ("username", bytes "alice") ("password", bytes "secret")) (world_of_service before)
      (world_of
        (serve (served_by signing before settings) (gate_of before) asks (world_of_service before)))
      (reply_ok (session signed (record alice { password = [] }))) signed
      (record alice { password = [] }) (inl refl) refl refl bears (world_of_service after)
      (record { gated = refl; outside = refl; authorization = refl }) (omega arith) (omega arith)
