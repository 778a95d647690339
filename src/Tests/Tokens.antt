-- ===== src/Tests/Tokens.antt =====
-- A service whose tokens say which key they were signed with, and requests that bear them.
use casa_os_user_service.Common.{
  ℕ, ◌+◌, ◌<◌, ◌≡◌, refl, sym, subst, Bool, ==_refl, true, false, ◌&&◌, ◌==◌, [], ◌∷◌, ◌++◌, ltb,
  drop, arith, inl,
}
use casa_os_user_service.Common.Text.{Text, bytes, text_eq, split}
use casa_os_user_service.Common.Decimal.{itoa}
use casa_os_user_service.Encryption.{verify_password, parse_argon, six, get_md5_by_str, hex}
use casa_os_user_service.Users.{get_user_all_info_by_name}
use casa_os_user_service.Route.{
  Deps, World, Jwt, Response, Served, replied, exited, panicked, ok, err, VerifyInformation,
  password_matches, issue_tokens, nothing, reply_ok, Result,
}
use casa_os_user_service.Route.Login.{
  login_row, login_fields, login_matched, finish_login, post_user_login, issue_pre_auth_token,
}
use casa_os_user_service.Server.{Gate, Request, login, current, serve, handle, is_open}
use casa_os_user_service.Server.Guarded.{IsLawful, unauthorized}
use casa_os_user_service.Server.Tokens.{IsKeyed, bearer, sign_in-admitted, pre_auth-refused}
use casa_os_user_service.Tests.Codec.{repeat}
use casa_os_user_service.Tests.Gates.{middleware, taken-none, taken-some}
use casa_os_user_service.Tests.Memory.{memory-IsLawful}
use casa_os_user_service.Tests.Service.{deps, first_or_zero, table, alice, body_of}

-- A token is its id, its time of expiry, its key and its issuer.
abbrev keyed_jwt : Jwt
keyed_jwt = record {
  PrivateKey = ℕ;
  PublicKey = ℕ;
  Claims = Text;
  username = λ t. [];
  id = first_or_zero;
  get_access_token = λ name key id now. ok (id ∷ (now + 10800) ∷ key ∷ bytes "casaos");
  get_refresh_token = λ name key id now. ok (id ∷ (now + 604800) ∷ key ∷ bytes "refresh");
  generate_token = λ name key id issuer life now. ok (id ∷ (now + life) ∷ key ∷ issuer);
  parse_token = λ t key now. ok t;
  verify_issuer = λ t issuer. text_eq (drop 3 t) issuer;
  verify_expires_at = λ t now. ltb now (first_or_zero (drop 1 t));
}

abbrev pub keyed : Deps
keyed = record {
  gorm = deps.gorm;
  crypto = deps.crypto;
  otp = deps.otp;
  jwt = keyed_jwt;
  rate = deps.rate;
  fs = deps.fs;
  web = deps.web;
  private_key = 1;
  public_key = 1;
  pre_auth_priv = 2;
  pre_auth_pub = 2;
  user_data_path = deps.user_data_path;
  first_admin = [];
}

-- A token of this key has not expired.
abbrev pub validate : Text → ℕ → ℕ → Result (Bool × Text)
validate t key now = ok (ltb now (first_or_zero (drop 1 t)) && first_or_zero (drop 2 t) == key, t)

abbrev keyed_gate : Gate keyed
keyed_gate = record {
  is_internal_request = λ ip authorization. false;
  token_from_authorization = λ t. drop 7 t;
  validate = validate;
  jwt_middleware = middleware;
}

keyed_gate-IsLawful : IsLawful keyed keyed_gate
keyed_gate-IsLawful = record {
  middleware-skips = λ tokens parse. refl;
  middleware-admits = λ token parse claims e. taken-some (parse token) claims e;
  middleware-refuses =
      λ token parse e. (bytes "invalid or expired jwt", taken-none (parse token) e);
}

alive : (now expiry : ℕ) → now < expiry → ltb now expiry ≡ true
alive now expiry h = ground arith

pub access_valid :
    (key id issued now : ℕ) (token : Text)
    → id ∷ (issued + 10800) ∷ key ∷ bytes "casaos" ≡ token
    → now < issued + 10800
    → (claims : Text) × (validate token key now ≡ ok (true, claims)) × (first_or_zero claims ≡ id)
access_valid key id issued now token e h =
    subst
      (λ t.
        (claims : Text) × (validate t key now ≡ ok (true, claims)) × (first_or_zero claims ≡ id))
      e
      (
        id ∷ (issued + 10800) ∷ key ∷ bytes "casaos",
        rw (alive now (issued + 10800) h, ==_refl key) refl,
        refl,
      )

pub other_invalid :
    (key other id expiry now : ℕ) (issuer token claims : Text)
    → (other == key) ≡ false
    → id ∷ expiry ∷ other ∷ issuer ≡ token
    → validate token key now ≡ ok (true, claims)
    → ⊥
other_invalid key other id expiry now issuer token claims differ e h =
    ground (arith, rw (sym e) at h)

keyed_gate-IsKeyed : IsKeyed keyed keyed_gate
keyed_gate-IsKeyed = record {
  token-bearer = λ token. refl;
  access-validate =
      λ name id issued now token made issue h. access_valid 1 id issued now token (cc made) h;
  other_key-validate = λ name id life issued now issuer token claims made h.
      other_invalid 1 2 id (issued + life) now issuer token claims refl (cc made) h;
}

abbrev pub keyed_world : World keyed
keyed_world = record {
  db = table;
  user_register_hash = [];
  login_limiter = 5;
  user_limiters = [];
  files = [];
}

abbrev pub asks : Request
asks = record {
  endpoint = login (body_of ("username", bytes "alice") ("password", bytes "secret"));
  real_ip = bytes "10.0.0.9";
  authorization = [];
  token_param = [];
  user_id = [];
  now = 100;
  salt = repeat 16 1;
  draws = [];
  draw_error = [];
  totp_key = λ name. err [];
  uuid = [];
  gpus = 0;
}

abbrev asks_bob : Request
asks_bob = record asks {
  endpoint = login (body_of ("username", bytes "bob") ("password", bytes "hunter"));
}

abbrev uses : Text → Request
uses token = record asks { endpoint = current; authorization = bearer ++ token; now = 5000 }

abbrev answer_of : Served keyed → Response
answer_of (replied answer w) = answer
answer_of _ = reply_ok nothing

abbrev world_of : Served keyed → World keyed
world_of (replied answer w) = w
world_of (exited w) = w
world_of (panicked w) = w

abbrev pub granted : VerifyInformation
granted = record {
  refresh_token = 1 ∷ 604900 ∷ 1 ∷ bytes "refresh";
  access_token = 1 ∷ 10900 ∷ 1 ∷ bytes "casaos";
  expires_at = 10900;
}

sign_in-admitted_example :
    serve keyed keyed_gate (uses granted.access_token) keyed_world
    ≡ handle keyed keyed_gate (uses granted.access_token) current (itoa 1) keyed_world
unfolding serve handle is_open post_user_login login_fields text_eq login_row
    get_user_all_info_by_name password_matches verify_password parse_argon six split get_md5_by_str
    hex login_matched finish_login issue_tokens
sign_in-admitted_example =
    sign_in-admitted keyed keyed_gate keyed_gate-IsLawful keyed_gate-IsKeyed asks
      (body_of ("username", bytes "alice") ("password", bytes "secret")) keyed_world
      (world_of (serve keyed keyed_gate asks keyed_world))
      (answer_of (serve keyed keyed_gate asks keyed_world)) granted (record alice { password = [] })
      (inl refl) refl refl (uses granted.access_token) keyed_world
      (record { gated = refl; outside = refl; authorization = refl }) (omega arith) (omega arith)

pre_auth-refused_example :
    (why : Text) × (serve keyed keyed_gate (uses (2 ∷ 400 ∷ 2 ∷ bytes "2fa")) keyed_world
      ≡ replied (unauthorized keyed why) keyed_world)
unfolding serve handle is_open post_user_login login_fields text_eq login_row
    get_user_all_info_by_name password_matches verify_password parse_argon six split get_md5_by_str
    hex login_matched finish_login issue_pre_auth_token
pre_auth-refused_example =
    pre_auth-refused keyed keyed_gate keyed_gate-IsLawful keyed_gate-IsKeyed memory-IsLawful
      asks_bob (body_of ("username", bytes "bob") ("password", bytes "hunter")) keyed_world
      (world_of (serve keyed keyed_gate asks_bob keyed_world))
      (answer_of (serve keyed keyed_gate asks_bob keyed_world)) (2 ∷ 400 ∷ 2 ∷ bytes "2fa") 400 refl
      refl refl (uses (2 ∷ 400 ∷ 2 ∷ bytes "2fa")) keyed_world
      (record { gated = refl; outside = refl; authorization = refl })
