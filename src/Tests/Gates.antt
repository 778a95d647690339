-- ===== src/Tests/Gates.antt =====
-- A gate that takes the tokens of the tests, and requests through it.
use casa_os_user_service.Users.{delete_user_by_id, select_info, get_user_info_by_id}
use casa_os_user_service.Route.Account.{delete_user, get_user_info}
use casa_os_user_service.Server.{
  admission, parse_token_func, token_lookup, is_open, Admission, skipped, admitted, refused, Gate,
  Endpoint, login, verify_factor, current, disable_factor, delete_everyone, delete_one, Request,
  handle, serve, serve_all,
}
use casa_os_user_service.Common.{
  ◌≡◌, ◌⊎◌, refl, Bool, true, false, Option, none, some, List, [], ◌∷◌, ltb, drop,
}
use casa_os_user_service.Common.Text.{Text, bytes, text_eq}
use casa_os_user_service.Common.Decimal.{itoa}
use casa_os_user_service.Common.Int.{pos}
use casa_os_user_service.Users.Enrolment.{Enrolled, taken_off}
use casa_os_user_service.Route.{World, ok, err, replied, reply_ok, account}
use casa_os_user_service.Users.Database.{zero_user}
use casa_os_user_service.Server.Replies.{IsFit}
use casa_os_user_service.Server.Replies.Sent.{serve-IsFit}
use casa_os_user_service.Server.Guarded.{
  IsLawful, unauthorized, HasToken, serve-gated, serve-user_id,
}
use casa_os_user_service.Server.Outsiders.{serve_all-Enrolled}
use casa_os_user_service.Users.Table.{HasKeys}
use casa_os_user_service.Server.Reached.{Reaches}
use casa_os_user_service.Server.Reached.Runs.{serve_all-HasKeys}
use casa_os_user_service.Tests.Memory.{memory, memory-IsLawful}
use casa_os_user_service.Tests.Codec.{repeat}
use casa_os_user_service.Tests.Service.{deps, first_or_zero, alice, bob, table, world, body_of}
use casa_os_user_service.Tests.Accounts.{table-HasKeys, bob-Enrolled}

abbrev pub taken : Option Text → Admission Text
taken none = refused 401 (bytes "invalid or expired jwt")
taken (some claims) = admitted claims

abbrev pub middleware : Bool → List Text → (Text → Option Text) → Admission Text
middleware true tokens parse = skipped
middleware false [] parse = refused 400 (bytes "missing or malformed jwt")
middleware false (t ∷ ts) parse = taken (parse t)

abbrev gate : Gate deps
gate = record {
  is_internal_request = λ ip authorization. text_eq authorization (bytes "internal");
  token_from_authorization = λ t. t;
  validate = λ t key now. ok (ltb now (first_or_zero (drop 1 t)), t);
  jwt_middleware = middleware;
}

pub taken-none :
    (o : Option Text) → o ≡ none → taken o ≡ refused 401 (bytes "invalid or expired jwt")
taken-none none e = refl
taken-none (some c) e = cc

pub taken-some : (o : Option Text) (c : Text) → o ≡ some c → taken o ≡ admitted c
taken-some none c e = cc
taken-some (some x) c e = cc

gate-IsLawful : IsLawful deps gate
gate-IsLawful = record {
  middleware-skips = λ tokens parse. refl;
  middleware-admits = λ token parse claims e. taken-some (parse token) claims e;
  middleware-refuses =
      λ token parse e. (bytes "invalid or expired jwt", taken-none (parse token) e);
}

abbrev request : Endpoint → Text → Text → Request
request endpoint authorization user_id = record {
  endpoint = endpoint;
  real_ip = bytes "10.0.0.9";
  authorization = authorization;
  token_param = [];
  user_id = user_id;
  now = 330;
  salt = repeat 16 1;
  draws = [];
  draw_error = [];
  totp_key = λ name. err [];
  uuid = bytes "key";
  gpus = 0;
}

-- A request of alice, with a header that claims the id of bob.
abbrev of_alice : Request
of_alice = request current (1 ∷ 900 ∷ bytes "casaos") (bytes "2")

serve-gated_example :
    (((claims : Text) → HasToken deps gate gate-IsLawful of_alice claims → ⊥)
      × (why : Text) × (serve deps gate of_alice world ≡ replied (unauthorized deps why) world))
    ⊎ ((claims : Text) × HasToken deps gate gate-IsLawful of_alice claims
        × (serve deps gate of_alice world
            ≡ handle deps gate of_alice of_alice.endpoint (itoa (deps.jwt.id claims)) world))
unfolding is_open text_eq
serve-gated_example = serve-gated deps gate gate-IsLawful of_alice world refl refl

serve-user_id_example :
    serve deps gate (record of_alice { user_id = bytes "3" }) world ≡ serve deps gate of_alice world
unfolding text_eq
serve-user_id_example = serve-user_id deps gate gate-IsLawful of_alice (bytes "3") world refl

-- A wrong password, a guessed second step, and requests with a token that has expired.
abbrev outsiders : List Request
outsiders =
    request (login (body_of ("username", bytes "bob") ("password", bytes "guess"))) [] (bytes "2")
    ∷ request (verify_factor (body_of ("pre_auth_token", 2 ∷ 9 ∷ bytes "2fa") ("code", 11 ∷ []))) []
        (bytes "2")
    ∷ request (disable_factor (body_of ("password", bytes "hunter") ("", []))) (2 ∷ 9 ∷ [])
        (bytes "2")
    ∷ request delete_everyone [] (bytes "1")
    ∷ []

serve_all-Enrolled_example :
    (w' : World deps) × (serve_all deps gate outsiders world ≡ some w')
    × Enrolled taken_off memory memory-IsLawful 2 (bytes "KEY") (pos 10) bob.recovery_codes w'.db
unfolding text_eq parse_token_func token_lookup
serve_all-Enrolled_example =
    serve_all-Enrolled deps memory-IsLawful 2 (bytes "KEY") (pos 10) bob.recovery_codes gate
      gate-IsLawful outsiders world
      ((refl, λ c h. cc), ((refl, λ c h. cc), ((refl, λ c h. cc), ((refl, λ c h. cc), tt))))
      bob-Enrolled

-- Alice deletes carol.
abbrev deletion : List Request
deletion = request (delete_one (bytes "3")) (1 ∷ 900 ∷ bytes "casaos") [] ∷ []

serve_all-HasKeys_example : Reaches deps table (alice ∷ bob ∷ []) × HasKeys (alice ∷ bob ∷ [])
unfolding serve_all serve is_open admission text_eq parse_token_func token_lookup handle delete_user
    delete_user_by_id itoa
serve_all-HasKeys_example =
    serve_all-HasKeys deps gate memory-IsLawful deletion world
      (record world { db = alice ∷ bob ∷ [] }) refl table-HasKeys

-- Alice reads her own account.
serve-IsFit_example : IsFit [] (
    reply_ok
      (account (record zero_user { id = 1; username = bytes "alice"; role = bytes "admin" })))
unfolding serve is_open admission text_eq parse_token_func token_lookup handle get_user_info
    get_user_info_by_id select_info itoa
serve-IsFit_example =
    serve-IsFit deps gate of_alice world world
      (reply_ok
        (account (record zero_user { id = 1; username = bytes "alice"; role = bytes "admin" })))
      refl
