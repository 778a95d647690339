-- ===== src/Tests/Processes.antt =====
-- Starts of whole processes, on the files of the tests.
use casa_os_user_service.Common.{◌≡◌, refl, false, Option, some, [], ◌∷◌, ◌++◌, List, ◌+◌, arith}
use casa_os_user_service.Common.Text.{Text, bytes}
use casa_os_user_service.Disk.{ok, has_prefix}
use casa_os_user_service.Logs.{access_log_format}
use casa_os_user_service.Logs.Paths.{occurrences, uri_tag, path_tag, access_log_format-occurrences}
use casa_os_user_service.Route.FirstAdmin.{input}
use casa_os_user_service.Sqlite.{Driver}
use casa_os_user_service.Start.{Flags}
use casa_os_user_service.Start.Process.{Machine, Process, crashed, serves, process}
use casa_os_user_service.Tests.Codec.{repeat}
use casa_os_user_service.Tests.Starts.{plain, ini, defaults}
use casa_os_user_service.Tests.Service.{deps, fs}

abbrev pub driver : Driver fs
driver = record { Db = Text; open' = λ path f. (ok path, f); auto_migrate = λ db f. (ok tt, f) }

-- The gateway keeps its routes.
abbrev pub machine : Option Text → Machine
machine key = record {
  deps = deps;
  ini = ini;
  defaults = defaults;
  codec = plain;
  private_of = λ k. tt;
  public_of = λ k. tt;
  driver = driver;
  table = λ db f. [];
  login_limiter = 5;
  Gateway = List (Text × Text);
  new_management_service = λ path f. ok [];
  create_route = λ path target g. (ok tt, (path, target) ∷ g);
  generate_jwks_json = λ k. ok (bytes "keys");
  jwks_path = bytes "jwks.json";
  join = λ directory name. directory ++ b'/' ∷ name;
  address_filename = bytes "user-service.url";
  v2_api_path = bytes "/v2/users";
  v2_doc_path = bytes "/doc/v2/users";
  sample = bytes "[app]";
  new_key = key;
  new_pre_auth = some (bytes "pre-auth");
  listen = ok (bytes "127.0.0.1:80");
  salt = repeat 16 1;
  draws = [];
  credentials = input false [] (ok tt);
}

abbrev no_flags : Flags
no_flags = record { version = false; bootstrap_admin = false; reset = false; user = [] }

abbrev last_files : Process (machine (some (bytes "key"))) → List (Text × Text)
last_files (serves user app db jwks address g f) = f
last_files (crashed f) = []
last_files _ = []

abbrev last_routes : Process (machine (some (bytes "key"))) → List (Text × Text)
last_routes (serves user app db jwks address g f) = g
last_routes _ = []

abbrev started : Process (machine (some (bytes "key")))
started = process (machine (some (bytes "key"))) no_flags [] [] []

-- A format like echo's.
abbrev format : Text
format = bytes "{\"id\":\"${id}\",\"method\":\"${method}\",\"uri\":\"${uri}\",\"status\":${status}}"

access_log_format-occurrences_example :
    (occurrences (access_log_format format) uri_tag ≡ 0)
    × (occurrences (access_log_format format) path_tag ≡ occurrences format path_tag + 1)
unfolding has_prefix
access_log_format-occurrences_example = access_log_format-occurrences format (omega arith) refl
