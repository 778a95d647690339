-- ===== src/Start/Process.antt =====
-- `init` and `main` of main.go as one: from the flags to a process that listens, over the
-- configuration (Config), the database (Sqlite), the services (Services) and the commands.
--
-- The listener, the gateway and the JWKS of CasaOS-Common are parameters. What systemd is told and
-- what is logged is left out.
pub mod Made
pub mod Listens
pub mod Restarted
use casa_os_user_service.Common.{ℕ, ◌||◌, Option, none, some, List, [], if◌then◌else◌}
use casa_os_user_service.Common.Text.{Text, is_empty}
use casa_os_user_service.Config.{
  CommonModel, AppModel, Ini, Defaults, Setup, configured, panicked, exited, init_setup,
}
use casa_os_user_service.Disk.{Result, ok, err}
use casa_os_user_service.Keys.{KeyCodec}
use casa_os_user_service.Route.{Deps, World}
use casa_os_user_service.Route.FirstAdmin.{Credentials}
use casa_os_user_service.Services.{UserService, Store, key_path, new_user_service, new_service}
use casa_os_user_service.Sqlite.{Driver, Opened, opened, unopened, Held, get_db}
use casa_os_user_service.Start
use casa_os_user_service.Start.{Flags, Started, start, Ready, listening, api_paths, announce}

-- What the process is given: the code that is not of this repository, and what it draws and reads.
pub record Machine : Type 2 where
  pub deps : Deps
  pub ini : Ini
  pub defaults : Defaults
  pub codec : KeyCodec
  pub private_of : codec.Key → deps.jwt.PrivateKey
  pub public_of : codec.Key → deps.jwt.PublicKey
  pub driver : Driver deps.fs
  -- the table of an open database
  pub table : driver.Db → deps.fs.Files → deps.gorm.State
  pub login_limiter : deps.rate.Limiter
  pub Gateway : Type 0
  pub new_management_service : Text → deps.fs.Files → Result Gateway
  pub create_route : Text → Text → Gateway → Result (Unit {0}) × Gateway
  pub generate_jwks_json : deps.jwt.PublicKey → Result Text
  pub jwks_path : Text
  pub join : Text → Text → Text
  pub address_filename : Text
  pub v2_api_path : Text
  pub v2_doc_path : Text
  pub sample : Text
  -- what GenerateKeyPair gives for each of the two keys, and net.Listen
  pub new_key : Option codec.Key
  pub new_pre_auth : Option codec.Key
  pub listen : Result Text
  pub salt : Text
  pub draws : List ℕ
  pub credentials : Credentials

module _ (m : Machine) where
  abbrev pub Files : Type 0
  Files = m.deps.fs.Files

  -- The handlers run with the keys of the service and the settings of the application.
  abbrev pub served_by : UserService m.codec → AppModel → Deps
  served_by user app = record m.deps {
    private_key = m.private_of user.key;
    public_key = m.public_of user.key;
    pre_auth_priv = m.private_of user.pre_auth;
    pre_auth_pub = m.public_of user.pre_auth;
    user_data_path = app.user_data_path;
    first_admin = app.first_admin;
  }

  abbrev pub first_world :
      (user : UserService m.codec)
      → (app : AppModel) → m.driver.Db
      → Files
      → World (served_by user app)
  first_world user app db f = record {
    db = m.table db f;
    user_register_hash = [];
    login_limiter = m.login_limiter;
    user_limiters = [];
    files = f;
  }

  -- How the process gets on: the version, a failure with a message, a panic, what a command came
  -- to; or it serves, with the JWKS that it publishes and the address.
  pub data Process : Type 1 where
    printed : Process
    failed crashed : Files → Process
    commanded :
        (user : UserService m.codec) → (app : AppModel) → Started (served_by user app) → Process
    serves :
        (user : UserService m.codec)
        → AppModel
        → m.driver.Db
        → Text
        → Text
        → m.Gateway
        → Files
        → Process

  abbrev pub announced :
      UserService m.codec → AppModel → m.driver.Db → Text → Text → Ready m.Gateway Files → Process
  announced user app db jwks address (Start.panicked e g f) = crashed f
  announced user app db jwks address (listening g f) = serves user app db jwks address g f

  abbrev pub listened :
      CommonModel
      → UserService m.codec
      → AppModel
      → m.driver.Db
      → m.Gateway
      → Files
      → Text
      → Result Text
      → Process
  listened common user app db g f jwks (err e) = crashed f
  listened common user app db g f jwks (ok address) = announced user app db jwks address (
      announce m.Gateway m.create_route m.deps.fs m.join common.runtime_path m.address_filename
        address (api_paths m.Gateway m.create_route m.v2_api_path m.v2_doc_path m.jwks_path) g f)

  abbrev pub jwks_made :
      CommonModel
      → UserService m.codec
      → AppModel
      → m.driver.Db
      → m.Gateway
      → Files
      → Result Text
      → Process
  jwks_made common user app db g f (err e) = crashed f
  jwks_made common user app db g f (ok jwks) = listened common user app db g f jwks m.listen

  -- GetKeyPair of a service that is nil is a panic.
  abbrev pub key_pair_got :
      CommonModel
      → AppModel
      → m.driver.Db
      → m.Gateway
      → Option (UserService m.codec)
      → Files
      → Process
  key_pair_got common app db g none f = crashed f
  key_pair_got common app db g (some user) f =
      jwks_made common user app db g f (m.generate_jwks_json (m.public_of user.key))

  -- `NewService`, the last step of `init`, and `main`.
  abbrev pub services_made :
      CommonModel
      → AppModel
      → m.driver.Db
      → Result (Store m.codec m.Gateway × Files)
      → Files
      → Process
  services_made common app db (err e) f = crashed f
  services_made common app db (ok (store, g)) f =
      key_pair_got common app db store.gateway store.user g

  -- A command on a service that is nil: `-bootstrap-admin` calls it at once, and `-ru` with a name
  -- given.
  abbrev pub command_run :
      AppModel → m.driver.Db → Flags → Option (UserService m.codec) × Files → Process
  command_run app db flags (none, f) =
      if flags.bootstrap_admin
      then crashed f
      else if is_empty flags.user
      then failed f
      else crashed f
  command_run app db flags (some user, f) =
      commanded user app
        (start (served_by user app) m.salt m.draws m.credentials flags (first_world user app db f))

  abbrev pub database_opened :
      Flags → CommonModel → AppModel → Opened m.driver.Db × Held m.deps.fs m.driver → Process
  database_opened flags common app (unopened e, (held, f)) = crashed f
  database_opened flags common app (opened db, (held, f)) =
      if flags.bootstrap_admin || flags.reset
      then command_run app db flags (
          new_user_service m.codec m.deps.fs (key_path m.codec m.deps.fs m.join app) m.new_key
            m.new_pre_auth f)
      else services_made common app db
          (new_service m.codec m.deps.fs m.join app m.new_key m.new_pre_auth
            (m.new_management_service common.runtime_path f) f)
          f

  -- The path of `-db`, or else of the configuration.
  abbrev pub db_path_of : Text → AppModel → Text
  db_path_of db app = if is_empty db then app.db_path else db

  abbrev pub config_read : Flags → Text → Setup m.ini.File × Files → Process
  config_read flags db (exited, f) = failed f
  config_read flags db (panicked, f) = crashed f
  config_read flags db (configured file common app, f) =
      database_opened flags common app (get_db m.deps.fs m.driver (db_path_of db app) (none, f))

  -- From the flags, with the addresses of the configuration and of the database.
  unfoldable pub process : Flags → Text → Text → Files → Process
  process flags config db f =
      if flags.version
      then printed
      else config_read flags db (init_setup m.ini m.defaults m.deps.fs config m.sample f)
