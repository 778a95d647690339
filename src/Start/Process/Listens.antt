-- ===== src/Start/Process/Listens.antt =====
-- What a process that listens has behind it.
use casa_os_user_service.Common.{◌≡◌, false, none}
use casa_os_user_service.Common.Text.{Text}
use casa_os_user_service.Config.{CommonModel, AppModel, configured, init_setup}
use casa_os_user_service.Disk.{IsLawful}
use casa_os_user_service.Keys
use casa_os_user_service.Keys.{load_key, load_or_create_key_pair}
use casa_os_user_service.Services.{UserService}
use casa_os_user_service.Sqlite.{opened, Held, get_db}
use casa_os_user_service.Start.{Flags}
use casa_os_user_service.Start.Process.{Machine, Files, Process, db_path_of}
use casa_os_user_service.Start.Process.Made.{Announced, Keyed}

module _ (m : Machine) (law : IsLawful m.deps.fs) (codec_law : Keys.IsLawful m.codec) where
  -- A process that serves: it has no command, it was configured, it holds the database, and it has
  -- its keys and is announced.
  pub record Serving (flags : Flags) (config path : Text) (f : Files m) (u : UserService m.codec)
      (app : AppModel) (db : m.driver.Db) (j t : Text) (g' : m.Gateway) (f' : Files m)
      : Type 0 where
    pub no_version : flags.version ≡ false
    pub no_bootstrap : flags.bootstrap_admin ≡ false
    pub no_reset : flags.reset ≡ false
    pub file : m.ini.File
    pub common : CommonModel
    pub configured_files : Files m
    pub configured_by :
        init_setup m.ini m.defaults m.deps.fs config m.sample f
        ≡ (configured file common app, configured_files)
    pub held : Held m.deps.fs m.driver
    pub database :
        get_db m.deps.fs m.driver (db_path_of m path app) (none, configured_files)
        ≡ (opened db, held)
    pub keys : Keyed m law codec_law app held.1 u j
    pub reached : Announced m law codec_law common t g' f'
