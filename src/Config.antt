-- ===== src/Config.antt =====
-- pkg/config/init.go and config.go: the configuration file. Package ini is the parameter `Ini`.
pub mod Sample
use casa_os_user_service.Common.{
  Bool, true, false, Option, none, some, List, [], ◌∷◌, if◌then◌else◌,
}
use casa_os_user_service.Common.Text.{Text, bytes, is_empty}
use casa_os_user_service.Disk.{FileSystem, Result, ok, err, check_not_exist}

pub record CommonModel : Type 0 where
  pub runtime_path : Text

pub record AppModel : Type 0 where
  pub log_path : Text
  pub log_save_name : Text
  pub log_file_ext : Text
  pub user_data_path : Text
  pub db_path : Text
  pub first_admin : Text

pub record Ini : Type 1 where
  pub File : Type 0
  pub load : Text → Option File
  pub print : File → Text
  -- Section("common").MapTo, Section("app").MapTo
  pub map_to_common : File → CommonModel → Option CommonModel
  pub map_to_app : File → AppModel → Option AppModel
  -- Section("common").ReflectFrom, Section("app").ReflectFrom
  pub reflect_from_common : CommonModel → File → Option File
  pub reflect_from_app : AppModel → File → Option File

-- The paths that CasaOS-Common has for run time, data and logs.
pub record Defaults : Type 0 where
  pub runtime_path : Text
  pub data_path : Text
  pub log_path : Text

abbrev pub user_service_config_file_path : Text
user_service_config_file_path = bytes "/etc/casaos/user-service.conf"

-- `CommonInfo` and `AppInfo` before a file is read.
abbrev pub common_info : Defaults → CommonModel
common_info c = record { runtime_path = c.runtime_path }

abbrev pub app_info : Defaults → AppModel
app_info c = record {
  db_path = c.data_path;
  user_data_path = c.data_path;
  log_path = c.log_path;
  log_save_name = bytes "user";
  log_file_ext = bytes "log";
  first_admin = [];
}

-- The settings, or how the process ended: by a panic, or with an error on its output.
pub data Setup (File : Type 0) : Type 0 where
  configured : File → CommonModel → AppModel → Setup File
  panicked exited : Setup File

abbrev pub config_file_path : Text → Text
config_file_path config = if is_empty config then user_service_config_file_path else config

module _ (ini : Ini) (c : Defaults) where
  abbrev pub app_mapped : ini.File → CommonModel → Option AppModel → Setup ini.File
  app_mapped file common none = exited
  app_mapped file common (some app) = configured file common app

  -- mapTo
  abbrev pub common_mapped : ini.File → Option CommonModel → Setup ini.File
  common_mapped file none = exited
  common_mapped file (some common) = app_mapped file common (ini.map_to_app file (app_info c))

  abbrev pub loaded : Option ini.File → Setup ini.File
  loaded none = exited
  loaded (some file) = common_mapped file (ini.map_to_common file (common_info c))

  -- ini.Load: a file that cannot be read is an error as well.
  abbrev pub file_read : Result Text → Setup ini.File
  file_read (err e) = exited
  file_read (ok t) = loaded (ini.load t)

  module _ (fs : FileSystem) where
    abbrev pub sample_written : Text → Result (Unit {0}) × fs.Files → Setup ini.File × fs.Files
    sample_written path (err e, f) = (panicked, f)
    sample_written path (ok _, f) = (file_read (fs.read_file path f), f)

    abbrev pub file_created : Text → Text → Result (Unit {0}) × fs.Files → Setup ini.File × fs.Files
    file_created path sample (err e, f) = (panicked, f)
    file_created path sample (ok _, f) = sample_written path (fs.write_file path sample f)

    unfoldable pub init_setup : Text → Text → fs.Files → Setup ini.File × fs.Files
    init_setup config sample f =
        let path = config_file_path config in
        if check_not_exist fs path f
        then file_created path sample (fs.create path f)
        else (file_read (fs.read_file path f), f)

  abbrev pub app_reflected : AppModel → Option ini.File → Option ini.File
  app_reflected app none = none
  app_reflected app (some file) = ini.reflect_from_app app file

  abbrev pub saved_to :
      (fs : FileSystem) → Text → Option ini.File → fs.Files → Result (Unit {0}) × fs.Files
  saved_to fs path none f = (err [], f)
  saved_to fs path (some file) f = fs.write_file path (ini.print file) f

  -- An error ends the process.
  unfoldable pub save_setup :
      (fs : FileSystem)
      → Text
      → ini.File
      → CommonModel
      → AppModel
      → fs.Files
      → Result (Unit {0}) × fs.Files
  save_setup fs config file common app f =
      saved_to fs (config_file_path config)
        (app_reflected app (ini.reflect_from_common common file)) f
