-- ===== src/Config/Sample.antt =====
-- Which file a start is configured by.
use casa_os_user_service.Common.{◌≡◌, refl, true, false, Option, none, some, Bool-cases, inl, inr}
use casa_os_user_service.Common.Text.{Text}
use casa_os_user_service.Disk.{FileSystem, Result, ok, err, check_not_exist, IsLawful}
use casa_os_user_service.Config.{
  CommonModel, AppModel, Ini, Defaults, Setup, configured, panicked, config_file_path, common_info,
  app_info, loaded, file_read, sample_written, file_created, init_setup, app_reflected, saved_to,
  save_setup,
}

module _ (ini : Ini) (c : Defaults) (fs : FileSystem) (law : IsLawful fs) where
  -- The start is configured by the file that it leaves at the path: the one that was there,
  -- untouched, or the sample; or it panics, because the sample could not be put there.
  pub data Configured (config sample : Text) (f : fs.Files)
      : Setup ini.File × fs.Files → Type 0 where
    by_file :
        check_not_exist fs (config_file_path config) f ≡ false
        → Configured config sample f (file_read ini c (fs.read_file (config_file_path config) f), f)
    by_sample :
        (g : fs.Files)
        → check_not_exist fs (config_file_path config) f ≡ true
        → fs.read_file (config_file_path config) g ≡ ok sample
        → Configured config sample f (loaded ini c (ini.load sample), g)
    unwritten :
        (g : fs.Files)
        → check_not_exist fs (config_file_path config) f ≡ true
        → Configured config sample f (panicked, g)

  sample_written-Configured :
      (config sample : Text) (f : fs.Files) (r : Result (Unit {0}) × fs.Files)
      → check_not_exist fs (config_file_path config) f ≡ true
      → (r.0 ≡ ok tt → fs.read_file (config_file_path config) r.1 ≡ ok sample)
      → Configured config sample f (sample_written ini c fs (config_file_path config) r)
  sample_written-Configured config sample f (err e, g) gone written = unwritten g gone
  sample_written-Configured config sample f (ok _, g) gone written =
      let there = written refl in rw there (by_sample g gone there)

  file_created-Configured :
      (config sample : Text) (f : fs.Files) (r : Result (Unit {0}) × fs.Files)
      → check_not_exist fs (config_file_path config) f ≡ true
      → Configured config sample f (file_created ini c fs (config_file_path config) sample r)
  file_created-Configured config sample f (err e, g) gone = unwritten g gone
  file_created-Configured config sample f (ok _, g) gone =
      sample_written-Configured config sample f (fs.write_file (config_file_path config) sample g)
        gone (law.write-read (config_file_path config) sample g)

  -- A start whose configuration file is there is configured by it and leaves all files alone. If the
  -- file is not there, the sample is put there and the start is configured by it, or it panics.
  pub init_setup-Configured :
      (config sample : Text) (f : fs.Files)
      → Configured config sample f (init_setup ini c fs config sample f)
  unfolding init_setup
  init_setup-Configured config sample f =
      elim (Bool-cases (check_not_exist fs (config_file_path config) f)) [
        | inl gone ↦
            rw gone
              (file_created-Configured config sample f (fs.create (config_file_path config) f) gone)
        | inr there ↦ rw there (by_file there)
      ]

  -- What is documented of ini: what was printed loads again, and what was reflected maps back.
  pub record IsRoundTrip : Type 0 where
    pub print-load : (file : ini.File) → ini.load (ini.print file) ≡ some file
    pub reflect-common :
        (common : CommonModel) (app : AppModel) (base file file' : ini.File)
        → ini.reflect_from_common common base ≡ some file
        → ini.reflect_from_app app file ≡ some file'
        → ini.map_to_common file' (common_info c) ≡ some common
    pub reflect-app :
        (app : AppModel) (base file : ini.File)
        → ini.reflect_from_app app base ≡ some file
        → ini.map_to_app file (app_info c) ≡ some app

  saved-Configured :
      (path : Text) (file : ini.File) (common : CommonModel) (app : AppModel) (f : fs.Files)
      (o : Option ini.File)
      → IsRoundTrip
      → ini.reflect_from_common common file ≡ o
      → (saved_to ini c fs path (app_reflected ini c app o) f).0 ≡ ok tt
      → (file' : ini.File) × (file_read ini c
            (fs.read_file path (saved_to ini c fs path (app_reflected ini c app o) f).1)
          ≡ configured file' common app)
  saved-Configured path file common app f none trip e h = cc
  saved-Configured path file common app f (some base) trip e h =
      reflected (ini.reflect_from_app app base) refl h
    where
      reflected :
          (o : Option ini.File)
          → ini.reflect_from_app app base ≡ o
          → (saved_to ini c fs path o f).0 ≡ ok tt
          → (file' : ini.File) × (file_read ini c (fs.read_file path (saved_to ini c fs path o f).1)
              ≡ configured file' common app)
      reflected none q k = cc
      reflected (some file') q k = (
        file',
        rw
            (
              law.write-read path (ini.print file') f k,
              trip.print-load file',
              trip.reflect-common common app file base file' e q,
              trip.reflect-app app base file' q,
            )
            refl,
      )

  -- Settings that were saved without an error are those that a start with the same file reads.
  pub save_setup-file_read :
      (config : Text) (file : ini.File) (common : CommonModel) (app : AppModel) (f : fs.Files)
      → IsRoundTrip
      → (save_setup ini c fs config file common app f).0 ≡ ok tt
      → (file' : ini.File) × (file_read ini c (
            fs.read_file (config_file_path config) (save_setup ini c fs config file common app f).1)
          ≡ configured file' common app)
  unfolding save_setup
  save_setup-file_read config file common app f trip h =
      saved-Configured (config_file_path config) file common app f
        (ini.reflect_from_common common file) trip refl h
