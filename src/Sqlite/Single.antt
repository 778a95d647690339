-- ===== src/Sqlite/Single.antt =====
-- A process has one database.
use casa_os_user_service.Common.{◌≡◌, refl, none, some, List, [], ◌∷◌, map}
use casa_os_user_service.Common.Text.{Text}
use casa_os_user_service.Disk.{FileSystem, Result, ok, err}
use casa_os_user_service.Sqlite.{Driver, opened, Held, db_opened, get_db, get_dbs}

module _ (fs : FileSystem) (driver : Driver fs) where
  db_opened-held :
      (db : driver.Db) (r : Result driver.Db × fs.Files)
      → (db_opened fs driver r).0 ≡ opened db
      → (db_opened fs driver r).1.0 ≡ some db
  db_opened-held db (err e, f) h = cc
  db_opened-held db (ok x, f) h = cc

  get_db-held :
      (path : Text) (s : Held fs driver) (db : driver.Db)
      → (get_db fs driver path s).0 ≡ opened db
      → (get_db fs driver path s).1.0 ≡ some db
  unfolding get_db
  get_db-held path (some x, f) db h = cc
  get_db-held path (none, f) db h = db_opened-held db _ h

  get_dbs-held :
      (paths : List Text) (db : driver.Db) (s : Held fs driver)
      → s.0 ≡ some db
      → get_dbs fs driver paths s ≡ (map (λ path. opened db) paths, s)
  unfolding get_dbs get_db
  get_dbs-held [] db s h = refl
  get_dbs-held (path ∷ paths) db (none, f) h = cc
  get_dbs-held (path ∷ paths) db (some x, f) h =
      let same = get_dbs-held paths db (some x, f) h in cc (h, same)

  -- Once the database was opened, every later call of the process gives that database, whatever the
  -- path, and touches neither it nor the files.
  pub get_db-single :
      (path : Text) (paths : List Text) (s : Held fs driver) (db : driver.Db)
      → (get_db fs driver path s).0 ≡ opened db
      → let t = (get_db fs driver path s).1 in
        get_dbs fs driver paths t ≡ (map (λ path. opened db) paths, t)
  get_db-single path paths s db h = get_dbs-held paths db _ (get_db-held path s db h)
