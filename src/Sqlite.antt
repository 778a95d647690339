-- ===== src/Sqlite.antt =====
-- pkg/sqlite/db.go: the one database of a process. gorm, the SQLite driver and the migration of the
-- tables are not of this repository and are fields of `Driver`. The limits of the pool are left out,
-- and so is the log of a migration that failed, which is all that such a failure comes to.
pub mod Single
use casa_os_user_service.Common.{Option, none, some, List, [], ◌∷◌, ◌++◌}
use casa_os_user_service.Common.Text.{Text, bytes}
use casa_os_user_service.Disk.{FileSystem, Result, ok, err, is_not_exist_mk_dir}

pub record Driver (fs : FileSystem) : Type 1 where
  -- *gorm.DB
  pub Db : Type 0
  -- gorm.Open
  pub open' : Text → fs.Files → Result Db × fs.Files
  -- AutoMigrate of the accounts and the events
  pub auto_migrate : Db → fs.Files → Result (Unit {0}) × fs.Files

pub data Opened (Db : Type 0) : Type 0 where
  opened : Db → Opened Db
  unopened : Text → Opened Db

abbrev pub dsn : Text → Text
dsn path = path ++ bytes "/user.db?_pragma=busy_timeout(5000)"

module _ (fs : FileSystem) (driver : Driver fs) where
  -- `gdb`, and the files.
  abbrev pub Held : Type 0
  Held = Option driver.Db × fs.Files

  abbrev pub db_opened : Result driver.Db × fs.Files → Opened driver.Db × Held
  db_opened (err e, f) = (unopened e, (none, f))
  db_opened (ok db, f) = (opened db, (some db, (driver.auto_migrate db f).1))

  -- A database that cannot be opened is a panic.
  unfoldable pub get_db : Text → Held → Opened driver.Db × Held
  get_db path (some db, f) = (opened db, (some db, f))
  get_db path (none, f) = db_opened (driver.open' (dsn path) (is_not_exist_mk_dir fs path f).1)

  -- Several calls, one after the other.
  unfoldable pub get_dbs : List Text → Held → List (Opened driver.Db) × Held
  get_dbs [] s = ([], s)
  get_dbs (path ∷ paths) s =
      let (db, t) = get_db path s in let (dbs, u) = get_dbs paths t in (db ∷ dbs, u)
