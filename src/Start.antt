-- ===== src/Start.antt =====
-- main.go: the commands of `init`, and the routes, the address file and the registration of `main`.
-- Between the version and the commands `init` reads the configuration (Config) and opens the
-- database; a process that gets this far has both.
pub mod Commands
pub mod Announced
pub mod Process
use casa_os_user_service.Common.{
  ℕ, zero, suc, Bool, true, false, Option, none, some, List, [], ◌∷◌, ◌++◌, ◌==◌, if◌then◌else◌,
}
use casa_os_user_service.Common.Text.{Text, bytes}
use casa_os_user_service.Disk.{FileSystem, Result, ok, err}
use casa_os_user_service.Reset.{reset_user}
use casa_os_user_service.Route.{Deps, World, Published, unreachable, answered}
use casa_os_user_service.Route.FirstAdmin.{
  AdminError, AdminResult, created, refused, Credentials, bootstrap_first_admin,
}

pub record Flags : Type 0 where
  pub version : Bool
  pub bootstrap_admin : Bool
  pub reset : Bool
  pub user : Text

-- How the start comes out: the version is printed; a command fails (exit status 1) or is done (exit
-- status 0); or the process goes on to serve.
pub data Started (d : Deps) : Type 0 where
  version_printed : Started d
  not_created : AdminError → World d → Started d
  not_reset : Text → World d → Started d
  administrator : Text → World d → Started d
  credentials : Text × Text → World d → Started d
  serving : World d → Started d

module _ (d : Deps) where
  abbrev pub bootstrapped : AdminResult Text × World d → Started d
  bootstrapped (created name, w) = administrator name w
  bootstrapped (refused e, w) = not_created e w

  abbrev pub has_reset : World d → Result (Text × Text) × d.gorm.State → Started d
  has_reset w (ok printed, s) = credentials printed (record w { db = s })
  has_reset w (err e, s) = not_reset e (record w { db = s })

  -- The salt and the draws are those of the one password that a command may hash or make.
  unfoldable pub start : Text → List ℕ → Credentials → Flags → World d → Started d
  start salt draws given flags w =
      if flags.version
      then version_printed
      else if flags.bootstrap_admin
      then bootstrapped (bootstrap_first_admin d salt given w)
      else if flags.reset
      then has_reset w (reset_user d salt draws flags.user w.db)
      else serving w

abbrev pub is_registered : Published → Bool
is_registered unreachable = false
is_registered (answered code) = code == 200

-- The rounds of the registration that are left, how many were made, and what the bus answers to
-- each. The value is how many were made in the end.
unfoldable pub register_event_types : ℕ → ℕ → (ℕ → Published) → ℕ
register_event_types zero made bus = made
register_event_types (suc n) made bus =
    let rest = register_event_types n (suc made) bus in
    if is_registered (bus made) then suc made else rest

abbrev pub register_rounds : ℕ
register_rounds = 10

module _ (fs : FileSystem) where
  abbrev pub dir_ready : Text → Text → Result (Unit {0}) × fs.Files → Result (Unit {0}) × fs.Files
  dir_ready path address (err e, f) = (err e, f)
  dir_ready path address (ok _, f) = fs.write_file path address f

  -- filepath.Join is an argument.
  unfoldable pub write_address_file :
      (Text → Text → Text) → Text → Text → Text → fs.Files → Result (Unit {0}) × fs.Files
  write_address_file join runtime_path filename address f =
      dir_ready (join runtime_path filename) address (fs.mkdir_all runtime_path f)

-- The steps of `main` that end in a panic: the routes of the gateway, one after the other, and then
-- the address file. `create_route` is the gateway's, on its own state.
pub data Ready (G Files : Type 0) : Type 0 where
  panicked : Text → G → Files → Ready G Files
  listening : G → Files → Ready G Files

module _ (G : Type 0) (create_route : Text → Text → G → Result (Unit {0}) × G) where
  abbrev pub api_paths : Text → Text → Text → List Text
  api_paths v2_api_path v2_doc_path jwks_path =
      bytes "/v1/users" ∷ v2_api_path ∷ v2_doc_path ∷ (b'/' ∷ jwks_path) ∷ []

  abbrev pub route_created :
      Result (Unit {0}) × G → (G → Result (Unit {0}) × G) → Result (Unit {0}) × G
  route_created (err e, g) k = (err e, g)
  route_created (ok _, g) k = k g

  unfoldable pub create_routes : List Text → Text → G → Result (Unit {0}) × G
  create_routes [] target g = (ok tt, g)
  create_routes (path ∷ paths) target g =
      route_created (create_route path target g) (create_routes paths target)

  module _ (fs : FileSystem) where
    abbrev pub address_written : G → Result (Unit {0}) × fs.Files → Ready G fs.Files
    address_written g (err e, f) = panicked e g f
    address_written g (ok _, f) = listening g f

    abbrev pub routes_created :
        (G → Result (Unit {0}) × fs.Files) → fs.Files → Result (Unit {0}) × G → Ready G fs.Files
    routes_created write f (err e, g) = panicked e g f
    routes_created write f (ok _, g) = address_written g (write g)

    -- The address that was bound, and where the address file goes.
    unfoldable pub announce :
        (Text → Text → Text) → Text → Text → Text → List Text → G → fs.Files → Ready G fs.Files
    unfolding write_address_file create_routes
    announce join runtime_path filename address paths g f =
        let target = bytes "http://" ++ address in
        routes_created (λ _. write_address_file fs join runtime_path filename target f) f
          (create_routes paths target g)
