-- ===== src/Services.antt =====
-- service/service.go, and `NewUserService` and `GetKeyPair` of service/user.go: what the handlers
-- reach of the service.
--
-- The gateway and the message bus are of CasaOS-Common and are parameters. `NewUserService` returns
-- nil when it has no keys, which is `none`.
pub mod Kept
use casa_os_user_service.Common.{Option, none, some}
use casa_os_user_service.Common.Text.{Text, bytes}
use casa_os_user_service.Config.{AppModel}
use casa_os_user_service.Disk.{FileSystem, Result, ok, err}
use casa_os_user_service.Keys.{KeyCodec, load_or_create_key_pair}

abbrev pub key_filename : Text
key_filename = bytes "user-service.key"

-- The keys of `userService`, each for its pair.
pub record UserService (c : KeyCodec) : Type 0 where
  pub key : c.Key
  pub pre_auth : c.Key

pub record Store (c : KeyCodec) (G : Type 0) : Type 0 where
  pub gateway : G
  pub user : Option (UserService c)

module _ (c : KeyCodec) where
  abbrev pub pre_auth_made : c.Key → Option c.Key → Option (UserService c)
  pre_auth_made key none = none
  pre_auth_made key (some pre_auth) = some (record { key = key; pre_auth = pre_auth })

  module _ (fs : FileSystem) where
    abbrev pub key_loaded :
        Option c.Key → Option c.Key × fs.Files → Option (UserService c) × fs.Files
    key_loaded pre_auth (none, f) = (none, f)
    key_loaded pre_auth (some key, f) = (pre_auth_made key pre_auth, f)

    -- The two keys are what GenerateKeyPair gives, if it is asked.
    unfoldable pub new_user_service :
        Text → Option c.Key → Option c.Key → fs.Files → Option (UserService c) × fs.Files
    new_user_service path new_key pre_auth f =
        key_loaded pre_auth (load_or_create_key_pair c fs path (fs.dir path) new_key f)

    -- filepath.Join is an argument.
    abbrev pub key_path : (Text → Text → Text) → AppModel → Text
    key_path join app = join app.db_path key_filename

    abbrev pub stored_with :
        {G : Type 0} → G → Option (UserService c) × fs.Files → Store c G × fs.Files
    stored_with g (user, f) = (record { gateway = g; user = user }, f)

    -- The management service of the gateway, or the panic for want of it.
    unfoldable pub new_service :
        {G : Type 0}
        → (Text → Text → Text)
        → AppModel
        → Option c.Key
        → Option c.Key
        → Result G
        → fs.Files
        → Result (Store c G × fs.Files)
    unfolding new_user_service
    new_service join app new_key pre_auth (err e) f = err e
    new_service join app new_key pre_auth (ok g) f =
        ok (stored_with g (new_user_service (key_path join app) new_key pre_auth f))

-- The server that the client of the message bus is made with.
abbrev pub message_bus : Result Text → Text
message_bus (err e) = bytes "message bus address not found"
message_bus (ok address) = address
