-- ===== src/Tests/Setups.antt =====
-- Tests of the first account, of the keys of registration and of the login style.
use Prim.Native.String.{String}
use casa_os_user_service.Route.FirstAdmin.{Credentials, input}
use casa_os_user_service.Common.{Bool, false, [], ◌∷◌, if◌then◌else◌}
use casa_os_user_service.Common.Text.{Text, bytes, text_eq}
use casa_os_user_service.Route.{World, Json, ok}
use casa_os_user_service.Tests.Codec.{repeat}
use casa_os_user_service.Tests.Service.{deps, world, body_of}

abbrev salt : Text
salt = repeat 16 1

abbrev fresh_world : World deps
fresh_world = record world { db = [] }

abbrev piped : Credentials
piped = input false (bytes "root" ∷ (bytes "secret") ∷ []) (ok tt)

-- The body of a registration.
abbrev registration : Json
registration name =
    if is_key name
    then bytes "key"
    else body_of ("username", bytes "dave") ("password", bytes "secret") name
  where
    is_key : String → Bool
    is_key s = text_eq (bytes s) (bytes "key")
