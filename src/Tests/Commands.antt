-- ===== src/Tests/Commands.antt =====
-- Tests of the removal of files and of the `-ru` command.
use casa_os_user_service.Users.{get_user_info_by_id}
use casa_os_user_service.Common.{ℕ, ◌≡◌, ◌≢◌, ◌↔◌, [], ◌∷◌, List}
use casa_os_user_service.Common.Text.{Text, bytes}
use casa_os_user_service.Route.{World, success, err, unremoved}
use casa_os_user_service.Route.UserFiles.{delete_user_image}
use casa_os_user_service.Route.UserFiles.Removed.{TakenForOwn, delete_user_image-TakenForOwn}
use casa_os_user_service.Tests.Memory.{memory}
use casa_os_user_service.Tests.Codec.{repeat}
use casa_os_user_service.Tests.Service.{deps, fs-IsLawful, table, world}

abbrev salt : Text
salt = repeat 16 1

-- A photo of the user 10.
abbrev photo_world : World deps
photo_world = record world { files = (bytes "/data/10/photo.png", bytes "photo") ∷ [] }

delete_user_image-TakenForOwn_example :
    let i = (get_user_info_by_id memory (bytes "1") table).id in
    let path = bytes "/data/10/photo.png" in
    let r = delete_user_image deps (bytes "1") path photo_world in
    ((r.0.success ≡ success) ↔ TakenForOwn deps i path photo_world.files)
    × ((TakenForOwn deps i path photo_world.files → ⊥) → r.1 ≡ photo_world)
    × (TakenForOwn deps i path photo_world.files
        → ((e : Text) → (deps.fs.remove path photo_world.files).0 ≢ unremoved e)
        → (e : Text) × (deps.fs.read_file path r.1.files ≡ err e))
delete_user_image-TakenForOwn_example =
    delete_user_image-TakenForOwn deps (bytes "1") (bytes "/data/10/photo.png") photo_world
      fs-IsLawful

abbrev six_draws : List ℕ
six_draws = 0 ∷ 1 ∷ 2 ∷ 26 ∷ 52 ∷ 61 ∷ []
