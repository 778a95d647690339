-- ===== src/Tests/Files.antt =====
-- Tests of the custom configuration and of the images on the service of the tests.
use casa_os_user_service.Disk.{contains, err, get_ext, removed}
use casa_os_user_service.Common.{◌≡◌, ◌↔◌, refl, [], ◌∷◌, ◌++◌, arith}
use casa_os_user_service.Common.Text.{Text, bytes, text_eq}
use casa_os_user_service.Common.Decimal.{itoa}
use casa_os_user_service.Disk.Images.{get_image_ext}
use casa_os_user_service.Users.{get_user_info_by_id}
use casa_os_user_service.Route.{World, Json, replied, exited, http}
use casa_os_user_service.Route.Images.{put_user_avatar, put_user_image, image_reply}
use casa_os_user_service.Route.Images.Stored.{NoImage, put_user_avatar-exits, put_user_image-same}
use casa_os_user_service.Tests.Memory.{memory}
use casa_os_user_service.Tests.Service.{deps, fs-IsLawful, world, body_of}

abbrev junk : Json
junk = body_of ("file", bytes "data:image/png;base64,JUNK") ("", [])

put_user_avatar-exits_example :
    (put_user_avatar deps (bytes "1") junk world ≡ exited world)
    ↔ ((world ≡ world) × NoImage deps (bytes "1") junk world)
put_user_avatar-exits_example = put_user_avatar-exits deps (bytes "1") junk world world

-- A photo that is stored under its key.
abbrev photo : Text
photo = bytes "/data/1/photo.png"

abbrev photo_world : World deps
photo_world = record world { files = (photo, bytes "photo") ∷ [] }

abbrev of_photo : Json
of_photo = body_of ("path", photo) ("", [])

photo-known : (get_user_info_by_id memory (bytes "1") photo_world.db).id ≡ 1
unfolding get_user_info_by_id text_eq itoa
photo-known = refl

photo-removed : (deps.fs.remove photo photo_world.files).0 ≡ removed
unfolding text_eq
photo-removed = refl

put_user_image-same_example :
    (w' : World deps) × (e : Text) × (put_user_image deps
        (bytes "1")
        (bytes "photo")
        of_photo
        photo_world
      ≡ replied
          (record (image_reply deps photo (bytes "photo" ++ get_ext photo)) { status = http 200 })
          w')
    × (deps.fs.read_file photo w'.files ≡ err e)
unfolding get_user_info_by_id text_eq itoa get_image_ext get_ext contains
put_user_image-same_example =
    put_user_image-same deps (bytes "1") (bytes "photo") (bytes "png") 5 420 of_photo photo_world
      fs-IsLawful (λ e. omega (arith, e, photo-known)) refl refl refl refl refl
      (λ e h. cc (photo-removed, h)) refl
