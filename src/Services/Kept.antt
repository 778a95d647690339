-- ===== src/Services/Kept.antt =====
-- The signing key of a service is the one in its file.
use casa_os_user_service.Common.{◌≡◌, refl, ap, ◌∙◌, sym, Option, none, some}
use casa_os_user_service.Common.Text.{Text}
use casa_os_user_service.Disk
use casa_os_user_service.Disk.{FileSystem}
use casa_os_user_service.Keys
use casa_os_user_service.Keys.{KeyCodec, load_key, load_or_create_key_pair}
use casa_os_user_service.Keys.Kept.{load_or_create_key_pair-load}
use casa_os_user_service.Services.{UserService, pre_auth_made, key_loaded, new_user_service}

module _ (c : KeyCodec) (codec_law : Keys.IsLawful c) (fs : FileSystem)
    (law : Disk.IsLawful fs) where
  pre_auth_made-key :
      (key : c.Key) (o : Option c.Key) (u : UserService c)
      → pre_auth_made c key o ≡ some u
      → key ≡ u.key
  pre_auth_made-key key none u h = cc
  pre_auth_made-key key (some pre_auth) u h = cc

  key_loaded-key :
      (path : Text) (o : Option c.Key) (r : Option c.Key × fs.Files) (u : UserService c)
      (f : fs.Files)
      → ((k : c.Key) → r.0 ≡ some k → load_key c fs (fs.read_file path r.1) ≡ some k)
      → key_loaded c fs o r ≡ (some u, f)
      → load_key c fs (fs.read_file path f) ≡ some u.key
  key_loaded-key path o (none, g) u f stored h = cc
  key_loaded-key path o (some key, g) u f stored h =
      let same =
        pre_auth_made-key key o u (ap (λ (x : Option (UserService c) × fs.Files). x.0) h) in
      let files = ap (λ (x : Option (UserService c) × fs.Files). x.1) h in
      ap (λ (x : fs.Files). load_key c fs (fs.read_file path x)) (sym files)
      ∙ stored key refl
      ∙ ap some same

  -- The file of a service's signing key holds it, read from there or written there.
  pub new_user_service-key :
      (path : Text) (new_key pre_auth : Option c.Key) (f g : fs.Files) (u : UserService c)
      → new_user_service c fs path new_key pre_auth f ≡ (some u, g)
      → load_key c fs (fs.read_file path g) ≡ some u.key
  unfolding new_user_service
  new_user_service-key path new_key pre_auth f g u h =
      key_loaded-key path pre_auth (load_or_create_key_pair c fs path (fs.dir path) new_key f) u g
        (λ k e. load_or_create_key_pair-load c codec_law fs law path (fs.dir path) new_key k f e) h

  -- A key that the file holds is the one that the service has, whatever new key it would have made.
  pub new_user_service-loaded :
      (path : Text) (new_key pre_auth : Option c.Key) (f g : fs.Files) (k : c.Key)
      (u : UserService c)
      → load_key c fs (fs.read_file path f) ≡ some k
      → new_user_service c fs path new_key pre_auth f ≡ (some u, g)
      → k ≡ u.key
  unfolding new_user_service load_or_create_key_pair
  new_user_service-loaded path new_key pre_auth f g k u stored h =
      pre_auth_made-key k pre_auth u
        (ap (λ (x : Option (UserService c) × fs.Files). x.0) (rw stored at h))
