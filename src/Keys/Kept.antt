-- ===== src/Keys/Kept.antt =====
-- A restart keeps the key.
use casa_os_user_service.Common.{◌≡◌, refl, ◌∙◌, Option, none, some}
use casa_os_user_service.Common.Text.{Text}
use casa_os_user_service.Disk
use casa_os_user_service.Disk.{FileSystem, Result, ok, err}
use casa_os_user_service.Keys.{
  KeyCodec, IsLawful, load_key, written, in_directory, encoded, make_key, loaded_or,
  load_or_create_key_pair,
}

module _ (c : KeyCodec) (law : IsLawful c) (fs : FileSystem) (fs_law : Disk.IsLawful fs) where
  written-load :
      (path text : Text) (key k : c.Key) (r : Result (Unit {0}) × fs.Files)
      → c.encode key ≡ some text
      → (r.0 ≡ ok tt → fs.read_file path r.1 ≡ ok text)
      → (written c fs key r).0 ≡ some k
      → load_key c fs (fs.read_file path (written c fs key r).1) ≡ some k
  written-load path text key k (err e, f) coded readable h = cc
  written-load path text key k (ok _, f) coded readable h =
      rw (readable refl) (law.decode-encode key text coded ∙ h)

  in_directory-load :
      (path text : Text) (key k : c.Key) (r : Result (Unit {0}) × fs.Files)
      → c.encode key ≡ some text
      → (in_directory c fs path key text r).0 ≡ some k
      → load_key c fs (fs.read_file path (in_directory c fs path key text r).1) ≡ some k
  in_directory-load path text key k (err e, f) coded h = cc
  in_directory-load path text key k (ok _, f) coded h =
      written-load path text key k (fs.write_file path text f) coded (fs_law.write-read path text f)
        h

  encoded-load :
      (path directory : Text) (key k : c.Key) (t : Option Text) (f : fs.Files)
      → c.encode key ≡ t
      → (encoded c fs path directory key t f).0 ≡ some k
      → load_key c fs (fs.read_file path (encoded c fs path directory key t f).1) ≡ some k
  encoded-load path directory key k none f coded h = cc
  encoded-load path directory key k (some text) f coded h =
      in_directory-load path text key k (fs.mkdir_all directory f) coded h

  make_key-load :
      (path directory : Text) (new_key : Option c.Key) (k : c.Key) (f : fs.Files)
      → (make_key c fs path directory new_key f).0 ≡ some k
      → load_key c fs (fs.read_file path (make_key c fs path directory new_key f).1) ≡ some k
  make_key-load path directory none k f h = cc
  make_key-load path directory (some key) k f h =
      encoded-load path directory key k (c.encode key) f refl h

  loaded_or-load :
      (path directory : Text) (new_key : Option c.Key) (k : c.Key) (f : fs.Files) (o : Option c.Key)
      → load_key c fs (fs.read_file path f) ≡ o
      → (loaded_or c fs o (make_key c fs path directory new_key f) f).0 ≡ some k
      → load_key c fs
          (fs.read_file path (loaded_or c fs o (make_key c fs path directory new_key f) f).1)
        ≡ some k
  loaded_or-load path directory new_key k f none e h = make_key-load path directory new_key k f h
  loaded_or-load path directory new_key k f (some key) e h = e ∙ h

  -- The key of a start is the one in the file afterwards.
  pub load_or_create_key_pair-load :
      (path directory : Text) (new_key : Option c.Key) (k : c.Key) (f : fs.Files)
      → (load_or_create_key_pair c fs path directory new_key f).0 ≡ some k
      → load_key c fs (fs.read_file path (load_or_create_key_pair c fs path directory new_key f).1)
        ≡ some k
  unfolding load_or_create_key_pair
  load_or_create_key_pair-load path directory new_key k f h =
      loaded_or-load path directory new_key k f _ refl h

  -- Once a start has had a key, read or made, every later start with the files as it left them has
  -- the same key and leaves the files alone, whatever new key it would have made.
  pub load_or_create_key_pair-kept :
      (path directory : Text) (new_key next_key : Option c.Key) (k : c.Key) (f : fs.Files)
      → (load_or_create_key_pair c fs path directory new_key f).0 ≡ some k
      → let f' = (load_or_create_key_pair c fs path directory new_key f).1 in
        load_or_create_key_pair c fs path directory next_key f' ≡ (some k, f')
  unfolding load_or_create_key_pair
  load_or_create_key_pair-kept path directory new_key next_key k f h =
      rw (loaded_or-load path directory new_key k f _ refl h) refl
