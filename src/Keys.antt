-- ===== src/Keys.antt =====
-- service/user_key.go: the key that tokens are signed with, kept on disk.
--
-- The library that makes and encodes keys is not this repository's: `KeyCodec` is what is used of
-- it. An error, whichever it is, is `none`: the caller stops on any.
pub mod Kept
use casa_os_user_service.Common.{◌≡◌, Option, none, some}
use casa_os_user_service.Common.Text.{Text}
use casa_os_user_service.Disk.{FileSystem, Result, ok, err}

pub record KeyCodec : Type 1 where
  pub Key : Type 0
  -- pem.Decode and x509.ParseECPrivateKey
  pub decode : Text → Option Key
  -- x509.MarshalECPrivateKey and pem.EncodeToMemory
  pub encode : Key → Option Text

-- What was encoded decodes to the same key.
pub record IsLawful (c : KeyCodec) : Type 0 where
  pub decode-encode : (k : c.Key) (t : Text) → c.encode k ≡ some t → c.decode t ≡ some k

module _ (c : KeyCodec) (fs : FileSystem) where
  abbrev pub load_key : Result Text → Option c.Key
  load_key (err e) = none
  load_key (ok raw) = c.decode raw

  abbrev pub written : c.Key → Result (Unit {0}) × fs.Files → Option c.Key × fs.Files
  written key (err e, f) = (none, f)
  written key (ok _, f) = (some key, f)

  -- The directory is there, or could not be made.
  abbrev pub in_directory :
      Text → c.Key → Text → Result (Unit {0}) × fs.Files → Option c.Key × fs.Files
  in_directory path key text (ok _, f) = written key (fs.write_file path text f)
  in_directory path key text (err e, f) = (none, f)

  abbrev pub encoded : Text → Text → c.Key → Option Text → fs.Files → Option c.Key × fs.Files
  encoded path directory key none f = (none, f)
  encoded path directory key (some text) f = in_directory path key text (fs.mkdir_all directory f)

  abbrev pub make_key : Text → Text → Option c.Key → fs.Files → Option c.Key × fs.Files
  make_key path directory none f = (none, f)
  make_key path directory (some key) f = encoded path directory key (c.encode key) f

  abbrev pub loaded_or : Option c.Key → Option c.Key × fs.Files → fs.Files → Option c.Key × fs.Files
  loaded_or (some key) made f = (some key, f)
  loaded_or none made f = made

  -- The directory is that of the path, and the new key what GenerateKeyPair gives.
  unfoldable pub load_or_create_key_pair :
      Text → Text → Option c.Key → fs.Files → Option c.Key × fs.Files
  load_or_create_key_pair path directory new_key f =
      loaded_or (load_key (fs.read_file path f)) (make_key path directory new_key f) f
