-- ===== src/Disk.antt =====
-- pkg/utils/file/file.go, over what it calls of packages os, path/filepath and net/http.
pub mod Images
use casa_os_user_service.Common.{
  ℕ, zero, suc, ◌≡◌, ◌≢◌, Bool, true, false, not, ◌&&◌, ◌||◌, Option, none, some, List, [], ◌∷◌,
  ◌++◌, ◌==◌, if◌then◌else◌,
}
use casa_os_user_service.Common.Text.{Text, bytes, text_eq}

-- A call that may return an error, with its text.
pub data Result {ℓ} (A : Type ℓ) : Type ℓ where
  ok : A → Result A
  err : Text → Result A

-- What os.Remove returned: nil, an error that is os.IsNotExist, or another.
pub data Removal : Type 0 where
  removed missing : Removal
  unremoved : Text → Removal

-- What os.Stat returned: the size and the mode of the file, an error that is os.IsNotExist, one
-- that is os.IsExist, or another.
pub data Stat : Type 0 where
  info : ℕ → ℕ → Stat
  not_exist is_exist unknown : Text → Stat

pub record FileSystem : Type 1 where
  pub Files : Type 0
  pub stat : Text → Files → Stat
  pub mkdir_all : Text → Files → Result (Unit {0}) × Files
  pub chmod : Text → ℕ → Files → Result (Unit {0}) × Files
  pub create : Text → Files → Result (Unit {0}) × Files
  pub read_file : Text → Files → Result Text
  pub write_file : Text → Text → Files → Result (Unit {0}) × Files
  pub rename : Text → Text → Files → Result (Unit {0}) × Files
  pub remove : Text → Files → Removal × Files
  -- whether echo's ctx.File finds at a path what it can send
  pub sends : Text → Files → Bool
  -- filepath.Dir, and filepath.Abs of filepath.Clean
  pub dir : Text → Text
  pub abs_clean : Text → Result Text
  pub detect_content_type : Text → Text

-- What is documented of the calls that a kept file relies on.
pub record IsLawful (fs : FileSystem) : Type 0 where
  pub write-read :
      (path t : Text) (f : fs.Files)
      → (fs.write_file path t f).0 ≡ ok tt
      → fs.read_file path (fs.write_file path t f).1 ≡ ok t
  pub rename-read :
      (from to t : Text) (f : fs.Files)
      → fs.read_file from f ≡ ok t
      → (fs.rename from to f).0 ≡ ok tt
      → fs.read_file to (fs.rename from to f).1 ≡ ok t
  -- A file that was removed, or was not there, cannot be read.
  pub remove-read :
      (path : Text) (f : fs.Files)
      → ((e : Text) → (fs.remove path f).0 ≢ unremoved e)
      → (e : Text) × (fs.read_file path (fs.remove path f).1 ≡ err e)

-- strings.HasPrefix(s, prefix)
unfoldable pub has_prefix : Text → Text → Bool
has_prefix s [] = true
has_prefix [] (c ∷ t) = false
has_prefix (x ∷ s) (c ∷ t) = let rest = has_prefix s t in x == c && rest

-- strings.Contains(s, t)
unfoldable pub contains : Text → Text → Bool
unfolding has_prefix
contains [] t = has_prefix [] t
contains (c ∷ s) t = let rest = contains s t in has_prefix (c ∷ s) t || rest

-- strings.HasSuffix(s, "/")
unfoldable pub ends_in_slash : Text → Bool
ends_in_slash [] = false
ends_in_slash (c ∷ []) = c == b'/'
ends_in_slash (c ∷ d ∷ s) = ends_in_slash (d ∷ s)

abbrev pub full_path : Text → Text → Text
full_path path name = if ends_in_slash path then path ++ name else path ++ b'/' ∷ name

-- The part of a name from its last dot on, if no slash follows: the part after the last dot that
-- was met is carried along.
unfoldable pub ext_from : Text → Text → Text
ext_from found [] = found
ext_from found (c ∷ s) = ext_from (if c == b'.' then c ∷ s else if c == b'/' then [] else found) s

-- `GetExt`, path.Ext and filepath.Ext
unfoldable pub get_ext : Text → Text
unfolding ext_from
get_ext name = ext_from [] name

module _ (fs : FileSystem) where
  open fs use {Files}

  abbrev pub is_not_exist : Stat → Bool
  is_not_exist (not_exist e) = true
  is_not_exist _ = false

  unfoldable pub check_not_exist : Text → Files → Bool
  check_not_exist path f = is_not_exist (fs.stat path f)

  abbrev pub there : Stat → Bool
  there (info size mode) = true
  there (not_exist e) = false
  there (is_exist e) = true
  there (unknown e) = false

  unfoldable pub exists : Text → Files → Bool
  exists path f = there (fs.stat path f)

  -- The result of the chmod is not looked at.
  abbrev pub dir_made : Text → Result (Unit {0}) × Files → Result (Unit {0}) × Files
  dir_made path (err e, f) = (err e, f)
  dir_made path (ok _, f) = (ok tt, (fs.chmod path 511 f).1)

  unfoldable pub mk_dir : Text → Files → Result (Unit {0}) × Files
  mk_dir path f = dir_made path (fs.mkdir_all path f)

  unfoldable pub is_not_exist_mk_dir : Text → Files → Result (Unit {0}) × Files
  is_not_exist_mk_dir path f = if check_not_exist path f then mk_dir path f else (ok tt, f)

  unfoldable pub is_not_exist_create_file : Text → Files → Result (Unit {0}) × Files
  is_not_exist_create_file path f = if check_not_exist path f then fs.create path f else (ok tt, f)

  abbrev pub text_or_empty : Result Text → Text
  text_or_empty (ok t) = t
  text_or_empty (err e) = []

  unfoldable pub read_full_file : Text → Files → Text
  read_full_file path f = text_or_empty (fs.read_file path f)

  -- The mode of the source goes to the copy.
  abbrev pub mode_copied : Text → Stat → Files → Result (Unit {0}) × Files
  mode_copied dst (info size mode) f = fs.chmod dst mode f
  mode_copied dst (not_exist e) f = (err e, f)
  mode_copied dst (is_exist e) f = (err e, f)
  mode_copied dst (unknown e) f = (err e, f)

  abbrev pub copied : Text → Text → Result (Unit {0}) × Files → Result (Unit {0}) × Files
  copied src dst (err e, f) = (err e, f)
  copied src dst (ok _, f) = mode_copied dst (fs.stat src f) f

  abbrev pub copy_into : Text → Text → Result Text → Files → Result (Unit {0}) × Files
  copy_into src dst (err e) f = (err e, f)
  copy_into src dst (ok t) f = copied src dst (fs.write_file dst t f)

  abbrev pub dst_created : Text → Text → Result (Unit {0}) × Files → Result (Unit {0}) × Files
  dst_created src dst (err e, f) = (err e, f)
  dst_created src dst (ok _, f) = copy_into src dst (fs.read_file src f) f

  abbrev pub src_opened : Text → Text → Result Text → Files → Result (Unit {0}) × Files
  src_opened src dst (err e) f = (err e, f)
  src_opened src dst (ok _) f = dst_created src dst (fs.create dst f)

  unfoldable pub copy_over : Text → Text → Files → Result (Unit {0}) × Files
  copy_over src dst f = src_opened src dst (fs.read_file src f) f

  unfoldable pub copy_single_file : Text → Text → Text → Files → Result (Unit {0}) × Files
  unfolding exists copy_over
  copy_single_file src dst style f =
      if exists dst f
      then (if text_eq style (bytes "skip")
          then (ok tt, f)
          else copy_over src dst (fs.remove dst f).1)
      else copy_over src dst f

  -- The result of the first creation is not looked at.
  unfoldable pub write_to_path : Text → Text → Text → Files → Result (Unit {0}) × Files
  unfolding is_not_exist_create_file
  write_to_path t path name f =
      let target = full_path path name in
      fs.write_file target t (is_not_exist_create_file target f).1

  abbrev pub saved : Text → Text → Result (Unit {0}) × Files → Result (Unit {0}) × Files
  saved t dst (err e, f) = (err e, f)
  saved t dst (ok _, f) = fs.write_file dst t f

  abbrev pub parent_made : Text → Text → Result (Unit {0}) × Files → Result (Unit {0}) × Files
  parent_made t dst (err e, f) = (err e, f)
  parent_made t dst (ok _, f) = saved t dst (fs.create dst f)

  -- The content of the upload, or the error of opening it.
  unfoldable pub save_uploaded_file : Result Text → Text → Files → Result (Unit {0}) × Files
  save_uploaded_file (err e) dst f = (err e, f)
  save_uploaded_file (ok t) dst f = parent_made t dst (fs.mkdir_all (fs.dir dst) f)
