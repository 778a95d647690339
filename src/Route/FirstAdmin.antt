-- ===== src/Route/FirstAdmin.antt =====
-- route/v1/first_admin.go: the first administrator, created on the machine.
pub mod Created
use casa_os_user_service.Common.{
  ℕ, ◌+◌, Bool, true, false, not, ◌&&◌, ◌||◌, List, [], ◌∷◌, ◌++◌, length, ltb, ◌==◌, if◌then◌else◌,
}
use casa_os_user_service.Common.Text.{Text, bytes, text_eq, is_empty}
use casa_os_user_service.Disk.{mk_dir}
use casa_os_user_service.Encryption.{hash_password}
use casa_os_user_service.Totp.{trim_space, to_lower}
use casa_os_user_service.Users.Database.{UserDbModel, zero_user}
use casa_os_user_service.Users.{create_user, get_user_count}
use casa_os_user_service.Route.{Deps, World, Result, ok, err, user_dir}
use mathlib.Core.List.{reverse}

pub data AdminError : Type 0 where
  already_initialised empty_credentials password_too_short user_create_failed terminal_input :
      AdminError
  -- an error of reading the credentials
  unread : Text → AdminError

pub data AdminResult {ℓ} (A : Type ℓ) : Type ℓ where
  created : A → AdminResult A
  refused : AdminError → AdminResult A

-- What `CREDENTIALS_DIRECTORY` and the input give: the two files of the directory, or the lines of
-- the input with an error if reading them failed.
pub data Credentials : Type 0 where
  directory : Result Text → Result Text → Credentials
  input : Bool → List Text → Result (Unit {0}) → Credentials

-- strings.TrimRight with these bytes.
unfoldable pub trim_left_of : (ℕ → Bool) → Text → Text
trim_left_of cut [] = []
trim_left_of cut (c ∷ s) = let rest = trim_left_of cut s in if cut c then rest else c ∷ s

unfoldable pub trim_right : (ℕ → Bool) → Text → Text
unfolding trim_left_of
trim_right cut s = reverse (trim_left_of cut (reverse s))

abbrev pub is_newline : ℕ → Bool
is_newline c = c == 13 || c == 10

abbrev pub is_return : ℕ → Bool
is_return c = c == 13

abbrev pub next_line : List Text → Text
next_line [] = []
next_line (l ∷ ls) = trim_right is_return l

abbrev pub rest_lines : List Text → List Text
rest_lines [] = []
rest_lines (l ∷ ls) = ls

abbrev pub from_lines : List Text → Result (Unit {0}) → Result (Text × Text)
from_lines ls (err e) = err e
from_lines ls (ok _) = ok (next_line ls, next_line (rest_lines ls))

abbrev pub from_files : Result Text → Result Text → Result (Text × Text)
from_files (err e) p = err e
from_files (ok u) (err e) = err e
from_files (ok u) (ok p) = ok (trim_right is_newline u, trim_right is_newline p)

unfoldable pub read_first_admin_credentials : Credentials → Result (Text × Text)
read_first_admin_credentials (directory u p) = from_files u p
read_first_admin_credentials (input terminal ls e) = from_lines ls e

abbrev pub is_terminal : Credentials → Bool
is_terminal (directory u p) = false
is_terminal (input terminal ls e) = terminal

-- The row of a new administrator.
abbrev pub new_admin : Text → Text → UserDbModel
new_admin username hash = record zero_user {
  username = username;
  password = hash;
  role = bytes "admin";
}

module _ (d : Deps) where
  unfoldable pub first_admin_local : Bool
  first_admin_local = text_eq (to_lower (trim_space d.first_admin)) (bytes "local")

  unfoldable pub first_admin_value_known : Bool
  first_admin_value_known =
      let value = to_lower (trim_space d.first_admin) in
      text_eq value [] || text_eq value (bytes "web") || text_eq value (bytes "local")

  abbrev pub admin_made : World d → UserDbModel × d.gorm.State → AdminResult (Unit {0}) × World d
  admin_made w (user, s) =
      if user.id == 0
      then (refused user_create_failed, record w { db = s })
      else (created tt, record w { db = s; files = (mk_dir d.fs (user_dir d user.id) w.files).1 })

  unfoldable pub create_first_admin :
      Text → Text → Text → World d → AdminResult (Unit {0}) × World d
  create_first_admin salt username password w =
      if ltb 0 (get_user_count d.gorm w.db)
      then (refused already_initialised, w)
      else if is_empty username || is_empty password
      then (refused empty_credentials, w)
      else if ltb (length password) 6
      then (refused password_too_short, w)
      else admin_made w
          (create_user d.gorm (new_admin username (hash_password d.crypto salt password)) w.db)

  abbrev pub named : Text → AdminResult (Unit {0}) × World d → AdminResult Text × World d
  named username (created _, w) = (created username, w)
  named username (refused e, w) = (refused e, w)

  abbrev pub bootstrap_read : Text → Result (Text × Text) → World d → AdminResult Text × World d
  bootstrap_read salt (err e) w = (refused (unread e), w)
  bootstrap_read salt (ok (username, password)) w =
      named username (create_first_admin salt username password w)

  unfoldable pub bootstrap_first_admin : Text → Credentials → World d → AdminResult Text × World d
  bootstrap_first_admin salt c w =
      if ltb 0 (get_user_count d.gorm w.db)
      then (refused already_initialised, w)
      else if is_terminal c
      then (refused terminal_input, w)
      else bootstrap_read salt (read_first_admin_credentials c) w
