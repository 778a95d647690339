-- ===== src/Users.antt =====
-- service/model/o_user.go and service/user.go: the account table and the statements on it.
--
-- The database (gorm over SQLite) is not this repository's. `Gorm` is what the service calls of
-- it, over a state of its own, and `Gorm.IsLawful` what is documented of those calls: a statement
-- fails and changes nothing, or takes effect on exactly the rows its condition picks. The time
-- stamps that gorm keeps in each row are read by nothing here and are left out.
pub mod Database
pub mod Table
pub mod Cas
pub mod Statements
pub mod Enrolment
pub mod Once
pub mod Abstract
pub mod Refined
pub mod Found
use casa_os_user_service.Common.{
  ℕ, ◌≡◌, Bool, true, false, not, ◌&&◌, ◌||◌, Option, none, some, List, [], ◌∷◌, map, ◌==◌,
  if◌then◌else◌,
}
use casa_os_user_service.Common.Text.{Text, text_eq, texts_eq, is_empty}
use casa_os_user_service.Common.Int.{ℤ, pos, ltb_ℤ}
use casa_os_user_service.Totp.{Otp, consume_recovery_code}
use Database.{UserDbModel, zero_user, Gorm, Outcome, failed, affected}

abbrev pub is_one : Outcome → Bool
is_one (failed e) = false
is_one (affected n) = n == 1

-- `changedOne`
abbrev pub changed_one : {S : Type 0} → Outcome × S → Bool × S
changed_one (o, s) = (is_one o, s)

-- What a query that found nothing, or failed, leaves in the result variable.
abbrev pub or_zero : Option UserDbModel → UserDbModel
or_zero none = zero_user
or_zero (some u) = u

-- A value that is not the zero value replaces the old one, as Updates does with a struct.
abbrev pub or_old : Text → Text → Text
or_old [] old = old
or_old (c ∷ s) old = c ∷ s

-- The columns that `UpdateUser` may write.
unfoldable pub overlay : UserDbModel → UserDbModel → UserDbModel
overlay m r = record r {
  username = or_old m.username r.username;
  role = or_old m.role r.role;
  email = or_old m.email r.email;
  nickname = or_old m.nickname r.nickname;
  avatar = or_old m.avatar r.avatar;
  description = or_old m.description r.description;
}

-- The columns that `GetUserInfoById` and `GetUserInfoByUserName` read.
unfoldable pub select_info : UserDbModel → UserDbModel
select_info r = record zero_user {
  id = r.id;
  username = r.username;
  role = r.role;
  email = r.email;
  nickname = r.nickname;
  avatar = r.avatar;
  description = r.description;
  totp_enabled = r.totp_enabled;
}

-- totp_enabled = false AND totp_secret = secret
abbrev pub is_pending : Text → UserDbModel → Bool
is_pending secret r = not r.totp_enabled && text_eq r.totp_secret secret

-- totp_enabled = true AND totp_secret = secret
abbrev pub is_enrolled : Text → UserDbModel → Bool
is_enrolled secret r = r.totp_enabled && text_eq r.totp_secret secret

abbrev pub set_enabled : ℤ → List Text → UserDbModel → UserDbModel
set_enabled step hashes r = record r {
  totp_enabled = true;
  totp_last_step = step;
  recovery_codes = hashes;
}

abbrev pub set_secret : Text → UserDbModel → UserDbModel
set_secret secret r = record r { totp_secret = secret }

abbrev pub set_totp : Text → Bool → ℤ → List Text → UserDbModel → UserDbModel
set_totp secret enabled step codes r = record r {
  totp_secret = secret;
  totp_enabled = enabled;
  totp_last_step = step;
  recovery_codes = codes;
}

module _ (g : Gorm) where
  open g use {State}

  unfoldable pub delete_all_user : State → State
  delete_all_user s = g.delete (λ _. true) s

  unfoldable pub delete_user_by_id : Text → State → State
  delete_user_by_id id s = g.delete (λ r. g.id_is id r.id) s

  unfoldable pub get_all_user_name : State → List UserDbModel
  get_all_user_name s = map (λ r. record zero_user { username = r.username }) (g.find_all s)

  unfoldable pub create_user : UserDbModel → State → UserDbModel × State
  create_user m s = g.create m s

  unfoldable pub get_user_count : State → ℕ
  get_user_count s = g.count s

  unfoldable pub update_user : UserDbModel → State → State
  update_user m s = (g.update m.id none (overlay m) s).1

  unfoldable pub update_user_totp : UserDbModel → State → Outcome × State
  update_user_totp m s =
      g.update m.id none (set_totp m.totp_secret m.totp_enabled m.totp_last_step m.recovery_codes) s

  unfoldable pub enable_user_totp : ℕ → Text → ℤ → List Text → State → Bool × State
  enable_user_totp id secret step hashes s =
      changed_one (g.update id (some (is_pending secret)) (set_enabled step hashes) s)

  unfoldable pub replace_password_hash : ℕ → Text → Text → State → Bool × State
  replace_password_hash id current replacement s = changed_one (
      g.update id (some (λ r. text_eq r.password current))
        (λ r. record r { password = replacement }) s)

  unfoldable pub clear_pending_totp : ℕ → Text → State → Bool × State
  clear_pending_totp id secret s =
      changed_one (g.update id (some (is_pending secret)) (set_secret []) s)

  unfoldable pub set_pending_totp : ℕ → Text → State → Bool × State
  set_pending_totp id secret s =
      changed_one (g.update id (some (λ r. not r.totp_enabled)) (set_secret secret) s)

  unfoldable pub disable_user_totp : ℕ → Text → State → Bool × State
  disable_user_totp id secret s =
      changed_one (g.update id (some (is_enrolled secret)) (set_totp [] false (pos 0) []) s)

  unfoldable pub consume_totp_step : ℕ → ℤ → State → Bool × State
  consume_totp_step id step s = changed_one (
      g.update id (some (λ r. ltb_ℤ r.totp_last_step step))
        (λ r. record r { totp_last_step = step }) s)

  -- The write of `UseRecoveryCode`, keyed on the list as it was read. The source compares the JSON
  -- of the two lists, which are the same text exactly when the lists are the same.
  unfoldable pub replace_recovery_codes : ℕ → List Text → List Text → State → Bool × State
  replace_recovery_codes id prev remaining s = changed_one (
      g.update id (some (λ r. texts_eq r.recovery_codes prev))
        (λ r. record r { recovery_codes = remaining }) s)

  abbrev pub replace_if : ℕ → List Text → List Text × Bool → State → Bool × State
  replace_if id prev (remaining, ok) s =
      if ok then replace_recovery_codes id prev remaining s else (false, s)

  abbrev pub use_codes : Otp → ℕ → Text → Option UserDbModel → State → Bool × State
  use_codes o id code none s = (false, s)
  use_codes o id code (some user) s =
      replace_if id user.recovery_codes (consume_recovery_code o user.recovery_codes code) s

  unfoldable pub use_recovery_code : Otp → ℕ → Text → State → Bool × State
  use_recovery_code o id code s = use_codes o id code (g.first (λ r. r.id == id) s) s

  unfoldable pub reset_user_credentials : UserDbModel → State → Outcome × State
  reset_user_credentials m s =
      g.update m.id none
        (λ r.
          set_totp m.totp_secret m.totp_enabled m.totp_last_step m.recovery_codes
            (record r { password = m.password }))
        s

  unfoldable pub update_user_password : UserDbModel → State → Outcome × State
  update_user_password m s = g.update m.id none (λ r. record r { password = m.password }) s

  unfoldable pub get_user_all_info_by_id : Text → State → UserDbModel
  get_user_all_info_by_id id s = or_zero (g.first (λ r. g.id_is id r.id) s)

  unfoldable pub get_user_all_info_by_name : Text → State → UserDbModel
  get_user_all_info_by_name name s = or_zero (g.first (λ r. text_eq r.username name) s)

  unfoldable pub get_user_info_by_id : Text → State → UserDbModel
  unfolding select_info
  get_user_info_by_id id s = select_info (or_zero (g.first (λ r. g.id_is id r.id) s))

  unfoldable pub get_user_info_by_user_name : Text → State → UserDbModel
  unfolding select_info
  get_user_info_by_user_name name s =
      select_info (or_zero (g.first (λ r. text_eq r.username name) s))
