-- ===== src/Users/Statements.antt =====
-- Every statement of service/user.go that writes, as a value. A list of them is an order in which
-- the statements of any number of requests reach the database, one at a time.
use casa_os_user_service.Common.{ℕ, ◌≡◌, refl, inl, inr, Bool, List, [], ◌∷◌}
use casa_os_user_service.Common.Text.{Text}
use casa_os_user_service.Common.Int.{ℤ}
use casa_os_user_service.Users.Database.{UserDbModel, Gorm, IsLawful}
use casa_os_user_service.Users.Table.{HasKeys, HasKeys-reject, HasKeys-append}
use casa_os_user_service.Users.Cas.{update-HasKeys}
use casa_os_user_service.Users.{
  overlay, delete_all_user, delete_user_by_id, create_user, update_user, update_user_totp,
  enable_user_totp, replace_password_hash, clear_pending_totp, set_pending_totp, disable_user_totp,
  consume_totp_step, replace_recovery_codes, reset_user_credentials, update_user_password,
}

pub data Statement : Type 0 where
  creates updates_info updates_totp resets updates_password : UserDbModel → Statement
  deletes_all : Statement
  deletes : Text → Statement
  enables : ℕ → Text → ℤ → List Text → Statement
  replaces_hash : ℕ → Text → Text → Statement
  clears_pending sets_pending disables : ℕ → Text → Statement
  consumes_step : ℕ → ℤ → Statement
  replaces_codes : ℕ → List Text → List Text → Statement

module _ (g : Gorm) where
  unfoldable pub perform : Statement → g.State → g.State
  perform (creates m) s = (create_user g m s).1
  perform (updates_info m) s = update_user g m s
  perform (updates_totp m) s = (update_user_totp g m s).1
  perform (resets m) s = (reset_user_credentials g m s).1
  perform (updates_password m) s = (update_user_password g m s).1
  perform deletes_all s = delete_all_user g s
  perform (deletes id) s = delete_user_by_id g id s
  perform (enables id secret step hashes) s = (enable_user_totp g id secret step hashes s).1
  perform (replaces_hash id current replacement) s =
      (replace_password_hash g id current replacement s).1
  perform (clears_pending id secret) s = (clear_pending_totp g id secret s).1
  perform (sets_pending id secret) s = (set_pending_totp g id secret s).1
  perform (disables id secret) s = (disable_user_totp g id secret s).1
  perform (consumes_step id step) s = (consume_totp_step g id step s).1
  perform (replaces_codes id prev remaining) s = (replace_recovery_codes g id prev remaining s).1

  unfoldable pub run : List Statement → g.State → g.State
  run [] s = s
  run (a ∷ as') s = run as' (perform a s)

  -- An account is created with no id of its own, as both callers do.
  abbrev pub IsAnonymous : Statement → Type 0
  IsAnonymous (creates m) = m.id ≡ 0
  IsAnonymous _ = Unit {0}

  module _ (law : IsLawful g) where
    create-HasKeys :
        (m : UserDbModel) (s : g.State)
        → m.id ≡ 0
        → HasKeys (g.rows s)
        → HasKeys (g.rows (g.create m s).1)
    create-HasKeys m s fresh u = elim (law.create-rows m s fresh) [
      | inl (same, _) ↦ rw same u
      | inr (added, _, _, avoids) ↦ rw added (HasKeys-append (g.rows s) _ u avoids)
    ]

    delete-HasKeys :
        (c : UserDbModel → Bool) (s : g.State)
        → HasKeys (g.rows s)
        → HasKeys (g.rows (g.delete c s))
    delete-HasKeys c s u = elim (law.delete-rows c s) [
      | inl same ↦ rw same u
      | inr less ↦ rw less (HasKeys-reject c (g.rows s) u)
    ]

    -- Every statement keeps the ids distinct, if accounts are created with no id of their own.
    pub perform-HasKeys :
        (a : Statement) (s : g.State)
        → IsAnonymous a
        → HasKeys (g.rows s)
        → HasKeys (g.rows (perform a s))
    unfolding perform overlay delete_all_user delete_user_by_id create_user update_user
        update_user_totp enable_user_totp replace_password_hash clear_pending_totp set_pending_totp
        disable_user_totp consume_totp_step replace_recovery_codes reset_user_credentials
        update_user_password
    perform-HasKeys (creates m) s fresh u = create-HasKeys m s fresh u
    perform-HasKeys (updates_info m) s _ u = update-HasKeys g law m.id _ _ s (λ r. refl) u
    perform-HasKeys (updates_totp m) s _ u = update-HasKeys g law m.id _ _ s (λ r. refl) u
    perform-HasKeys (resets m) s _ u = update-HasKeys g law m.id _ _ s (λ r. refl) u
    perform-HasKeys (updates_password m) s _ u = update-HasKeys g law m.id _ _ s (λ r. refl) u
    perform-HasKeys deletes_all s _ u = delete-HasKeys _ s u
    perform-HasKeys (deletes id) s _ u = delete-HasKeys _ s u
    perform-HasKeys (enables id _ _ _) s _ u = update-HasKeys g law id _ _ s (λ r. refl) u
    perform-HasKeys (replaces_hash id _ _) s _ u = update-HasKeys g law id _ _ s (λ r. refl) u
    perform-HasKeys (clears_pending id _) s _ u = update-HasKeys g law id _ _ s (λ r. refl) u
    perform-HasKeys (sets_pending id _) s _ u = update-HasKeys g law id _ _ s (λ r. refl) u
    perform-HasKeys (disables id _) s _ u = update-HasKeys g law id _ _ s (λ r. refl) u
    perform-HasKeys (consumes_step id _) s _ u = update-HasKeys g law id _ _ s (λ r. refl) u
    perform-HasKeys (replaces_codes id _ _) s _ u = update-HasKeys g law id _ _ s (λ r. refl) u
