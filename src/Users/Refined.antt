-- ===== src/Users/Refined.antt =====
-- service/user.go refines the view of accounts by id: every statement, and every run of statements.
use casa_os_user_service.Common.{
  Bool, true, false, not, ◌==◌, inl, inr, refl, List, [], ◌∷◌, All, arith,
}
use casa_os_user_service.Users.Database.{Outcome, failed, affected, Gorm, IsLawful}
use casa_os_user_service.Users.Table.{HasKeys}
use casa_os_user_service.Users.Abstract.{
  Step, Steps, done, next, view, update-Step, is_one-meets, create-Step, delete-Step,
}
use casa_os_user_service.Users.Statements.{
  Statement, creates, updates_info, updates_totp, resets, updates_password, deletes_all, deletes,
  enables, replaces_hash, clears_pending, sets_pending, disables, consumes_step, replaces_codes,
  perform, run, IsAnonymous, perform-HasKeys,
}
use casa_os_user_service.Users.{
  overlay, delete_all_user, delete_user_by_id, create_user, update_user, update_user_totp,
  enable_user_totp, replace_password_hash, clear_pending_totp, set_pending_totp, disable_user_totp,
  consume_totp_step, replace_recovery_codes, reset_user_credentials, update_user_password,
}

abbrev pub is_done : Outcome → Bool
is_done (failed e) = false
is_done (affected n) = true

module _ (g : Gorm) where
  -- What the service hears of a statement; `true` where it hears nothing.
  unfoldable pub reported : Statement → g.State → Bool
  reported (creates m) s = not ((create_user g m s).0.id == 0)
  reported (updates_info m) s = true
  reported (updates_totp m) s = is_done (update_user_totp g m s).0
  reported (resets m) s = is_done (reset_user_credentials g m s).0
  reported (updates_password m) s = is_done (update_user_password g m s).0
  reported deletes_all s = true
  reported (deletes id) s = true
  reported (enables id secret step hashes) s = (enable_user_totp g id secret step hashes s).0
  reported (replaces_hash id current replacement) s =
      (replace_password_hash g id current replacement s).0
  reported (clears_pending id secret) s = (clear_pending_totp g id secret s).0
  reported (sets_pending id secret) s = (set_pending_totp g id secret s).0
  reported (disables id secret) s = (disable_user_totp g id secret s).0
  reported (consumes_step id step) s = (consume_totp_step g id step s).0
  reported (replaces_codes id prev remaining) s = (replace_recovery_codes g id prev remaining s).0

  -- The statements of a run, each with its report.
  unfoldable pub told : List Statement → g.State → List (Statement × Bool)
  told [] s = []
  told (a ∷ as') s = (a, reported a s) ∷ told as' (perform g a s)

module _ (g : Gorm) (law : IsLawful g) where
  pub perform-Step :
      (a : Statement) (s : g.State)
      → IsAnonymous g a
      → HasKeys (g.rows s)
      → Step g.id_is (view g law s) a (reported g a s) (view g law (perform g a s))
  unfolding perform reported overlay delete_all_user delete_user_by_id create_user update_user
      update_user_totp enable_user_totp replace_password_hash clear_pending_totp set_pending_totp
      disable_user_totp consume_totp_step replace_recovery_codes reset_user_credentials
      update_user_password
  perform-Step (creates m) s fresh keys = create-Step g law m s fresh
  perform-Step (updates_info m) s _ keys =
      update-Step g law (updates_info m) (reported g (updates_info m) s) m.id _ _ s (λ r. refl)
        (λ e h. inl refl) (λ _. refl) (λ n o. ground arith)
  perform-Step (updates_totp m) s _ keys =
      update-Step g law (updates_totp m) (reported g (updates_totp m) s) m.id _ _ s (λ r. refl)
        (λ e h. inr (rw h refl)) (λ h. rw h refl) (λ n o. ground arith)
  perform-Step (resets m) s _ keys =
      update-Step g law (resets m) (reported g (resets m) s) m.id _ _ s (λ r. refl)
        (λ e h. inr (rw h refl)) (λ h. rw h refl) (λ n o. ground arith)
  perform-Step (updates_password m) s _ keys =
      update-Step g law (updates_password m) (reported g (updates_password m) s) m.id _ _ s
        (λ r. refl) (λ e h. inr (rw h refl)) (λ h. rw h refl) (λ n o. ground arith)
  perform-Step deletes_all s _ keys =
      delete-Step g law deletes_all true (λ _. true) s refl refl (λ u. refl)
  perform-Step (deletes id) s _ keys =
      delete-Step g law (deletes id) true (g.id_is id) s refl refl (λ u. refl)
  perform-Step (enables id secret step hashes) s _ keys =
      update-Step g law (enables id secret step hashes)
        (reported g (enables id secret step hashes) s) id _ _ s (λ r. refl) (λ e h. inr (rw h refl))
        (is_one-meets g law id _ _ s keys) (λ n o. ground arith)
  perform-Step (replaces_hash id current replacement) s _ keys =
      update-Step g law (replaces_hash id current replacement)
        (reported g (replaces_hash id current replacement) s) id _ _ s (λ r. refl)
        (λ e h. inr (rw h refl)) (is_one-meets g law id _ _ s keys) (λ n o. ground arith)
  perform-Step (clears_pending id secret) s _ keys =
      update-Step g law (clears_pending id secret) (reported g (clears_pending id secret) s) id _ _
        s (λ r. refl) (λ e h. inr (rw h refl)) (is_one-meets g law id _ _ s keys)
        (λ n o. ground arith)
  perform-Step (sets_pending id secret) s _ keys =
      update-Step g law (sets_pending id secret) (reported g (sets_pending id secret) s) id _ _ s
        (λ r. refl) (λ e h. inr (rw h refl)) (is_one-meets g law id _ _ s keys)
        (λ n o. ground arith)
  perform-Step (disables id secret) s _ keys =
      update-Step g law (disables id secret) (reported g (disables id secret) s) id _ _ s
        (λ r. refl) (λ e h. inr (rw h refl)) (is_one-meets g law id _ _ s keys)
        (λ n o. ground arith)
  perform-Step (consumes_step id step) s _ keys =
      update-Step g law (consumes_step id step) (reported g (consumes_step id step) s) id _ _ s
        (λ r. refl) (λ e h. inr (rw h refl)) (is_one-meets g law id _ _ s keys)
        (λ n o. ground arith)
  perform-Step (replaces_codes id prev remaining) s _ keys =
      update-Step g law (replaces_codes id prev remaining)
        (reported g (replaces_codes id prev remaining) s) id _ _ s (λ r. refl)
        (λ e h. inr (rw h refl)) (is_one-meets g law id _ _ s keys) (λ n o. ground arith)

  -- On the accounts as they are looked up by id, a run of statements is a run of steps, one for
  -- each: a statement is not seen, and is reported as not done if it is reported at all; or it acts
  -- as it is meant to on every account at once, and is reported as done, but that a conditional
  -- statement for one account is reported as done exactly if that account is there and meets the
  -- condition; or it makes an account at an id that had none and is reported as done. The ids are
  -- distinct, and accounts are created with no id of their own.
  pub run-Steps :
      (as' : List Statement) (s : g.State)
      → All (IsAnonymous g) as'
      → HasKeys (g.rows s)
      → Steps g.id_is (view g law s) (told g as' s) (view g law (run g as' s))
  unfolding run told
  run-Steps [] s h keys = done (view g law s)
  run-Steps (a ∷ as') s (h, hs) keys =
      next (view g law s) a (reported g a s) (told g as' (perform g a s))
        (view g law (perform g a s)) _ (perform-Step a s h keys)
        (run-Steps as' (perform g a s) hs (perform-HasKeys g law a s h keys))
