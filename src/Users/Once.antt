-- ===== src/Users/Once.antt =====
-- What may be used once is used once: an enabling request, a time step, a recovery code.
use mathlib.Core.Option.{some-injective}
use casa_os_user_service.Common.{
  ℕ, ◌≤◌, ◌<◌, ◌≡◌, ◌≢◌, refl, ap, sym, ◌∙◌, subst, inl, inr, Bool, true, false, some, List, arith,
  length, All, Bool-cases,
}
use casa_os_user_service.Common.Text.{Text, text_eq_iff, texts_eq, texts_eq→eq}
use casa_os_user_service.Common.Int.{ℤ, ◌≤ℤ◌, ≤ℤ_trans, ≤ℤ_refl}
use casa_os_user_service.Users.Database.{UserDbModel, Gorm, IsLawful}
use casa_os_user_service.Users.Table.{HasKeys, KeepsId}
use casa_os_user_service.Users.Cas.{
  account, Swapped, won, lost, changed_one-Swapped, update-HasKeys,
}
use casa_os_user_service.Users.Statements.{Statement, run}
use casa_os_user_service.Users.Enrolment.{
  IsEnrolled, Enrolled, Spares, by_number, run_on-Enrolled, run-HasKeys,
}
use casa_os_user_service.Users.{
  changed_one, is_pending, set_enabled, enable_user_totp, clear_pending_totp, set_pending_totp,
  consume_totp_step, replace_recovery_codes,
}

-- A list that is shorter than another is not that list.
shorter_list :
    (zs xs ys : List Text) → length xs ≤ length zs → length zs < length ys → texts_eq xs ys ≡ false
shorter_list zs xs ys le lt = elim (Bool-cases (texts_eq xs ys)) [
  | inl e ↦ absurd (omega (arith, ap (length {0}) (texts_eq→eq xs ys e)))
  | inr e ↦ e
]

module _ (g : Gorm) (law : IsLawful g) (i : ℕ) (ne : i ≢ 0) (secret : Text) where
  Enrolled-refuses :
      (step : ℤ) (codes : List Text) (s : g.State)
      → Enrolled by_number g law i secret step codes s
      → {c : UserDbModel → Bool} {f : UserDbModel → UserDbModel} {r : Bool × g.State}
      → ((u : UserDbModel) → IsEnrolled by_number secret step codes u → c u ≡ false)
      → Swapped g i c f s r
      → r.0 ≡ false
  Enrolled-refuses step codes s (u, e, v) refuse (lost no_row same why) = no_row
  Enrolled-refuses step codes s (u, e, v) refuse (won w found hit done after others) = cc (
    refuse w
        (subst (IsEnrolled by_number secret step codes) (some-injective u w (sym e ∙ found)) v),
    hit,
  )

  Swapped-won :
      {c : UserDbModel → Bool} {f : UserDbModel → UserDbModel} {s : g.State} {r : Bool × g.State}
      → Swapped g i c f s r
      → r.0 ≡ true
      → (u : UserDbModel) × (account g i s ≡ some u) × (c u ≡ true) × (account g i r.1 ≡ some (f u))
  Swapped-won (won u found hit done after others) win = (u, found, hit, after)
  Swapped-won (lost no_row same why) win = cc

  -- A conditional update that no enrolled row lets through is refused after the statements.
  refused :
      (step : ℤ) (codes : List Text) (as' : List Statement) (s : g.State)
      → All (Spares by_number g law i secret) as'
      → HasKeys (g.rows s)
      → Enrolled by_number g law i secret step codes s
      → (c : UserDbModel → Bool) (f : UserDbModel → UserDbModel) → KeepsId f
      → ((u : UserDbModel) → IsEnrolled by_number secret step codes u → c u ≡ false)
      → (changed_one (g.update i (some c) f (run g as' s))).0 ≡ false
  refused step codes as' s sp keys v c f keep refuse =
      Enrolled-refuses step codes (run g as' s)
        (run_on-Enrolled by_number g law i secret step codes as' s sp v) refuse
        (changed_one-Swapped g law i c f (run g as' s) keep ne
          (run-HasKeys by_number g law i secret as' s sp keys))

  module _ (s : g.State) (keys : HasKeys (g.rows s)) (as' : List Statement)
      (sp : All (Spares by_number g law i secret) as') where
    -- Once a request has enabled the pending secret, then whatever statements of others reach the
    -- database in between, as long as none of them ends this enrolment: no second enable, under
    -- any secret, is told that it won, no new secret is stored and the secret is not cleared.
    pub enable_user_totp-once :
        (step : ℤ) (hashes : List Text)
        → (enable_user_totp g i secret step hashes s).0 ≡ true
        → (key : Text) (next : ℤ) (others : List Text)
        → let t = run g as' (enable_user_totp g i secret step hashes s).1 in
          ((enable_user_totp g i key next others t).0 ≡ false)
          × ((set_pending_totp g i key t).0 ≡ false)
          × ((clear_pending_totp g i key t).0 ≡ false)
    unfolding enable_user_totp set_pending_totp clear_pending_totp
    enable_user_totp-once step hashes win key next others =
        let (u, _, hit, after) =
          Swapped-won (changed_one-Swapped g law i _ _ s (λ r. refl) ne keys) win in
        let keys' = update-HasKeys g law i _ _ s (λ r. refl) keys in
        let v : Enrolled by_number g law i secret step hashes
            (enable_user_totp g i secret step hashes s).1 =
          (set_enabled step hashes u, after, enabled_row u hit) in
        (
          refused step hashes as' _ sp keys' v _ _ (λ r. refl) (λ w e. ground arith),
          refused step hashes as' _ sp keys' v _ _ (λ r. refl) (λ w e. ground arith),
          refused step hashes as' _ sp keys' v _ _ (λ r. refl) (λ w e. ground arith),
        )
      where
        enabled_row :
            (u : UserDbModel)
            → is_pending secret u ≡ true
            → IsEnrolled by_number secret step hashes (set_enabled step hashes u)
        enabled_row u hit = ground (arith, text_eq_iff u.totp_secret secret, ≤ℤ_refl step)

    -- Once a time step has been consumed for an enrolled user, neither that step nor an earlier
    -- one is accepted again under the same enrolment.
    pub consume_totp_step-once :
        (step last_step : ℤ) (codes : List Text)
        → Enrolled by_number g law i secret last_step codes s
        → (consume_totp_step g i step s).0 ≡ true
        → (next : ℤ) → next ≤ℤ step
        → (consume_totp_step g i next (run g as' (consume_totp_step g i step s).1)).0 ≡ false
    unfolding consume_totp_step
    consume_totp_step-once step last_step codes v win next le =
        let (u, found, hit, after) =
          Swapped-won (changed_one-Swapped g law i _ _ s (λ r. refl) ne keys) win in
        let keys' = update-HasKeys g law i _ _ s (λ r. refl) keys in
        refused step codes as' _ sp keys'
          (record u { totp_last_step = step }, after, stepped_row u found) _ _ (λ r. refl)
          (λ w e. ≤ℤ_trans next step w.totp_last_step le e.stepped)
      where
        stepped_row :
            (u : UserDbModel)
            → account g i s ≡ some u
            → IsEnrolled by_number secret step codes (record u { totp_last_step = step })
        stepped_row u found =
            let same =
              subst (IsEnrolled by_number secret last_step codes)
                (some-injective _ u (sym v.1 ∙ found)) v.2 in
            ground (arith, ≤ℤ_refl step)

    -- Once a request has taken a code off the list that it read, no other request that read the
    -- same list takes a code off it under the same enrolment.
    pub replace_recovery_codes-once :
        (last_step : ℤ) (codes : List Text) (prev remaining : List Text)
        → Enrolled by_number g law i secret last_step codes s
        → length remaining < length prev
        → (replace_recovery_codes g i prev remaining s).0 ≡ true
        → (others : List Text)
        → (replace_recovery_codes g i prev others
            (run g as' (replace_recovery_codes g i prev remaining s).1)).0
          ≡ false
    unfolding replace_recovery_codes
    replace_recovery_codes-once last_step codes prev remaining v less win others =
        let (u, found, hit, after) =
          Swapped-won (changed_one-Swapped g law i _ _ s (λ r. refl) ne keys) win in
        let keys' = update-HasKeys g law i _ _ s (λ r. refl) keys in
        refused last_step remaining as' _ sp keys'
          (record u { recovery_codes = remaining }, after, shorter_row u found) _ _ (λ r. refl)
          (λ w e. shorter_list remaining w.recovery_codes prev e.few less)
      where
        shorter_row :
            (u : UserDbModel)
            → account g i s ≡ some u
            → IsEnrolled by_number secret last_step remaining
                (record u { recovery_codes = remaining })
        shorter_row u found =
            let same =
              subst (IsEnrolled by_number secret last_step codes)
                (some-injective _ u (sym v.1 ∙ found)) v.2 in
            ground arith
