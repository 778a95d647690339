-- ===== src/Users/Enrolment.antt =====
-- An enrolment in two-factor authentication outlasts every statement that is not aimed at ending
-- it, in whatever order the statements of concurrent requests reach the database.
use mathlib.Core.List.{Sublist}
use mathlib.Core.List.Sublist
use casa_os_user_service.Common.{
  ℕ, ◌≤◌, ◌≡◌, ◌≢◌, refl, ap, ◌∙◌, subst, ◌⊎◌, inl, inr, true, false, Option, none, some, List, [],
  ◌∷◌, arith, length, All, Bool-cases,
}
use casa_os_user_service.Common.Text.{Text, text_eq_iff, texts_eq, texts_eq→eq}
use casa_os_user_service.Common.Int.{ℤ, ◌≤ℤ◌, ≤ℤ_trans, ≤ℤ_of_lt}
use casa_os_user_service.Users.Database.{UserDbModel, Condition, keyed, Gorm, IsLawful}
use casa_os_user_service.Users.Table.{
  lookup_id, lookup_id-id, HasKeys, KeepsId, Avoids-ne, lookup_id-append, lookup_id-reject,
}
use casa_os_user_service.Users.Cas.{account, update-account}
use casa_os_user_service.Users.Statements.{
  Statement, creates, updates_info, updates_totp, resets, updates_password, deletes_all, deletes,
  enables, replaces_hash, clears_pending, sets_pending, disables, consumes_step, replaces_codes,
  perform, run, IsAnonymous, perform-HasKeys,
}
use casa_os_user_service.Users.{
  overlay, delete_all_user, delete_user_by_id, create_user, update_user, update_user_totp,
  enable_user_totp, replace_password_hash, clear_pending_totp, set_pending_totp, disable_user_totp,
  consume_totp_step, replace_recovery_codes, reset_user_credentials, update_user_password,
}

-- In what sense recovery codes become fewer.
pub record Shrinking : Type 1 where
  pub fewer : List Text → List Text → Type 0
  pub fewer-trans : (xs ys zs : List Text) → fewer xs ys → fewer ys zs → fewer xs zs

-- By their number.
abbrev pub by_number : Shrinking
by_number = record {
  fewer = λ xs ys. length xs ≤ length ys;
  fewer-trans = λ xs ys zs le le'. omega (arith, le, le');
}

-- Codes are taken off, and those that are left stay in their order: no other takes their place.
abbrev pub taken_off : Shrinking
taken_off = record { fewer = Sublist; fewer-trans = λ xs ys zs. Sublist.trans }

-- The row is enabled under this secret, its last accepted step is at least `step`, and its recovery
-- codes are `codes` or fewer.
pub record IsEnrolled (o : Shrinking) (secret : Text) (step : ℤ) (codes : List Text)
    (u : UserDbModel) : Type 0 where
  pub enabled : u.totp_enabled ≡ true
  pub same_secret : u.totp_secret ≡ secret
  pub stepped : step ≤ℤ u.totp_last_step
  pub few : o.fewer u.recovery_codes codes

module _ (o : Shrinking) (g : Gorm) (law : IsLawful g) (i : ℕ) (secret : Text) where
  abbrev pub Enrolled : ℤ → List Text → g.State → Type 0
  Enrolled step codes s =
      (u : UserDbModel) × (account g i s ≡ some u) × IsEnrolled o secret step codes u

  -- The statement is not one of those that end the enrolment of this user: a deletion, a reset, a
  -- write of all the 2FA columns, or a disable keyed on this very secret; and the recovery codes
  -- are replaced by fewer of them.
  abbrev pub Spares : Statement → Type 0
  Spares (creates m) = m.id ≡ 0
  Spares (updates_totp m) = m.id ≢ i
  Spares (resets m) = m.id ≢ i
  Spares deletes_all = ⊥
  Spares (deletes id) = g.id_is id i ≡ false
  Spares (disables id key) = (id ≢ 0) × ((id ≢ i) ⊎ (key ≢ secret))
  Spares (replaces_codes id prev remaining) = o.fewer remaining prev
  Spares _ = Unit {0}

  Enrolled-update :
      (step : ℤ) (codes : List Text) (id : ℕ) (c : Option Condition) (f : UserDbModel → UserDbModel)
      (s : g.State)
      → KeepsId f
      → ((u : UserDbModel)
          → u.id ≡ i
          → ((id ≢ 0) ⊎ (c ≢ none))
          → keyed id c u ≡ true
          → IsEnrolled o secret step codes u
          → IsEnrolled o secret step codes (f u))
      → Enrolled step codes s
      → Enrolled step codes (g.update id c f s).1
  Enrolled-update step codes id c f s k keep (u, e, v) = elim (update-account g law id c f s k i) [
    | inl same ↦ (u, same ∙ e, v)
    | inr (named, changed) ↦ elim (Bool-cases (keyed id c u)) [
      | inl hit ↦ (f u, changed ∙ rw (e, hit), keep u (lookup_id-id i (g.rows s) u e) named hit v)
      | inr miss ↦ (u, changed ∙ rw (e, miss), v)
    ]
  ]

  -- A statement with no condition but the key of another user does not touch this row.
  not_named :
      (id : ℕ) (u : UserDbModel)
      → u.id ≡ i
      → id ≢ i
      → (id ≢ 0) ⊎ (◌≢◌ {A = Option Condition} none none)
      → keyed id none u ≡ true
      → ⊥
  not_named id u h other (inl ne) hit = ground arith
  not_named id u h other (inr never) hit = never refl

  create-Enrolled :
      (step : ℤ) (codes : List Text) (m : UserDbModel) (s : g.State)
      → m.id ≡ 0
      → Enrolled step codes s
      → Enrolled step codes (g.create m s).1
  create-Enrolled step codes m s fresh (u, e, v) = elim (law.create-rows m s fresh) [
    | inl (same, _) ↦ (u, ap (lookup_id i) same ∙ e, v)
    | inr (added, _, _, avoids) ↦ (
      u,
      ap (lookup_id i) added
          ∙ lookup_id-append i (g.rows s) _ avoids
          ∙ rw (Avoids-ne _ i (g.rows s) u avoids e) e,
      v,
    )
  ]

  delete-Enrolled :
      (step : ℤ) (codes : List Text) (id : Text) (s : g.State)
      → g.id_is id i ≡ false
      → Enrolled step codes s
      → Enrolled step codes (g.delete (λ r. g.id_is id r.id) s)
  delete-Enrolled step codes id s spared (u, e, v) =
      elim (law.delete-rows (λ r. g.id_is id r.id) s) [
        | inl same ↦ (u, ap (lookup_id i) same ∙ e, v)
        | inr less ↦ (
          u,
          ap (lookup_id i) less ∙ lookup_id-reject (g.id_is id) i (g.rows s) ∙ rw (spared, e),
          v,
        )
      ]

  pub perform-Enrolled :
      (step : ℤ) (codes : List Text) (a : Statement) (s : g.State)
      → Spares a
      → Enrolled step codes s
      → Enrolled step codes (perform g a s)
  unfolding perform overlay delete_all_user delete_user_by_id create_user update_user
      update_user_totp enable_user_totp replace_password_hash clear_pending_totp set_pending_totp
      disable_user_totp consume_totp_step replace_recovery_codes reset_user_credentials
      update_user_password
  perform-Enrolled step codes (creates m) s sp v = create-Enrolled step codes m s sp v
  perform-Enrolled step codes (updates_info m) s sp v =
      Enrolled-update step codes m.id _ _ s (λ r. refl) (λ u _ _ _ w. ground arith) v
  perform-Enrolled step codes (updates_totp m) s sp v =
      Enrolled-update step codes m.id _ _ s (λ r. refl)
        (λ u h n hit w. absurd (not_named m.id u h sp n hit)) v
  perform-Enrolled step codes (resets m) s sp v =
      Enrolled-update step codes m.id _ _ s (λ r. refl)
        (λ u h n hit w. absurd (not_named m.id u h sp n hit)) v
  perform-Enrolled step codes (updates_password m) s sp v =
      Enrolled-update step codes m.id _ _ s (λ r. refl) (λ u _ _ _ w. ground arith) v
  perform-Enrolled step codes deletes_all s sp v = absurd sp
  perform-Enrolled step codes (deletes id) s sp v = delete-Enrolled step codes id s sp v
  perform-Enrolled step codes (enables id key n hashes) s sp v =
      Enrolled-update step codes id _ _ s (λ r. refl) (λ u h n hit w. ground arith) v
  perform-Enrolled step codes (replaces_hash id _ _) s sp v =
      Enrolled-update step codes id _ _ s (λ r. refl) (λ u h n hit w. ground arith) v
  perform-Enrolled step codes (clears_pending id _) s sp v =
      Enrolled-update step codes id _ _ s (λ r. refl) (λ u h n hit w. ground arith) v
  perform-Enrolled step codes (sets_pending id _) s sp v =
      Enrolled-update step codes id _ _ s (λ r. refl) (λ u h n hit w. ground arith) v
  perform-Enrolled step codes (disables id key) s sp v =
      Enrolled-update step codes id _ _ s (λ r. refl)
        (λ u h n hit w. ground (arith, text_eq_iff u.totp_secret key)) v
  perform-Enrolled step codes (consumes_step id next) s sp v =
      Enrolled-update step codes id _ _ s (λ r. refl)
        (λ u h n hit w.
          ground (arith, ≤ℤ_of_lt u.totp_last_step next, ≤ℤ_trans step u.totp_last_step next))
        v
  perform-Enrolled step codes (replaces_codes id prev remaining) s sp v =
      Enrolled-update step codes id _ _ s (λ r. refl)
        (λ u h n hit w. replaced u prev remaining (ground arith) sp w) v
    where
      replaced :
          (u : UserDbModel) (xs ys : List Text)
          → texts_eq u.recovery_codes xs ≡ true
          → o.fewer ys xs
          → IsEnrolled o secret step codes u
          → IsEnrolled o secret step codes (record u { recovery_codes = ys })
      replaced u xs ys same less w = record {
        enabled = w.enabled;
        same_secret = w.same_secret;
        stepped = w.stepped;
        few =
            o.fewer-trans ys xs codes less
              (subst (λ t. o.fewer t codes) (texts_eq→eq u.recovery_codes xs same) w.few);
      }

  Spares-HasKeys :
      (a : Statement) (s : g.State)
      → Spares a
      → HasKeys (g.rows s)
      → HasKeys (g.rows (perform g a s))
  Spares-HasKeys a s sp u = perform-HasKeys g law a s (anonymous a sp) u
    where
      anonymous : (b : Statement) → Spares b → IsAnonymous g b
      anonymous (creates m) h = h
      anonymous (updates_info m) h = tt
      anonymous _ h = tt

  pub run-HasKeys :
      (as' : List Statement) (s : g.State)
      → All Spares as'
      → HasKeys (g.rows s)
      → HasKeys (g.rows (run g as' s))
  unfolding run
  run-HasKeys [] s sp u = u
  run-HasKeys (a ∷ as') s (sp, sps) u =
      run-HasKeys as' (perform g a s) sps (Spares-HasKeys a s sp u)

  pub run_on-Enrolled :
      (step : ℤ) (codes : List Text) (as' : List Statement) (s : g.State)
      → All Spares as'
      → Enrolled step codes s
      → Enrolled step codes (run g as' s)
  unfolding run
  run_on-Enrolled step codes [] s sp v = v
  run_on-Enrolled step codes (a ∷ as') s (sp, sps) v =
      run_on-Enrolled step codes as' (perform g a s) sps (perform-Enrolled step codes a s sp v)

module _ (g : Gorm) (law : IsLawful g) (i : ℕ) (secret : Text) where
  -- An enrolment that is in force stays in force, its last step does not go back, and its recovery
  -- codes stay among those that it has at any one moment, none of them put back or replaced by
  -- another, over any statements that spare it. Those spare it that neither end it nor put anything
  -- into a list of recovery codes that they replace.
  pub run-Enrolled :
      (step : ℤ) (codes : List Text) (as' : List Statement) (s : g.State)
      → All (Spares taken_off g law i secret) as'
      → Enrolled taken_off g law i secret step codes s
      → Enrolled taken_off g law i secret step codes (run g as' s)
  run-Enrolled step codes as' s sp v =
      run_on-Enrolled taken_off g law i secret step codes as' s sp v
