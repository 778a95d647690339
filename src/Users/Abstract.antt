-- ===== src/Users/Abstract.antt =====
-- The account table as its callers see it: an account, or none, at each id. The order of the
-- rows and the text of errors are forgotten. service/user.go implements the steps of this view.
use casa_os_user_service.Common.{
  ℕ, ◌≡◌, ◌≢◌, refl, sym, ap, ◌∙◌, ◌⊎◌, inl, inr, Bool, true, false, ◌&&◌, ◌||◌, not, Option, none,
  some, List, [], ◌∷◌, ◌==◌, All, if◌then◌else◌, count, arith, Option-cases,
}
use casa_os_user_service.Common.Text.{Text, text_eq, texts_eq}
use casa_os_user_service.Common.Int.{pos, ltb_ℤ}
use casa_os_user_service.Users.Database.{
  UserDbModel, Condition, keyed, failed, affected, Gorm, IsLawful,
}
use casa_os_user_service.Users.Table.{
  KeepsId, alter, lookup_id, lookup_id-id, lookup_id-modify, lookup_id-append, lookup_id-reject,
  Avoids-ne, HasKeys, hits, count-keyed,
}
use casa_os_user_service.Users.Cas.{account}
use casa_os_user_service.Users.Statements.{
  Statement, creates, updates_info, updates_totp, resets, updates_password, deletes_all, deletes,
  enables, replaces_hash, clears_pending, sets_pending, disables, consumes_step, replaces_codes,
}
use casa_os_user_service.Users.{overlay, set_enabled, set_secret, set_totp, is_one}

abbrev pub View : Type 0
View = ℕ → Option UserDbModel

-- A change of the account whose id is named, if it meets a condition. The id zero names all.
abbrev pub changes : ℕ → Condition → (UserDbModel → UserDbModel) → UserDbModel → Option UserDbModel
changes id c f u = some (if (id == 0 || u.id == id) && c u then f u else u)

-- There is an account, and it meets the condition.
abbrev pub meets : Condition → Option UserDbModel → Bool
meets c none = false
meets c (some u) = c u

module _ (id_is : Text → ℕ → Bool) where
  -- What a statement that takes effect makes of an account.
  abbrev pub meant : Statement → UserDbModel → Option UserDbModel
  meant (creates m) u = some u
  meant (updates_info m) u = changes m.id (λ _. true) (overlay m) u
  meant (updates_totp m) u =
      changes m.id (λ _. true)
        (set_totp m.totp_secret m.totp_enabled m.totp_last_step m.recovery_codes) u
  meant (resets m) u =
      changes m.id (λ _. true)
        (λ r.
          set_totp m.totp_secret m.totp_enabled m.totp_last_step m.recovery_codes
            (record r { password = m.password }))
        u
  meant (updates_password m) u =
      changes m.id (λ _. true) (λ r. record r { password = m.password }) u
  meant deletes_all u = none
  meant (deletes id) u = if id_is id u.id then none else some u
  meant (enables id secret step hashes) u =
      changes id (λ r. not r.totp_enabled && text_eq r.totp_secret secret) (set_enabled step hashes)
        u
  meant (replaces_hash id current replacement) u =
      changes id (λ r. text_eq r.password current) (λ r. record r { password = replacement }) u
  meant (clears_pending id secret) u =
      changes id (λ r. not r.totp_enabled && text_eq r.totp_secret secret) (set_secret []) u
  meant (sets_pending id secret) u = changes id (λ r. not r.totp_enabled) (set_secret secret) u
  meant (disables id secret) u =
      changes id (λ r. r.totp_enabled && text_eq r.totp_secret secret)
        (set_totp [] false (pos 0) []) u
  meant (consumes_step id step) u =
      changes id (λ r. ltb_ℤ r.totp_last_step step) (λ r. record r { totp_last_step = step }) u
  meant (replaces_codes id prev remaining) u =
      changes id (λ r. texts_eq r.recovery_codes prev)
        (λ r. record r { recovery_codes = remaining }) u

  abbrev pub meant_at : Statement → Option UserDbModel → Option UserDbModel
  meant_at a none = none
  meant_at a (some u) = meant a u

  -- The service hears nothing of how the statement went.
  abbrev pub is_silent : Statement → Bool
  is_silent (updates_info m) = true
  is_silent deletes_all = true
  is_silent (deletes id) = true
  is_silent _ = false

  -- A conditional statement for one account reports as done exactly that the account is there and
  -- meets the condition.
  abbrev pub ReportsMatch : ℕ → Condition → Bool → View → Type 0
  ReportsMatch id c b v = id ≢ 0 → b ≡ meets c (v id)

  -- What is reported of a statement that takes effect. No creation takes effect on an account that
  -- is there.
  abbrev pub Reports : Statement → Bool → View → Type 0
  Reports (creates m) b v = ⊥
  Reports (updates_info m) b v = b ≡ true
  Reports (updates_totp m) b v = b ≡ true
  Reports (resets m) b v = b ≡ true
  Reports (updates_password m) b v = b ≡ true
  Reports deletes_all b v = b ≡ true
  Reports (deletes id) b v = b ≡ true
  Reports (enables id secret step hashes) b v =
      ReportsMatch id (λ r. not r.totp_enabled && text_eq r.totp_secret secret) b v
  Reports (replaces_hash id current replacement) b v =
      ReportsMatch id (λ r. text_eq r.password current) b v
  Reports (clears_pending id secret) b v =
      ReportsMatch id (λ r. not r.totp_enabled && text_eq r.totp_secret secret) b v
  Reports (sets_pending id secret) b v = ReportsMatch id (λ r. not r.totp_enabled) b v
  Reports (disables id secret) b v =
      ReportsMatch id (λ r. r.totp_enabled && text_eq r.totp_secret secret) b v
  Reports (consumes_step id step) b v = ReportsMatch id (λ r. ltb_ℤ r.totp_last_step step) b v
  Reports (replaces_codes id prev remaining) b v =
      ReportsMatch id (λ r. texts_eq r.recovery_codes prev) b v

  -- A statement, and whether it is reported as done: it is not seen, and that is reported if anything
  -- is; it takes effect on every account at once, and the report says whether it found what it was
  -- conditional on; or it makes an account at an id that had none.
  pub data Step (v : View) : Statement → Bool → View → Type 0 where
    skips :
        (a : Statement) (b : Bool) (v' : View)
        → (is_silent a ≡ true) ⊎ (b ≡ false)
        → ((j : ℕ) → v' j ≡ v j)
        → Step v a b v'
    acts :
        (a : Statement) (b : Bool) (v' : View)
        → Reports a b v
        → ((j : ℕ) → v' j ≡ meant_at a (v j))
        → Step v a b v'
    makes :
        (m : UserDbModel) (b : Bool) (v' : View) (n : ℕ)
        → b ≡ true
        → n ≢ 0
        → v n ≡ none
        → ((j : ℕ) → v' j ≡ (if n == j then some (record m { id = n }) else v j))
        → Step v (creates m) b v'

  pub data Steps : View → List (Statement × Bool) → View → Type 0 where
    done : (v : View) → Steps v [] v
    next :
        (v : View) (a : Statement) (b : Bool) (told : List (Statement × Bool)) (u w : View)
        → Step v a b u
        → Steps u told w
        → Steps v ((a, b) ∷ told) w

module _ (g : Gorm) (law : IsLawful g) where
  abbrev pub view : g.State → View
  view s j = account g j s

  pub update-Step :
      (a : Statement) (b : Bool) (id : ℕ) (c : Option Condition) (f : UserDbModel → UserDbModel)
      (s : g.State)
      → KeepsId f
      → ((e : Text) → (g.update id c f s).0 ≡ failed e → (is_silent g.id_is a ≡ true) ⊎ (b ≡ false))
      → ((g.update id c f s).0 ≡ affected (count (keyed id c) (g.rows s))
          → Reports g.id_is a b (view s))
      → (((id ≢ 0) ⊎ (c ≢ none))
          → (o : Option UserDbModel) → alter (keyed id c) f o ≡ meant_at g.id_is a o)
      → Step g.id_is (view s) a b (view (g.update id c f s).1)
  update-Step a b id c f s k told reports as_meant = elim (law.update-rows id c f s) [
    | inl ((e, fails), same) ↦ skips a b _ (told e fails) (λ j. ap (lookup_id j) same)
    | inr (named, counted, changed) ↦ acts a b _ (reports counted) (λ j.
        ap (lookup_id j) changed
        ∙ lookup_id-modify (keyed id c) f k j (g.rows s)
        ∙ as_meant named (account g j s))
  ]

  -- On distinct ids, one row was affected exactly if the account is there and meets the condition.
  pub is_one-meets :
      (id : ℕ) (c : Condition) (f : UserDbModel → UserDbModel) (s : g.State)
      → HasKeys (g.rows s)
      → (g.update id (some c) f s).0 ≡ affected (count (keyed id (some c)) (g.rows s))
      → ReportsMatch g.id_is id c (is_one (g.update id (some c) f s).0) (view s)
  is_one-meets id c f s keys counted ne =
      rw (counted, count-keyed id (some c) (g.rows s) ne keys) (one_hit (account g id s))
    where
      one_hit : (o : Option UserDbModel) → (hits (some c) o == 1) ≡ meets c o
      one_hit none = refl
      one_hit (some u) = ground arith

  pub create-Step :
      (m : UserDbModel) (s : g.State)
      → m.id ≡ 0
      → Step g.id_is (view s) (creates m) (not ((g.create m s).0.id == 0)) (view (g.create m s).1)
  create-Step m s fresh = elim (law.create-rows m s fresh) [
    | inl (same, back) ↦
        skips (creates m) _ _ (inr (rw (back, fresh) refl)) (λ j. ap (lookup_id j) same)
    | inr (added, made, ne, avoids) ↦
        let n = (g.create m s).0.id in
        makes m _ _ n (ground arith) ne (absent n avoids (Option-cases (account g n s)))
          (λ j. ap (lookup_id j) added ∙ lookup_id-append j (g.rows s) _ avoids ∙ shown j made)
  ]
    where
      absent :
          (n : ℕ)
          → All (λ r. (r.id == n) ≡ false) (g.rows s)
          → (account g n s ≡ none) ⊎ ((u : UserDbModel) × (account g n s ≡ some u))
          → account g n s ≡ none
      absent n avoids (inl e) = e
      absent n avoids (inr (u, e)) = ground (arith, Avoids-ne n n (g.rows s) u avoids e)

      shown :
          (j : ℕ)
          → (g.create m s).0 ≡ record m { id = (g.create m s).0.id }
          → (if (g.create m s).0.id == j then some (g.create m s).0 else account g j s) ≡ (
              if (g.create m s).0.id == j
              then some (record m { id = (g.create m s).0.id })
              else account g j s)
      shown j made =
          ap (λ (r : UserDbModel). if (g.create m s).0.id == j then some r else account g j s) made

  pub delete-Step :
      (a : Statement) (b : Bool) (t : ℕ → Bool) (s : g.State)
      → is_silent g.id_is a ≡ true
      → Reports g.id_is a b (view s)
      → ((u : UserDbModel) → (if t u.id then none else some u) ≡ meant g.id_is a u)
      → Step g.id_is (view s) a b (view (g.delete (λ r. t r.id) s))
  delete-Step a b t s silent reports as_meant = elim (law.delete-rows (λ r. t r.id) s) [
    | inl same ↦ skips a b _ (inl silent) (λ j. ap (lookup_id j) same)
    | inr less ↦ acts a b _ reports (λ j.
        ap (lookup_id j) less
        ∙ lookup_id-reject t j (g.rows s)
        ∙ shown j (Option-cases (account g j s)))
  ]
    where
      shown :
          (j : ℕ)
          → (account g j s ≡ none) ⊎ ((u : UserDbModel) × (account g j s ≡ some u))
          → (if t j then none else account g j s) ≡ meant_at g.id_is a (account g j s)
      shown j (inl e) = rw e (ground arith)
      shown j (inr (u, e)) =
          let same : u.id ≡ j = lookup_id-id j (g.rows s) u e in
          rw e (ap (λ n. if t n then none else some u) (sym same) ∙ as_meant u)
