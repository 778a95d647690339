-- ===== src/Users/Cas.antt =====
-- What a conditional update by key does: it swaps the one row that meets its condition and says
-- so, or it changes nothing.
use casa_os_user_service.Common.{
  ℕ, ◌≡◌, ◌≢◌, refl, ap, ◌∙◌, ◌⊎◌, inl, inr, Bool, true, false, Option, none, some, modify, ◌==◌,
  if◌then◌else◌, arith, Bool-cases, Option-cases,
}
use casa_os_user_service.Common.Text.{Text}
use casa_os_user_service.Users.Database.{
  UserDbModel, Condition, keyed, Outcome, failed, affected, Gorm, IsLawful,
}
use casa_os_user_service.Users.Table.{
  lookup_id, HasKeys, KeepsId, alter, lookup_id-modify, lookup_id-modify_ne,
  lookup_id-modify_missed, hits, count-keyed, HasKeys-modify, lookup_id-id,
}
use casa_os_user_service.Users.{changed_one}

abbrev pub IsFailed : Outcome → Type 0
IsFailed o = (e : Text) × (o ≡ failed e)

module _ (g : Gorm) where
  open g use {State}

  -- The row of an id.
  abbrev pub account : ℕ → State → Option UserDbModel
  account i s = lookup_id i (g.rows s)

  abbrev pub SameAccounts : State → State → Type 0
  SameAccounts s t = (j : ℕ) → account j t ≡ account j s

  abbrev pub SameOthers : ℕ → State → State → Type 0
  SameOthers i s t = (j : ℕ) → j ≢ i → account j t ≡ account j s

  pub data Swapped (i : ℕ) (c : Condition) (f : UserDbModel → UserDbModel) (s : State)
      (r : Bool × State) : Type 0 where
    won :
        (u : UserDbModel)
        → account i s ≡ some u
        → c u ≡ true
        → r.0 ≡ true
        → account i r.1 ≡ some (f u)
        → SameOthers i s r.1
        → Swapped i c f s r
    lost :
        r.0 ≡ false
        → SameAccounts s r.1
        → IsFailed (g.update i (some c) f s).0
          ⊎ ((u : UserDbModel) → account i s ≡ some u → c u ≡ false)
        → Swapped i c f s r

  module _ (law : IsLawful g) where
    -- At each id an update is seen as that of the row, or not at all.
    pub update-account :
        (i : ℕ) (c : Option Condition) (f : UserDbModel → UserDbModel) (s : State)
        → KeepsId f
        → (j : ℕ)
        → (account j (g.update i c f s).1 ≡ account j s)
          ⊎ (((i ≢ 0) ⊎ (c ≢ none))
              × (account j (g.update i c f s).1 ≡ alter (keyed i c) f (account j s)))
    update-account i c f s k j = elim (law.update-rows i c f s) [
      | inl (_, same) ↦ inl (ap (lookup_id j) same)
      | inr (named, _, changed) ↦
          inr (named, ap (lookup_id j) changed ∙ lookup_id-modify (keyed i c) f k j (g.rows s))
    ]

    -- An update by key alone is seen at that key only.
    pub update-account_key :
        (i : ℕ) (f : UserDbModel → UserDbModel) (s : State)
        → KeepsId f
        → i ≢ 0
        → (j : ℕ)
        → (account j (g.update i none f s).1 ≡ account j s)
          ⊎ ((i ≡ j) × (account j (g.update i none f s).1 ≡ alter (λ _. true) f (account j s)))
    update-account_key i f s k ne j = elim (update-account i none f s k j) [
      | inl same ↦ inl same
      | inr (named, changed) ↦ elim (Option-cases (account j s)) [
        | inl gone ↦ inl (changed ∙ rw gone refl)
        | inr (u, found) ↦
            let at_key : u.id ≡ j = lookup_id-id j (g.rows s) u found in
            elim (Bool-cases (u.id == i)) [
              | inl hit ↦ inr (ground arith, changed ∙ rw (found, hit) (ground arith))
              | inr miss ↦ inl (changed ∙ rw (found, miss) (ground arith))
            ]
      ]
    ]

    pub update-HasKeys :
        (i : ℕ) (c : Option Condition) (f : UserDbModel → UserDbModel) (s : State)
        → KeepsId f
        → HasKeys (g.rows s)
        → HasKeys (g.rows (g.update i c f s).1)
    update-HasKeys i c f s k u = elim (law.update-rows i c f s) [
      | inl (_, same) ↦ rw same u
      | inr (_, _, changed) ↦ rw changed (HasKeys-modify (keyed i c) f k (g.rows s) u)
    ]

    changed_one-Swapped_row :
        (i : ℕ) (c : Condition) (f : UserDbModel → UserDbModel) (s : State)
        → KeepsId f
        → i ≢ 0
        → (g.update i (some c) f s).0 ≡ affected (hits (some c) (account i s))
        → g.rows (g.update i (some c) f s).1 ≡ modify (keyed i (some c)) f (g.rows s)
        → (o : Option UserDbModel) → account i s ≡ o
        → Swapped i c f s (changed_one (g.update i (some c) f s))
    changed_one-Swapped_row i c f s k ne e m none found =
        let miss : (u : UserDbModel) → account i s ≡ some u → c u ≡ false = λ u h. cc in
        lost (rw (e, found))
          (λ j. rw m (lookup_id-modify_missed i (some c) f k ne (g.rows s) miss j)) (inr miss)
    changed_one-Swapped_row i c f s k ne e m (some u) found = elim (Bool-cases (c u)) [
      | inl hit ↦
          won u found hit (rw (e, found, hit)) (rw (m, row, hit))
            (λ j other. rw m (lookup_id-modify_ne i (some c) f k ne j (g.rows s) other))
      | inr missed ↦
          let miss : (v : UserDbModel) → account i s ≡ some v → c v ≡ false = λ v h. ground arith in
          lost (rw (e, found, missed))
            (λ j. rw m (lookup_id-modify_missed i (some c) f k ne (g.rows s) miss j)) (inr miss)
    ]
      where
        row : lookup_id i (modify (keyed i (some c)) f (g.rows s)) ≡ some (if c u then f u else u)
        row =
            rw (lookup_id-modify (keyed i (some c)) f k i (g.rows s), found)
              (ground (arith, lookup_id-id i (g.rows s) u found))

    -- A conditional update by a key that is not zero, on a table whose ids are distinct: either the
    -- row of the key meets the condition, it alone is changed and the report is true, or no row is
    -- changed, the report is false, and the statement failed or the row does not meet the condition.
    pub changed_one-Swapped :
        (i : ℕ) (c : Condition) (f : UserDbModel → UserDbModel) (s : State)
        → KeepsId f
        → i ≢ 0
        → HasKeys (g.rows s)
        → Swapped i c f s (changed_one (g.update i (some c) f s))
    changed_one-Swapped i c f s k ne u = elim (law.update-rows i (some c) f s) [
      | inl ((e, fails), same) ↦ lost (rw fails refl) (λ j. ap (lookup_id j) same) (inl (e, fails))
      | inr (_, counted, changed) ↦
          changed_one-Swapped_row i c f s k ne
            (counted ∙ ap affected (count-keyed i (some c) (g.rows s) ne u)) changed (account i s)
            refl
    ]
