-- ===== src/Tests/Memory.antt =====
-- A table in memory that keeps the laws of `Gorm`.
use casa_os_user_service.Common.{
  ℕ, zero, suc, ◌≤◌, ◌≡◌, ◌≢◌, refl, sym, ◌∙◌, ◌⊎◌, inl, inr, false, Option, none, some, List, [],
  ◌∷◌, ◌++◌, arith, length, All, find, count, modify, reject, ltb, ◌==◌, ==_iff, if◌then◌else◌,
  Bool-cases,
}
use casa_os_user_service.Common.Text.{Text, bytes, text_eq, text_eq_iff, text_eq_refl}
use casa_os_user_service.Common.Decimal.{itoa, itoa_injective}
use casa_os_user_service.Users.Database.{
  UserDbModel, Condition, keyed, Outcome, failed, affected, Gorm, IsLawful, CreateResult,
}

abbrev pub top : List UserDbModel → ℕ
top [] = 0
top (r ∷ rs) = if ltb (top rs) r.id then r.id else top rs

top-avoids : (n : ℕ) (rs : List UserDbModel) → top rs ≤ n → All (λ r. (r.id == suc n) ≡ false) rs
top-avoids n [] le = tt
top-avoids n (r ∷ rs) le = (ground arith, top-avoids n rs (ground arith))

abbrev pub change :
    ℕ
    → Option Condition
    → (UserDbModel → UserDbModel)
    → List UserDbModel
    → Outcome × List UserDbModel
change id c f s = (affected (count (keyed id c) s), modify (keyed id c) f s)

abbrev pub update :
    ℕ
    → Option Condition
    → (UserDbModel → UserDbModel)
    → List UserDbModel
    → Outcome × List UserDbModel
update id (some c) f s = change id (some c) f s
update zero none f s = (failed (bytes "WHERE conditions required"), s)
update (suc n) none f s = change (suc n) none f s

abbrev pub insert : UserDbModel → List UserDbModel → UserDbModel × List UserDbModel
insert m s = let r = record m { id = suc (top s) } in (r, s ++ r ∷ [])

abbrev pub memory : Gorm
memory = record {
  State = List UserDbModel;
  rows = λ s. s;
  first = find;
  find_all = λ s. s;
  count = length;
  update = update;
  create = insert;
  delete = reject;
  id_is = λ t n. text_eq t (itoa n);
}

update-lawful :
    (id : ℕ) (c : Option Condition) (f : UserDbModel → UserDbModel) (s : List UserDbModel)
    → (((e : Text) × ((update id c f s).0 ≡ failed e)) × ((update id c f s).1 ≡ s))
      ⊎ (((id ≢ 0) ⊎ (c ≢ none))
          × ((update id c f s).0 ≡ affected (count (keyed id c) s))
          × ((update id c f s).1 ≡ modify (keyed id c) f s))
update-lawful id (some c) f s = inr (inr (λ e. cc), refl, refl)
update-lawful zero none f s = inl ((_, refl), refl)
update-lawful (suc n) none f s = inr (inl (λ e. omega (arith, e)), refl, refl)

create-lawful : (m : UserDbModel) (s : List UserDbModel) → CreateResult memory m s
create-lawful m s = inr (refl, refl, (λ e. omega (arith, e)), top-avoids (top s) s (omega arith))

id_is-lawful : (m n : ℕ) → text_eq (itoa m) (itoa n) ≡ (n == m)
id_is-lawful m n = elim (Bool-cases (n == m)) [
  | inl e ↦ rw e (rw ((==_iff n m).0 e) (text_eq_refl (itoa m)))
  | inr e ↦ elim (Bool-cases (text_eq (itoa m) (itoa n))) [
    | inl same ↦
        let q : n ≡ m = sym (itoa_injective m n ((text_eq_iff (itoa m) (itoa n)).0 same)) in
        ground arith
    | inr other ↦ other ∙ sym e
  ]
]

pub memory-IsLawful : IsLawful memory
memory-IsLawful = record {
  first-rows = λ c s. inr refl;
  find_all-rows = λ s. inr refl;
  count-rows = λ s. inr refl;
  update-rows = update-lawful;
  create-rows = λ m s fresh. create-lawful m s;
  delete-rows = λ c s. inr refl;
  id_is-itoa = id_is-lawful;
}
