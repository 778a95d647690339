-- ===== src/Users/Database.antt =====
-- The row of service/model/o_user.go, and the calls of gorm that service/user.go makes.
use casa_os_user_service.Common.{
  ℕ, ◌≡◌, ◌≢◌, ◌⊎◌, Bool, true, false, ◌&&◌, ◌||◌, Option, none, some, List, [], ◌∷◌, ◌++◌, find,
  count, modify, reject, length, ◌==◌, All,
}
use casa_os_user_service.Common.Text.{Text}
use casa_os_user_service.Common.Decimal.{itoa}
use casa_os_user_service.Common.Int.{ℤ, pos}

pub record UserDbModel : Type 0 where
  pub id : ℕ
  pub username : Text
  pub password : Text
  pub role : Text
  pub email : Text
  pub nickname : Text
  pub avatar : Text
  pub description : Text
  pub totp_secret : Text
  pub totp_enabled : Bool
  pub totp_last_step : ℤ
  pub recovery_codes : List Text

abbrev pub zero_user : UserDbModel
zero_user = record {
  id = 0;
  username = [];
  password = [];
  role = [];
  email = [];
  nickname = [];
  avatar = [];
  description = [];
  totp_secret = [];
  totp_enabled = false;
  totp_last_step = pos 0;
  recovery_codes = [];
}

-- The error, or the number of rows of a statement.
pub data Outcome : Type 0 where
  failed : Text → Outcome
  affected : ℕ → Outcome

abbrev pub Condition : Type 0
Condition = UserDbModel → Bool

abbrev pub holds : Option Condition → Condition
holds none r = true
holds (some c) r = c r

-- The rows of db.Model(&UserDBModel{Id: id}).Where(c): a primary key that is not zero is one more
-- condition.
abbrev pub keyed : ℕ → Option Condition → Condition
keyed id c r = (id == 0 || r.id == id) && holds c r

pub record Gorm : Type 1 where
  pub State : Type 0
  -- The table in the order of its primary key, a means of stating the laws.
  pub rows : State → List UserDbModel
  -- Where(c).First
  pub first : Condition → State → Option UserDbModel
  pub find_all : State → List UserDbModel
  pub count : State → ℕ
  -- Model(&UserDBModel{Id: id}).Where(c).Updates
  pub update : ℕ → Option Condition → (UserDbModel → UserDbModel) → State → Outcome × State
  pub create : UserDbModel → State → UserDbModel × State
  -- Where(c).Delete
  pub delete : Condition → State → State
  -- What id= ? selects when the argument is a text.
  pub id_is : Text → ℕ → Bool

module _ (g : Gorm) where
  abbrev pub CreateResult : UserDbModel → g.State → Type 0
  CreateResult m s =
      ((g.rows (g.create m s).1 ≡ g.rows s) × ((g.create m s).0 ≡ m))
      ⊎ ((g.rows (g.create m s).1 ≡ g.rows s ++ (g.create m s).0 ∷ [])
          × ((g.create m s).0 ≡ record m { id = (g.create m s).0.id })
          × ((g.create m s).0.id ≢ 0)
          × All (λ r. (r.id == (g.create m s).0.id) ≡ false) (g.rows s))

  pub record IsLawful : Type 0 where
    pub first-rows :
        (c : Condition) (s : g.State) → (g.first c s ≡ none) ⊎ (g.first c s ≡ find c (g.rows s))
    pub find_all-rows : (s : g.State) → (g.find_all s ≡ []) ⊎ (g.find_all s ≡ g.rows s)
    pub count-rows : (s : g.State) → (g.count s ≡ 0) ⊎ (g.count s ≡ length (g.rows s))
    -- A statement with neither a key nor a condition is refused (ErrMissingWhereClause).
    pub update-rows :
        (id : ℕ) (c : Option Condition) (f : UserDbModel → UserDbModel) (s : g.State)
        → (((e : Text) × ((g.update id c f s).0 ≡ failed e))
            × (g.rows (g.update id c f s).1 ≡ g.rows s))
          ⊎ (((id ≢ 0) ⊎ (c ≢ none))
              × ((g.update id c f s).0 ≡ affected (count (keyed id c) (g.rows s)))
              × (g.rows (g.update id c f s).1 ≡ modify (keyed id c) f (g.rows s)))
    pub create-rows : (m : UserDbModel) (s : g.State) → m.id ≡ 0 → CreateResult m s
    pub delete-rows :
        (c : Condition) (s : g.State)
        → (g.rows (g.delete c s) ≡ g.rows s) ⊎ (g.rows (g.delete c s) ≡ reject c (g.rows s))
    pub id_is-itoa : (m n : ℕ) → g.id_is (itoa m) n ≡ (n == m)
