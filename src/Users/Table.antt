-- ===== src/Users/Table.antt =====
-- The account table as a list of rows: lookup by id through an update, an insertion, a deletion.
use casa_os_user_service.Common.{
  ℕ, ◌≡◌, ◌≢◌, refl, ap, ◌⊎◌, inl, inr, Bool, true, false, Option, none, some, List, [], ◌∷◌, ◌++◌,
  find, count, modify, reject, ◌==◌, All, if◌then◌else◌, arith, Bool-cases, ==_iff, Option-cases,
  subst, sym,
}
use casa_os_user_service.Users.Database.{UserDbModel, Condition, holds, keyed}

unfoldable pub lookup_id : ℕ → List UserDbModel → Option UserDbModel
lookup_id i = find (λ r. r.id == i)

abbrev pub Avoids : ℕ → List UserDbModel → Type 0
Avoids i = All (λ q. (q.id == i) ≡ false)

-- No two rows have the same id.
abbrev pub HasKeys : List UserDbModel → Type 0
HasKeys [] = Unit {0}
HasKeys (r ∷ rs) = Avoids r.id rs × HasKeys rs

abbrev pub KeepsId : (UserDbModel → UserDbModel) → Type 0
KeepsId f = (r : UserDbModel) → (f r).id ≡ r.id

abbrev pub alter : Condition → (UserDbModel → UserDbModel) → Option UserDbModel → Option UserDbModel
alter p f none = none
alter p f (some r) = some (if p r then f r else r)

-- An update is seen at each id as an update of that row.
pub lookup_id-modify :
    (p : Condition) (f : UserDbModel → UserDbModel)
    → KeepsId f
    → (j : ℕ) (rs : List UserDbModel) → lookup_id j (modify p f rs) ≡ alter p f (lookup_id j rs)
unfolding lookup_id
lookup_id-modify p f k j [] = refl
lookup_id-modify p f k j (r ∷ rs) = ground (arith, k r, lookup_id-modify p f k j rs)

-- At another id an update by key is not seen.
pub lookup_id-modify_ne :
    (i : ℕ) (c : Option Condition) (f : UserDbModel → UserDbModel)
    → KeepsId f
    → i ≢ 0
    → (j : ℕ) (rs : List UserDbModel) → j ≢ i
    → lookup_id j (modify (keyed i c) f rs) ≡ lookup_id j rs
unfolding lookup_id
lookup_id-modify_ne i c f k h j [] ne = refl
lookup_id-modify_ne i c f k h j (r ∷ rs) ne =
    ground (arith, k r, lookup_id-modify_ne i c f k h j rs ne)

abbrev pub hits : Option Condition → Option UserDbModel → ℕ
hits c none = 0
hits c (some r) = if holds c r then 1 else 0

count-keyed_absent :
    (i : ℕ) (c : Option Condition) (rs : List UserDbModel)
    → i ≢ 0
    → Avoids i rs
    → count (keyed i c) rs ≡ 0
count-keyed_absent i c [] h a = refl
count-keyed_absent i c (r ∷ rs) h a = ground (arith, count-keyed_absent i c rs h a.1)

-- With distinct ids a statement by key affects the one row of that id, or none.
pub count-keyed :
    (i : ℕ) (c : Option Condition) (rs : List UserDbModel)
    → i ≢ 0
    → HasKeys rs
    → count (keyed i c) rs ≡ hits c (lookup_id i rs)
unfolding lookup_id
count-keyed i c [] h u = refl
count-keyed i c (r ∷ rs) h (fresh, u) = elim (Bool-cases (r.id == i)) [
  | inl e ↦
      rw (e, count-keyed_absent i c rs h (subst (λ n. Avoids n rs) ((==_iff r.id i).0 e) fresh))
        (ground arith)
  | inr e ↦ rw e (ground (arith, count-keyed i c rs h u))
]

Avoids-modify :
    (i : ℕ) (p : Condition) (f : UserDbModel → UserDbModel)
    → KeepsId f
    → (rs : List UserDbModel) → Avoids i rs
    → Avoids i (modify p f rs)
Avoids-modify i p f k [] a = tt
Avoids-modify i p f k (r ∷ rs) (a, b) = (ground (arith, k r), Avoids-modify i p f k rs b)

pub HasKeys-modify :
    (p : Condition) (f : UserDbModel → UserDbModel)
    → KeepsId f
    → (rs : List UserDbModel) → HasKeys rs
    → HasKeys (modify p f rs)
HasKeys-modify p f k [] u = tt
HasKeys-modify p f k (r ∷ rs) (a, u) = (
  subst (λ n. Avoids n (modify p f rs)) (keeps (Bool-cases (p r))) (Avoids-modify r.id p f k rs a),
  HasKeys-modify p f k rs u,
)
  where
    keeps : (p r ≡ true) ⊎ (p r ≡ false) → r.id ≡ (if p r then f r else r).id
    keeps (inl e) = rw e (sym (k r))
    keeps (inr e) = rw e refl

Avoids-reject :
    (i : ℕ) (p : Condition) (rs : List UserDbModel) → Avoids i rs → Avoids i (reject p rs)
Avoids-reject i p [] a = tt
Avoids-reject i p (r ∷ rs) (a, b) = ground (arith, Avoids-reject i p rs b)

pub HasKeys-reject : (p : Condition) (rs : List UserDbModel) → HasKeys rs → HasKeys (reject p rs)
HasKeys-reject p [] u = tt
HasKeys-reject p (r ∷ rs) (a, u) = ground (arith, Avoids-reject r.id p rs a, HasKeys-reject p rs u)

Avoids-append :
    (i : ℕ) (rs : List UserDbModel) (m : UserDbModel)
    → Avoids i rs
    → (m.id == i) ≡ false
    → Avoids i (rs ++ m ∷ [])
Avoids-append i [] m a h = (h, tt)
Avoids-append i (r ∷ rs) m (b, a) h = (b, Avoids-append i rs m a h)

pub HasKeys-append :
    (rs : List UserDbModel) (m : UserDbModel) → HasKeys rs → Avoids m.id rs → HasKeys (rs ++ m ∷ [])
HasKeys-append [] m u a = (tt, tt)
HasKeys-append (r ∷ rs) m (b, u) (h, a) =
    (Avoids-append r.id rs m b (ground arith), HasKeys-append rs m u a)

-- An insertion is seen at the new id only.
pub lookup_id-append :
    (j : ℕ) (rs : List UserDbModel) (m : UserDbModel)
    → Avoids m.id rs
    → lookup_id j (rs ++ m ∷ []) ≡ (if m.id == j then some m else lookup_id j rs)
unfolding lookup_id
lookup_id-append j [] m a = refl
lookup_id-append j (r ∷ rs) m (h, a) = ground (arith, lookup_id-append j rs m a)

-- A row that is found has the id, and a deletion by a condition on the id is seen at that id only.
pub lookup_id-id :
    (j : ℕ) (rs : List UserDbModel) (r : UserDbModel) → lookup_id j rs ≡ some r → r.id ≡ j
unfolding lookup_id
lookup_id-id j [] r e = cc
lookup_id-id j (q ∷ rs) r e = ground (arith, lookup_id-id j rs r)

pub lookup_id-reject :
    (t : ℕ → Bool) (j : ℕ) (rs : List UserDbModel)
    → lookup_id j (reject (λ r. t r.id) rs) ≡ (if t j then none else lookup_id j rs)
unfolding lookup_id
lookup_id-reject t j [] = ground arith
lookup_id-reject t j (r ∷ rs) = elim (Bool-cases (r.id == j)) [
  | inl e ↦
      let same : r.id ≡ j = (==_iff r.id j).0 e in
      ground (arith, ap t same, lookup_id-reject t j rs)
  | inr e ↦ ground (arith, lookup_id-reject t j rs)
]

-- An update by key is not seen at all if no row of that id meets its condition.
pub lookup_id-modify_missed :
    (i : ℕ) (c : Option Condition) (f : UserDbModel → UserDbModel)
    → KeepsId f
    → i ≢ 0
    → (rs : List UserDbModel) → ((u : UserDbModel) → lookup_id i rs ≡ some u → holds c u ≡ false)
    → (j : ℕ) → lookup_id j (modify (keyed i c) f rs) ≡ lookup_id j rs
lookup_id-modify_missed i c f k ne rs miss j = elim (Option-cases (lookup_id j rs)) [
  | inl h ↦ rw (lookup_id-modify (keyed i c) f k j rs, h)
  | inr (u, h) ↦ elim (Bool-cases (j == i)) [
    | inl e ↦
        let here : lookup_id i rs ≡ some u =
          subst (λ n. lookup_id n rs ≡ some u) ((==_iff j i).0 e) h in
        rw (lookup_id-modify (keyed i c) f k j rs, h) (ground (arith, miss u here))
    | inr e ↦ lookup_id-modify_ne i c f k ne j rs (λ same. ground arith)
  ]
]

-- An id that no row has is not that of a row.
pub Avoids-ne :
    (n j : ℕ) (rs : List UserDbModel) (u : UserDbModel)
    → Avoids n rs
    → lookup_id j rs ≡ some u
    → (n == j) ≡ false
unfolding lookup_id
Avoids-ne n j [] u a e = cc
Avoids-ne n j (r ∷ rs) u (h, a) e = ground (arith, Avoids-ne n j rs u a)
