-- ===== src/Route/Account/Profile.antt =====
-- What the profile handlers change: never a password or a second factor.
use casa_os_user_service.Common.{
  ℕ, ◌≡◌, ◌≢◌, refl, ap, ◌∙◌, ◌⊎◌, Bool, true, false, Option, none, some, [], ◌==◌, if◌then◌else◌,
  arith, Bool-cases, inl, inr,
}
use casa_os_user_service.Common.Text.{Text}
use casa_os_user_service.Users.Database.{UserDbModel, Condition, IsLawful}
use casa_os_user_service.Users.Table.{alter}
use casa_os_user_service.Users.Cas.{account, update-account, update-account_key}
use casa_os_user_service.Users.{overlay, update_user, get_user_info_by_id}
use casa_os_user_service.Route.{Deps, World, Json, Response}
use casa_os_user_service.Route.Account.{
  UserJson, bind_user, fill_in, put_user_info, put_user_nick, put_user_desc,
}

-- The row without the columns of the profile: what is left is the id, the password and the second
-- factor.
abbrev pub without_profile : UserDbModel → UserDbModel
without_profile r = record r {
  username = [];
  role = [];
  email = [];
  nickname = [];
  avatar = [];
  description = [];
}

abbrev pub hidden : Option UserDbModel → Option UserDbModel
hidden = alter (λ _. true) without_profile

hidden-alter :
    (p : Condition) (m : UserDbModel) (o : Option UserDbModel)
    → hidden (alter p (overlay m) o) ≡ hidden o
unfolding overlay
hidden-alter p m none = refl
hidden-alter p m (some r) = ground arith

module _ (d : Deps) (law : IsLawful d.gorm) where
  abbrev pub SameHidden : d.gorm.State → d.gorm.State → Type 0
  SameHidden s s' = (j : ℕ) → hidden (account d.gorm j s') ≡ hidden (account d.gorm j s)

  update_user-SameHidden :
      (m : UserDbModel) (s : d.gorm.State) → SameHidden s (update_user d.gorm m s)
  unfolding update_user overlay
  update_user-SameHidden m s j =
      elim (update-account d.gorm law m.id none (overlay m) s (λ r. refl) j) [
        | inl e ↦ ap hidden e
        | inr (_, e) ↦ ap hidden e ∙ hidden-alter _ m (account d.gorm j s)
      ]

  -- The reply, and the world as it was or with one `UpdateUser`.
  pub data Updates (w : World d) (m : UserDbModel) (allowed : Type 0)
      : Response × World d → Type 0 where
    unchanged : (answer : Response) → Updates w m allowed (answer, w)
    updates :
        (answer : Response)
        → allowed
        → Updates w m allowed (answer, record w { db = update_user d.gorm m w.db })

  if-Updates :
      {w : World d} {m : UserDbModel} {P : Type 0} (b : Bool) (x y : Response × World d)
      → (b ≡ true → Updates w m P x)
      → (b ≡ false → Updates w m P y)
      → Updates w m P (if b then x else y)
  if-Updates true x y hx hy = hx refl
  if-Updates false x y hx hy = hy refl

  -- The row of the session, filled in.
  abbrev pub put_info : Text → UserJson → World d → UserDbModel
  put_info id body w = fill_in (get_user_info_by_id d.gorm id w.db) (bind_user body)

  put_user_info-Updates :
      (id : Text) (body : UserJson) (w : World d)
      → Updates w
          (put_info id body w)
          ((get_user_info_by_id d.gorm id w.db).id ≢ 0)
          (put_user_info d id body w)
  unfolding put_user_info
  put_user_info-Updates id body w =
      elim (Bool-cases ((get_user_info_by_id d.gorm id w.db).id == 0)) [
        | inl gone ↦ rw gone (unchanged _)
        | inr here ↦
            let found : (get_user_info_by_id d.gorm id w.db).id ≢ 0 = λ z. ground arith in
            rw here (search (if-Updates, unchanged, updates))
      ]

  put_user_nick-Updates :
      (id : Text) (json : Json) (w : World d)
      → Updates w
          (record (get_user_info_by_id d.gorm id w.db) { nickname = json "nick_name" })
          (Unit {0})
          (put_user_nick d id json w)
  unfolding put_user_nick
  put_user_nick-Updates id json w = search (if-Updates, unchanged, updates)

  put_user_desc-Updates :
      (id : Text) (json : Json) (w : World d)
      → Updates w
          (record (get_user_info_by_id d.gorm id w.db) { description = json "description" })
          (Unit {0})
          (put_user_desc d id json w)
  unfolding put_user_desc
  put_user_desc-Updates id json w = search (if-Updates, unchanged, updates)

  Updates-SameHidden :
      {w : World d} {m : UserDbModel} {P : Type 0} {r : Response × World d}
      → Updates w m P r
      → SameHidden w.db r.1.db
  Updates-SameHidden (unchanged answer) = λ j. refl
  Updates-SameHidden {w} {m} (updates answer p) = update_user-SameHidden m w.db

  -- No profile handler, whoever calls it with whatever body, changes the password or the second
  -- factor of any row.
  pub profile-SameHidden :
      (id : Text) (body : UserJson) (json : Json) (w : World d)
      → SameHidden w.db (put_user_info d id body w).1.db
        × SameHidden w.db (put_user_nick d id json w).1.db
        × SameHidden w.db (put_user_desc d id json w).1.db
  profile-SameHidden id body json w = (
    Updates-SameHidden (put_user_info-Updates id body w),
    Updates-SameHidden (put_user_nick-Updates id json w),
    Updates-SameHidden (put_user_desc-Updates id json w),
  )

  Updates-written :
      {w : World d} {m : UserDbModel} {P : Type 0} {r : Response × World d}
      → m.id ≢ 0
      → (j : ℕ) → Updates w m P r
      → (account d.gorm j r.1.db ≡ account d.gorm j w.db)
        ⊎ (P
            × (m.id ≡ j)
            × (account d.gorm j r.1.db ≡ alter (λ _. true) (overlay m) (account d.gorm j w.db)))
  unfolding update_user overlay
  Updates-written ne j (unchanged answer) = inl refl
  Updates-written {w} {m} ne j (updates answer p) =
      elim (update-account_key d.gorm law m.id (overlay m) w.db (λ r. refl) ne j) [
        | inl e ↦ inl e
        | inr (at_key, e) ↦ inr (p, at_key, e)
      ]

  -- `PutUserInfo` with an id in its body changes no row but the row of that id, whichever account
  -- the session is of, and only if the row of the session's account was found.
  pub put_user_info-of_body :
      (id : Text) (body : UserJson) (w : World d)
      → body.id ≢ 0
      → (j : ℕ)
      → (account d.gorm j (put_user_info d id body w).1.db ≡ account d.gorm j w.db)
        ⊎ (((get_user_info_by_id d.gorm id w.db).id ≢ 0)
            × (body.id ≡ j)
            × (account d.gorm j (put_user_info d id body w).1.db
                ≡ alter (λ _. true) (overlay (put_info id body w)) (account d.gorm j w.db)))
  unfolding bind_user fill_in
  put_user_info-of_body id body w ne j = Updates-written ne j (put_user_info-Updates id body w)
