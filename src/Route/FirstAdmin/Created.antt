-- ===== src/Route/FirstAdmin/Created.antt =====
-- What the creation of an administrator leaves in the table.
use casa_os_user_service.Common.{
  ℕ, ◌≤◌, ◌≡◌, ◌≢◌, refl, ap, ◌∙◌, false, ◌||◌, some, length, ltb, ◌==◌, if◌then◌else◌, arith,
  Bool-cases, inl, inr,
}
use casa_os_user_service.Common.Text.{Text, is_empty}
use casa_os_user_service.Encryption.{hash_password}
use casa_os_user_service.Users.Database.{UserDbModel, IsLawful}
use casa_os_user_service.Users.Table.{lookup_id, lookup_id-append}
use casa_os_user_service.Users.Cas.{account}
use casa_os_user_service.Users.{create_user, get_user_count}
use casa_os_user_service.Route.{Deps, World}
use casa_os_user_service.Route.FirstAdmin.{created, new_admin, admin_made, create_first_admin}

module _ (d : Deps) where
  -- There is one account more than before, an administrator with the hash of this password and no
  -- second factor.
  pub record IsNewAdmin (salt username password : Text) (s s' : d.gorm.State) : Type 0 where
    pub id : ℕ
    pub known : id ≢ 0
    pub seen :
        (j : ℕ)
        → account d.gorm j s' ≡ (
            if id == j
            then some
                (record (new_admin username (hash_password d.crypto salt password)) { id = id })
            else account d.gorm j s)

  module _ (law : IsLawful d.gorm) where
    create-account :
        (m : UserDbModel) (s : d.gorm.State)
        → m.id ≡ 0
        → (d.gorm.create m s).0.id ≢ 0
        → ((d.gorm.create m s).0 ≡ record m { id = (d.gorm.create m s).0.id })
          × ((j : ℕ)
              → account d.gorm j (d.gorm.create m s).1 ≡ (
                  if (d.gorm.create m s).0.id == j
                  then some (d.gorm.create m s).0
                  else account d.gorm j s))
    create-account m s fresh made = elim (law.create-rows m s fresh) [
      | inl (same, e) ↦ absurd (made (ap (λ (u : UserDbModel). u.id) e ∙ fresh))
      | inr (added, row, known, avoids) ↦
          (row, (λ j. ap (lookup_id j) added ∙ lookup_id-append j (d.gorm.rows s) _ avoids))
    ]

    -- A row that was created with a new id.
    pub create-IsNewAdmin :
        (salt username password : Text) (s : d.gorm.State)
        → let r =
            create_user d.gorm (new_admin username (hash_password d.crypto salt password)) s in
          r.0.id ≢ 0 → IsNewAdmin salt username password s r.1
    unfolding create_user
    create-IsNewAdmin salt username password s made =
        let m = new_admin username (hash_password d.crypto salt password) in
        let (row, seen) = create-account m s refl made in
        record {
          id = (d.gorm.create m s).0.id;
          known = made;
          seen = λ j.
              seen j
              ∙ ap (λ u. if (d.gorm.create m s).0.id == j then some u else account d.gorm j s) row;
        }

    admin_made-IsNewAdmin :
        (salt username password : Text) (w : World d) (r : UserDbModel × d.gorm.State)
        → (r.0.id ≢ 0 → IsNewAdmin salt username password w.db r.1)
        → (admin_made d w r).0 ≡ created tt
        → IsNewAdmin salt username password w.db (admin_made d w r).1.db
    admin_made-IsNewAdmin salt username password w (user, s) make h =
        elim (Bool-cases (user.id == 0)) [
          | inl failed ↦ cc (rw failed at h)
          | inr known ↦ rw known (make (λ z. ground arith))
        ]

    -- The creation of the first administrator succeeds only if no account was counted, with a name
    -- and a password of six bytes or more; then there is a new administrator with the hash of that
    -- password and the other rows are as they were.
    pub create_first_admin-IsNewAdmin :
        (salt username password : Text) (w : World d)
        → (create_first_admin d salt username password w).0 ≡ created tt
        → (get_user_count d.gorm w.db ≡ 0)
          × (is_empty username ≡ false)
          × (6 ≤ length password)
          × IsNewAdmin salt username password w.db
              (create_first_admin d salt username password w).1.db
    unfolding create_first_admin
    create_first_admin-IsNewAdmin salt username password w h =
        elim (Bool-cases (ltb 0 (get_user_count d.gorm w.db))) [
          | inl counted ↦ cc (rw counted at h)
          | inr none_yet ↦ elim (Bool-cases (is_empty username || is_empty password)) [
            | inl lacking ↦ cc (rw (none_yet, lacking) at h)
            | inr given ↦ elim (Bool-cases (ltb (length password) 6)) [
              | inl short ↦ cc (rw (none_yet, given, short) at h)
              | inr long ↦ (
                ground arith,
                ground arith,
                ground arith,
                rw (none_yet, given, long)
                    (admin_made-IsNewAdmin salt username password w
                      (create_user d.gorm
                        (new_admin username (hash_password d.crypto salt password)) w.db)
                      (create-IsNewAdmin salt username password w.db)
                      (rw (none_yet, given, long) at h)),
              )
            ]
          ]
        ]
