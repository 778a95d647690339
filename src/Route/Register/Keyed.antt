-- ===== src/Route/Register/Keyed.antt =====
-- Registration over the network: one key, one account.
use casa_os_user_service.Common.{
  ◌≤◌, ◌≡◌, ◌≢◌, refl, true, false, ◌||◌, List, [], ◌∷◌, length, ltb, ◌==◌, arith, Bool-cases, inl,
  inr,
}
use casa_os_user_service.Common.Text.{Text, is_empty}
use casa_os_user_service.Encryption.{hash_password}
use casa_os_user_service.Users.Database.{UserDbModel, IsLawful}
use casa_os_user_service.Users.{create_user, get_user_info_by_user_name}
use casa_os_user_service.Route.{Deps, World, Json, reply, success, client_error, key_not_exist}
use casa_os_user_service.Route.FirstAdmin.{first_admin_local, new_admin}
use casa_os_user_service.Route.FirstAdmin.Created.{IsNewAdmin, create-IsNewAdmin}
use casa_os_user_service.Route.Register.{
  has_key, drop_key, registered, register_fields, post_user_register,
}

has_key-drop_key : (key : Text) (ks : List Text) → has_key key (drop_key key ks) ≡ false
has_key-drop_key key [] = refl
has_key-drop_key key (k ∷ ks) = ground (arith, has_key-drop_key key ks)

module _ (d : Deps) where
  -- What a registration that succeeds had to be given, and what it leaves.
  pub record Registered (salt : Text) (json : Json) (w w' : World d) : Type 0 where
    pub on_the_web : first_admin_local d ≡ false
    pub keyed : has_key (json "key") w.user_register_hash ≡ true
    pub long_enough : 6 ≤ length (json "password")
    pub unknown : (get_user_info_by_user_name d.gorm (json "username") w.db).id ≡ 0
    pub key_dropped : has_key (json "key") w'.user_register_hash ≡ false
    pub made : IsNewAdmin d salt (json "username") (json "password") w.db w'.db

  module _ (law : IsLawful d.gorm) where
    registered-success :
        (key : Text) (w : World d) (r : UserDbModel × d.gorm.State)
        → (registered d key w r).0.success ≡ success
        → (r.0.id ≢ 0)
          × ((registered d key w r).1.db ≡ r.1)
          × (has_key key (registered d key w r).1.user_register_hash ≡ false)
    registered-success key w (user, s) h = elim (Bool-cases (user.id == 0)) [
      | inl failed ↦ cc (rw failed at h)
      | inr made ↦
          ((λ z. ground arith), rw made refl, rw made (has_key-drop_key key w.user_register_hash))
    ]

    register_fields-Registered :
        (salt : Text) (json : Json) (w : World d)
        → first_admin_local d ≡ false
        → (register_fields d salt (json "username") (json "password") (json "key") w).0.success
          ≡ success
        → Registered salt json w
            (register_fields d salt (json "username") (json "password") (json "key") w).1
    unfolding register_fields create_user
    register_fields-Registered salt json w web h =
        elim (Bool-cases (has_key (json "key") w.user_register_hash)) [
          | inr unkeyed ↦ cc (rw unkeyed at h)
          | inl keyed ↦
              elim (Bool-cases (is_empty (json "username") || is_empty (json "password"))) [
                | inl lacking ↦ cc (rw (keyed, lacking) at h)
                | inr given ↦ elim (Bool-cases (ltb (length (json "password")) 6)) [
                  | inl short ↦ cc (rw (keyed, given, short) at h)
                  | inr long ↦
                      elim (Bool-cases
                        (ltb 0 (get_user_info_by_user_name d.gorm (json "username") w.db).id)) [
                          | inl taken ↦ cc (rw (keyed, given, long, taken) at h)
                          | inr free ↦
                              let (made, db, dropped) =
                                registered-success (json "key") w
                                  (create_user d.gorm
                                    (new_admin (json "username")
                                      (hash_password d.crypto salt (json "password")))
                                    w.db)
                                  (rw (keyed, given, long, free) at h) in
                              rw (keyed, given, long, free)
                                (record {
                                  on_the_web = web;
                                  keyed = keyed;
                                  long_enough = ground arith;
                                  unknown = ground arith;
                                  key_dropped = dropped;
                                  made = rw db (
                                      create-IsNewAdmin d law salt (json "username")
                                        (json "password") w.db made);
                                })
                        ]
                ]
              ]
        ]

    pub post_user_register-Registered :
        (salt : Text) (json : Json) (w : World d)
        → (post_user_register d salt json w).0.success ≡ success
        → Registered salt json w (post_user_register d salt json w).1
    unfolding post_user_register
    post_user_register-Registered salt json w h = elim (Bool-cases (first_admin_local d)) [
      | inl at_machine ↦ cc (rw at_machine at h)
      | inr web ↦ rw web (register_fields-Registered salt json w web (rw web at h))
    ]

    -- A key that a registration succeeded with is refused at the next, and nothing changes then.
    pub post_user_register-once :
        (salt salt' : Text) (json json' : Json) (w : World d)
        → (post_user_register d salt json w).0.success ≡ success
        → json' "key" ≡ json "key"
        → post_user_register d salt' json' (post_user_register d salt json w).1
          ≡ (reply client_error key_not_exist, (post_user_register d salt json w).1)
    unfolding post_user_register register_fields
    post_user_register-once salt salt' json json' w h same =
        let r = post_user_register-Registered salt json w h in
        unkeyed (post_user_register d salt json w).1 r.on_the_web (rw same r.key_dropped)
      where
        unkeyed :
            (v : World d)
            → first_admin_local d ≡ false
            → has_key (json' "key") v.user_register_hash ≡ false
            → post_user_register d salt' json' v ≡ (reply client_error key_not_exist, v)
        unkeyed v web none_left = rw (web, none_left)
