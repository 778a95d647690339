-- ===== src/Server/Outsiders.antt =====
-- What requests without a valid token can do, one after the other.
use casa_os_user_service.Common.{
  ℕ, ◌≡◌, refl, ap, ◌∙◌, true, not, ◌||◌, Option, some, List, [], ◌∷◌, ◌==◌, length, ltb, All,
  Bool-cases, inl, inr,
}
use casa_os_user_service.Common.Text.{Text, is_empty}
use casa_os_user_service.Common.Int.{ℤ}
use casa_os_user_service.Encryption.{hash_password}
use casa_os_user_service.Users.Database.{UserDbModel, IsLawful}
use casa_os_user_service.Users.Statements.{perform, creates}
use casa_os_user_service.Users.Enrolment.{Enrolled, taken_off, perform-Enrolled}
use casa_os_user_service.Users.{
  create_user, get_user_all_info_by_name, get_user_count, get_user_info_by_user_name,
}
use casa_os_user_service.Route.{Deps, World, Json, Response, Result, ok, err}
use casa_os_user_service.Route.FirstAdmin.{first_admin_local, new_admin}
use casa_os_user_service.Route.Login.{post_user_login, login_fields}
use casa_os_user_service.Route.Login.Guarded.{login_row-Enrolled}
use casa_os_user_service.Route.TwoFactor.{post_user_2fa_verify, verify_claims, parse_pre_auth_token}
use casa_os_user_service.Route.TwoFactor.Guarded.{verify_row-Enrolled}
use casa_os_user_service.Route.Register.{
  has_key, registered, register_fields, post_user_register, get_user_status,
}
use casa_os_user_service.Server.{
  Gate, Endpoint, register, login, verify_factor, refresh_tokens, all_names, status, image_of,
  current, avatar_of, delete_everyone, change_info, change_password, setup_factor, enable_factor,
  disable_factor, change_avatar, conf, delete_conf, delete_image, delete_one, by_username,
  store_conf, upload_image, change_image, change_style, is_open, Request, handle, serve, left,
  next_served, serve_all, served,
}
use casa_os_user_service.Server.Guarded.{
  IsExternal, HasToken, no_token, unauthorized, serve-unauthorized,
}
use casa_os_user_service.Server.Guarded

module _ (d : Deps) (law : IsLawful d.gorm) (i : ℕ) (secret : Text) (step : ℤ)
    (codes : List Text) where
  abbrev pub Safe : d.gorm.State → Type 0
  Safe = Enrolled taken_off d.gorm law i secret step codes

  registered-Safe :
      (key : Text) (w : World d) (r : UserDbModel × d.gorm.State)
      → Safe r.1
      → Safe (registered d key w r).1.db
  registered-Safe key w (user, s) v = elim (Bool-cases (user.id == 0)) [
    | inl gone ↦ rw gone v
    | inr made ↦ rw made v
  ]

  register_fields-Safe :
      (salt username pwd key : Text) (w : World d)
      → Safe w.db
      → Safe (register_fields d salt username pwd key w).1.db
  unfolding register_fields perform
  register_fields-Safe salt username pwd key w v =
      elim (Bool-cases (not (has_key key w.user_register_hash))) [
        | inl e ↦ rw e v
        | inr known ↦ elim (Bool-cases (is_empty username || is_empty pwd)) [
          | inl e ↦ rw (known, e) v
          | inr given ↦ elim (Bool-cases (ltb (length pwd) 6)) [
            | inl e ↦ rw (known, given, e) v
            | inr long ↦
                elim (Bool-cases (ltb 0 (get_user_info_by_user_name d.gorm username w.db).id)) [
                  | inl e ↦ rw (known, given, long, e) v
                  | inr free ↦
                      rw (known, given, long, free)
                        (registered-Safe key w
                          (create_user d.gorm (new_admin username (hash_password d.crypto salt pwd))
                            w.db)
                          (perform-Enrolled taken_off d.gorm law i secret step codes
                            (creates (new_admin username (hash_password d.crypto salt pwd))) w.db
                            refl v))
                ]
          ]
        ]
      ]

  post_user_register-Safe :
      (salt : Text) (json : Json) (w : World d)
      → Safe w.db
      → Safe (post_user_register d salt json w).1.db
  unfolding post_user_register
  post_user_register-Safe salt json w v = elim (Bool-cases (first_admin_local d)) [
    | inl e ↦ rw e v
    | inr e ↦ rw e (register_fields-Safe salt (json "username") (json "password") (json "key") w v)
  ]

  post_user_login-Safe :
      (now : ℕ) (salt : Text) (json : Json) (w : World d)
      → Safe w.db
      → Safe (post_user_login d now salt json w).1.db
  unfolding post_user_login login_fields
  post_user_login-Safe now salt json w v = elim (Bool-cases (d.rate.allow w.login_limiter now).0) [
    | inr spent ↦ rw spent v
    | inl allowed ↦ elim (Bool-cases (is_empty (json "username") || is_empty (json "password"))) [
      | inl lacking ↦ rw (allowed, lacking) v
      | inr given ↦
          rw (allowed, given)
            (login_row-Enrolled d law i secret step codes now salt (json "password")
              (get_user_all_info_by_name d.gorm (json "username") w.db) w.db v)
    ]
  ]

  verify_claims-Safe :
      (now : ℕ) (json : Json) (w : World d) (r : Result d.jwt.Claims)
      → Safe w.db
      → Safe (verify_claims d now json w r).1.db
  verify_claims-Safe now json w (err e) v = v
  verify_claims-Safe now json w (ok claims) v =
      (verify_row-Enrolled d law i secret step codes now json _ w v).kept

  get_user_status-Safe :
      (key : Text) (gpus : ℕ) (w : World d) → Safe w.db → Safe (get_user_status d key gpus w).1.db
  unfolding get_user_status
  get_user_status-Safe key gpus w v = elim (Bool-cases (ltb 0 (get_user_count d.gorm w.db))) [
    | inl e ↦ rw e v
    | inr none_yet ↦ elim (Bool-cases (first_admin_local d)) [
      | inl e ↦ rw (none_yet, e) v
      | inr e ↦ rw (none_yet, e) v
    ]
  ]

  -- The service goes on, and the enrolment is in force.
  abbrev pub GoesOn : Option (World d) → Type 0
  GoesOn o = (w : World d) × (o ≡ some w) × Safe w.db

  served-GoesOn :
      (gate : Gate d) (r : Response × World d)
      → Safe r.1.db
      → GoesOn (left d gate (served d gate r))
  served-GoesOn gate (answer, w) v = (w, refl, v)

  module _ (gate : Gate d) (gate_law : Guarded.IsLawful d gate) where
    handle-GoesOn :
        (r : Request) (e : Endpoint) (id : Text) (w : World d)
        → is_open e ≡ true
        → Safe w.db
        → GoesOn (left d gate (handle d gate r e id w))
    unfolding handle is_open post_user_2fa_verify
    handle-GoesOn r (register json) id w h v =
        served-GoesOn gate (post_user_register d r.salt json w)
          (post_user_register-Safe r.salt json w v)
    handle-GoesOn r (login json) id w h v =
        served-GoesOn gate (post_user_login d r.now r.salt json w)
          (post_user_login-Safe r.now r.salt json w v)
    handle-GoesOn r (verify_factor json) id w h v =
        served-GoesOn gate (post_user_2fa_verify d r.now json w)
          (verify_claims-Safe r.now json w (parse_pre_auth_token d r.now (json "pre_auth_token")) v)
    handle-GoesOn r (refresh_tokens json) id w h v = (w, refl, v)
    handle-GoesOn r all_names id w h v = (w, refl, v)
    handle-GoesOn r status id w h v =
        served-GoesOn gate (get_user_status d r.uuid r.gpus w)
          (get_user_status-Safe r.uuid r.gpus w v)
    handle-GoesOn r (image_of path) id w h v = (w, refl, v)
    handle-GoesOn r current id w h v = cc
    handle-GoesOn r avatar_of id w h v = cc
    handle-GoesOn r delete_everyone id w h v = cc
    handle-GoesOn r (change_info json) id w h v = cc
    handle-GoesOn r (change_password json) id w h v = cc
    handle-GoesOn r (setup_factor json) id w h v = cc
    handle-GoesOn r (enable_factor json) id w h v = cc
    handle-GoesOn r (disable_factor json) id w h v = cc
    handle-GoesOn r (change_avatar json) id w h v = cc
    handle-GoesOn r (conf name) id w h v = cc
    handle-GoesOn r (delete_conf name) id w h v = cc
    handle-GoesOn r (delete_image path) id w h v = cc
    handle-GoesOn r (delete_one which) id w h v = cc
    handle-GoesOn r (by_username name) id w h v = cc
    handle-GoesOn r (store_conf name t) id w h v = cc
    handle-GoesOn r (upload_image key kind form) id w h v = cc
    handle-GoesOn r (change_image key json) id w h v = cc
    handle-GoesOn r (change_style style) id w h v = cc

    abbrev pub IsOutsider : Request → Type 0
    IsOutsider r =
        Guarded.IsExternal d gate gate_law r
        × ((claims : d.jwt.Claims) → Guarded.HasToken d gate gate_law r claims → ⊥)

    serve-GoesOn :
        (r : Request) (w : World d)
        → IsOutsider r
        → Safe w.db
        → GoesOn (left d gate (serve d gate r w))
    unfolding serve
    serve-GoesOn r w (out, no_claims) v = elim (Bool-cases (is_open r.endpoint)) [
      | inl free ↦ rw free (handle-GoesOn r r.endpoint r.user_id w free v)
      | inr closed ↦
          let (why, h) =
            serve-unauthorized d gate gate_law r w closed out
              (no_token d gate gate_law r no_claims) in
          (w, ap (left d gate) h, v)
    ]

    -- Over any sequence of requests from outside without a valid token, the service goes on and
    -- every enrolment that is in force stays in force, its last step does not go back and no
    -- recovery code is put back or replaced by another.
    pub serve_all-Enrolled :
        (rs : List Request) (w : World d)
        → All IsOutsider rs
        → Safe w.db
        → (w' : World d) × (serve_all d gate rs w ≡ some w') × Safe w'.db
    unfolding serve_all
    serve_all-Enrolled [] w h v = (w, refl, v)
    serve_all-Enrolled (r ∷ rs) w (h, hs) v =
        let (w1, e, v1) = serve-GoesOn r w h v in
        let (w2, e2, v2) = serve_all-Enrolled rs w1 hs v1 in
        (w2, ap (λ o. next_served d gate o (serve_all d gate rs)) e ∙ e2, v2)
