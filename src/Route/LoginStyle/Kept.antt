-- ===== src/Route/LoginStyle/Kept.antt =====
-- The login style that was accepted is the one that is shown afterwards.
use casa_os_user_service.Common.{
  ◌≡◌, ◌≢◌, refl, ◌⊎◌, false, not, ◌&&◌, [], ◌∷◌, ◌++◌, arith, Bool-cases, inl, inr,
}
use casa_os_user_service.Common.Text.{Text, bytes, text_eq, text_eq_iff}
use casa_os_user_service.Disk.{IsLawful}
use casa_os_user_service.Totp.{trim_space}
use casa_os_user_service.Route.{
  Deps, World, Result, ok, err, Removal, removed, missing, unremoved, http,
}
use casa_os_user_service.Route.LoginStyle.{
  login_style, login_style_classic, login_style_beta, login_style_path, removal_error, after_rename,
  after_write, set_login_style, style_reply, put_login_style,
}

module _ (d : Deps) (law : IsLawful d.fs) where
  removal_error-ok : (r : Removal) → removal_error d r ≡ ok tt → (e : Text) → r ≢ unremoved e
  removal_error-ok removed h e = λ q. cc
  removal_error-ok missing h e = λ q. cc
  removal_error-ok (unremoved x) h e = λ q. cc

  after_rename-ok :
      (tmp : Text) (r : Result (Unit {0}) × d.fs.Files)
      → (after_rename d tmp r).0 ≡ ok tt
      → (r.0 ≡ ok tt) × ((after_rename d tmp r).1 ≡ r.1)
  after_rename-ok tmp (ok _, f) h = (refl, refl)
  after_rename-ok tmp (err e, f) h = cc

  after_write-read :
      (tmp t : Text) (r : Result (Unit {0}) × d.fs.Files)
      → (r.0 ≡ ok tt → d.fs.read_file tmp r.1 ≡ ok t)
      → (after_write d tmp r).0 ≡ ok tt
      → d.fs.read_file (login_style_path d) (after_write d tmp r).1 ≡ ok t
  after_write-read tmp t (err e, f) written h = cc
  after_write-read tmp t (ok _, f) written h =
      let (renamed, same) = after_rename-ok tmp (d.fs.rename tmp (login_style_path d) f) h in
      rw same (law.rename-read tmp (login_style_path d) t f (written refl) renamed)

  beta-read :
      (f : d.fs.Files)
      → d.fs.read_file (login_style_path d) f ≡ ok (login_style_beta ++ 10 ∷ [])
      → login_style d f ≡ login_style_beta
  unfolding login_style trim_space text_eq
  beta-read f h = rw h refl

  set_login_style-classic :
      (f : d.fs.Files)
      → (set_login_style d login_style_classic f).0 ≡ ok tt
      → login_style d (set_login_style d login_style_classic f).1 ≡ login_style_classic
  unfolding login_style set_login_style text_eq
  set_login_style-classic f h =
      let (e, gone) = law.remove-read (login_style_path d) f (removal_error-ok _ h) in rw gone refl

  set_login_style-beta :
      (f : d.fs.Files)
      → (set_login_style d login_style_beta f).0 ≡ ok tt
      → login_style d (set_login_style d login_style_beta f).1 ≡ login_style_beta
  unfolding set_login_style text_eq
  set_login_style-beta f h =
      let tmp = login_style_path d ++ bytes ".new" in
      let t = login_style_beta ++ 10 ∷ [] in
      beta-read _ (after_write-read tmp t (d.fs.write_file tmp t f) (law.write-read tmp t f) h)

  style_reply-ok :
      (style : Text) (r : Result (Unit {0})) → (style_reply d style r).status ≡ http 200 → r ≡ ok tt
  style_reply-ok style (ok _) h = refl
  style_reply-ok style (err e) h = ground arith

  known_style :
      (style : Text)
      → (not (text_eq style login_style_classic) && not (text_eq style login_style_beta)) ≡ false
      → (style ≡ login_style_classic) ⊎ (style ≡ login_style_beta)
  known_style style h = elim (Bool-cases (text_eq style login_style_classic)) [
    | inl e ↦ inl ((text_eq_iff style login_style_classic).0 e)
    | inr e ↦ inr ((text_eq_iff style login_style_beta).0 (ground arith))
  ]

  set_login_style-known :
      (style : Text) (f : d.fs.Files)
      → (style ≡ login_style_classic) ⊎ (style ≡ login_style_beta)
      → (set_login_style d style f).0 ≡ ok tt
      → login_style d (set_login_style d style f).1 ≡ style
  set_login_style-known style f (inl e) h = rw e (set_login_style-classic f (rw e at h))
  set_login_style-known style f (inr e) h = rw e (set_login_style-beta f (rw e at h))

  -- A style that is answered with status 200 is one of the two, it is the style that is read from
  -- then on, and nothing but the files has changed.
  pub put_login_style-kept :
      (style : Text) (w : World d)
      → (put_login_style d (ok style) w).0.status ≡ http 200
      → ((style ≡ login_style_classic) ⊎ (style ≡ login_style_beta))
        × (login_style d (put_login_style d (ok style) w).1.files ≡ style)
        × ((put_login_style d (ok style) w).1
            ≡ record w { files = (put_login_style d (ok style) w).1.files })
  unfolding put_login_style
  put_login_style-kept style w h =
      elim (Bool-cases
        (not (text_eq style login_style_classic) && not (text_eq style login_style_beta))) [
          | inl unknown ↦ ground (arith, rw unknown at h)
          | inr known ↦
              let which = known_style style known in
              (
                which,
                rw known (
                    set_login_style-known style w.files which
                      (style_reply-ok style _ (rw known at h))),
                rw known refl,
              )
        ]
