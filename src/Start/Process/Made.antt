-- ===== src/Start/Process/Made.antt =====
-- What `main` has done by the time that it serves.
use casa_os_user_service.Common.{◌≡◌, refl, ap, ◌∙◌, sym, subst, Option, none, some, ◌++◌}
use casa_os_user_service.Common.Text.{Text, bytes}
use casa_os_user_service.Config.{CommonModel, AppModel}
use casa_os_user_service.Disk.{Result, ok, err, IsLawful}
use casa_os_user_service.Keys
use casa_os_user_service.Keys.{load_key, load_or_create_key_pair}
use casa_os_user_service.Services.{UserService, key_path, new_user_service, new_service}
use casa_os_user_service.Services.Kept.{new_user_service-key}
use casa_os_user_service.Start
use casa_os_user_service.Start.{Flags, Ready, listening, api_paths, announce}
use casa_os_user_service.Start.Announced.{IsAnnounced, announce-IsAnnounced}
use casa_os_user_service.Start.Process.{
  Machine, Files, serves, announced, listened, jwks_made, key_pair_got, services_made,
}

module _ (m : Machine) (law : IsLawful m.deps.fs) (codec_law : Keys.IsLawful m.codec) where
  abbrev pub target : Text → Text
  target address = bytes "http://" ++ address

  -- The gateway leads to the address, and the address file reads as it.
  pub record Announced (common : CommonModel) (address : Text) (g' : m.Gateway) (f' : Files m)
      : Type 0 where
    pub gateway : m.Gateway
    pub bound : m.listen ≡ ok address
    pub announced :
        IsAnnounced m.deps.fs law m.Gateway m.create_route
          (m.join common.runtime_path m.address_filename)
          (target address)
          gateway
          g'
          f'
          (api_paths m.Gateway m.create_route m.v2_api_path m.v2_doc_path m.jwks_path)

  announced-serves :
      (user u : UserService m.codec) (app a : AppModel) (db x : m.driver.Db)
      (jwks j address t : Text) (g' : m.Gateway) (f' : Files m) (r : Ready m.Gateway (Files m))
      → announced m user app db jwks address r ≡ serves u a x j t g' f'
      → (r ≡ listening g' f') × (user ≡ u) × (app ≡ a) × (db ≡ x) × (jwks ≡ j) × (address ≡ t)
  announced-serves user u app a db x jwks j address t g' f' (Start.panicked e g f) h = cc
  announced-serves user u app a db x jwks j address t g' f' (listening g f) h =
      (cc, cc, cc, cc, cc, cc)

  listened-serves :
      (common : CommonModel) (user u : UserService m.codec) (app a : AppModel) (db x : m.driver.Db)
      (g : m.Gateway) (f : Files m) (jwks j t : Text) (g' : m.Gateway) (f' : Files m)
      (r : Result Text)
      → m.listen ≡ r
      → listened m common user app db g f jwks r ≡ serves u a x j t g' f'
      → (user ≡ u) × (app ≡ a) × (db ≡ x) × (jwks ≡ j) × Announced common t g' f'
  listened-serves common user u app a db x g f jwks j t g' f' (err e) e1 h = cc
  listened-serves common user u app a db x g f jwks j t g' f' (ok address) e1 h =
      let (ran, same_user, same_app, same_db, same_jwks, same) =
        announced-serves user u app a db x jwks j address t g' f' _ h in
      let there =
        announce-IsAnnounced m.deps.fs law m.Gateway m.create_route m.join common.runtime_path
          m.address_filename address
          (api_paths m.Gateway m.create_route m.v2_api_path m.v2_doc_path m.jwks_path) g g' f f'
          ran in
      (
        same_user,
        same_app,
        same_db,
        same_jwks,
        subst (λ v. Announced common v g' f') same
            (record { gateway = g; bound = e1; announced = there }),
      )

  jwks_made-serves :
      (common : CommonModel) (user u : UserService m.codec) (app a : AppModel) (db x : m.driver.Db)
      (g : m.Gateway) (f : Files m) (j t : Text) (g' : m.Gateway) (f' : Files m) (r : Result Text)
      → jwks_made m common user app db g f r ≡ serves u a x j t g' f'
      → (user ≡ u) × (app ≡ a) × (db ≡ x) × (r ≡ ok j) × Announced common t g' f'
  jwks_made-serves common user u app a db x g f j t g' f' (err e) h = cc
  jwks_made-serves common user u app a db x g f j t g' f' (ok jwks) h =
      let (same_user, same_app, same_db, same_jwks, there) =
        listened-serves common user u app a db x g f jwks j t g' f' m.listen refl h in
      (same_user, same_app, same_db, ap ok same_jwks, there)

  key_pair_got-serves :
      (common : CommonModel) (u : UserService m.codec) (app a : AppModel) (db x : m.driver.Db)
      (g : m.Gateway) (o : Option (UserService m.codec)) (f : Files m) (j t : Text) (g' : m.Gateway)
      (f' : Files m)
      → key_pair_got m common app db g o f ≡ serves u a x j t g' f'
      → (o ≡ some u)
        × (app ≡ a)
        × (db ≡ x)
        × (m.generate_jwks_json (m.public_of u.key) ≡ ok j)
        × Announced common t g' f'
  key_pair_got-serves common u app a db x g none f j t g' f' h = cc
  key_pair_got-serves common u app a db x g (some user) f j t g' f' h =
      let (same_user, same_app, same_db, made, there) =
        jwks_made-serves common user u app a db x g f j t g' f' _ h in
      (
        ap some same_user,
        same_app,
        same_db,
        ap (λ (v : UserService m.codec). m.generate_jwks_json (m.public_of v.key)) (sym same_user)
            ∙ made,
        there,
      )

  -- The service has its keys; the file of the first of them holds it from then on, and its public
  -- half is published.
  pub record Keyed (app : AppModel) (f : Files m) (u : UserService m.codec) (j : Text)
      : Type 0 where
    pub files : Files m
    pub keyed :
        new_user_service m.codec m.deps.fs
          (key_path m.codec m.deps.fs m.join app)
          m.new_key
          m.new_pre_auth
          f
        ≡ (some u, files)
    pub kept :
        load_key m.codec m.deps.fs
          (m.deps.fs.read_file (key_path m.codec m.deps.fs m.join app) files)
        ≡ some u.key
    pub published : m.generate_jwks_json (m.public_of u.key) ≡ ok j

  pub services_made-serves :
      (common : CommonModel) (u : UserService m.codec) (app a : AppModel) (db x : m.driver.Db)
      (f : Files m) (r : Result m.Gateway) (j t : Text) (g' : m.Gateway) (f' : Files m)
      → services_made m common app db
          (new_service m.codec m.deps.fs m.join app m.new_key m.new_pre_auth r f)
          f
        ≡ serves u a x j t g' f'
      → (app ≡ a) × (db ≡ x) × Keyed app f u j × Announced common t g' f'
  unfolding new_service
  services_made-serves common u app a db x f (err e) j t g' f' h = cc
  services_made-serves common u app a db x f (ok g) j t g' f' h =
      let made =
        new_user_service m.codec m.deps.fs (key_path m.codec m.deps.fs m.join app) m.new_key
          m.new_pre_auth f in
      let (there, same_app, same_db, published, announced) =
        key_pair_got-serves common u app a db x g made.0 made.1 j t g' f' h in
      (
        same_app,
        same_db,
        record {
          files = made.1;
          keyed = ap (λ (o : Option (UserService m.codec)). (o, made.1)) there;
          kept =
              new_user_service-key m.codec codec_law m.deps.fs law
                (key_path m.codec m.deps.fs m.join app) m.new_key m.new_pre_auth f made.1 u
                (ap (λ (o : Option (UserService m.codec)). (o, made.1)) there);
          published = published;
        },
        announced,
      )
