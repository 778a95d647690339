-- ===== src/Start/Process/Restarted.antt =====
-- A restart keeps every session.
use casa_os_user_service.Common.{ℕ, ◌≤◌, ◌<◌, ◌≡◌, ◌⊎◌, ap, ◌∙◌, sym, Option, some}
use casa_os_user_service.Common.Text.{Text}
use casa_os_user_service.Common.Decimal.{itoa}
use casa_os_user_service.Config.{AppModel}
use casa_os_user_service.Disk
use casa_os_user_service.Keys
use casa_os_user_service.Keys.{load_key}
use casa_os_user_service.Users.Database.{UserDbModel}
use casa_os_user_service.Route.{World, Json, Response, Result, VerifyInformation, session, replied}
use casa_os_user_service.Route.Budget.{Session}
use casa_os_user_service.Server.{Gate, Request, login, verify_factor, handle, serve}
use casa_os_user_service.Server.Guarded
use casa_os_user_service.Server.Tokens.{IsKeyed, Bears, sign_in-Session, Session-serve}
use casa_os_user_service.Services
use casa_os_user_service.Services.{UserService, key_path, new_user_service}
use casa_os_user_service.Services.Kept.{new_user_service-key, new_user_service-loaded}
use casa_os_user_service.Start.Process.{Machine, Files, served_by}

module _ (m : Machine) (law : Disk.IsLawful m.deps.fs) (codec_law : Keys.IsLawful m.codec) where
  -- The service that a start with this configuration makes of the files, with the keys that it
  -- would draw.
  abbrev pub made :
      AppModel
      → Option m.codec.Key
      → Option m.codec.Key
      → Files m
      → Option (UserService m.codec) × Files m
  made app new_key pre_auth f =
      new_user_service m.codec m.deps.fs (key_path m.codec m.deps.fs m.join app) new_key pre_auth f

  -- What is at the path of the key.
  abbrev pub key_file : AppModel → Files m → Result Text
  key_file app f = m.deps.fs.read_file (key_path m.codec m.deps.fs m.join app) f

  made-key :
      (app : AppModel) (k k' p p' : Option m.codec.Key) (f f1 g g1 : Files m)
      (u u' : UserService m.codec)
      → made app k p f ≡ (some u, f1)
      → key_file app g ≡ key_file app f1
      → made app k' p' g ≡ (some u', g1)
      → u.key ≡ u'.key
  made-key app k k' p p' f f1 g g1 u u' first untouched second =
      new_user_service-loaded m.codec codec_law m.deps.fs law
        (key_path m.codec m.deps.fs m.join app) k' p' g g1 u.key u'
        (ap (load_key m.codec m.deps.fs) untouched
          ∙ new_user_service-key m.codec codec_law m.deps.fs law
              (key_path m.codec m.deps.fs m.join app) k p f f1 u first)
        second

  Session-restart :
      (app app' : AppModel) (u u' : UserService m.codec) (now : ℕ) (owner user : UserDbModel)
      (t : VerifyInformation)
      → u.key ≡ u'.key
      → Session (served_by m u app) now owner t user
      → Session (served_by m u' app') now owner t user
  Session-restart app app' u u' now owner user t same s = record {
    expiry = s.expiry;
    bare = s.bare;
    access =
        ap
          (λ (k : m.codec.Key).
            m.deps.jwt.get_access_token owner.username (m.private_of k) owner.id now)
          (sym same)
        ∙ s.access;
    refresh =
        ap
          (λ (k : m.codec.Key).
            m.deps.jwt.get_refresh_token owner.username (m.private_of k) owner.id now)
          (sym same)
        ∙ s.refresh;
  }

  -- A session outlives a restart: once a service was started on some files and has answered a login
  -- or its second step by a session, a service that is started later, with any new keys and other
  -- settings, on files whose signing key was left alone in between, handles a later request from
  -- outside that bears the access token, for a route behind the gate, under the id of the user of
  -- that session, before the session expires.
  pub sign_in-restarted :
      (app app' : AppModel) (k k' p p' : Option m.codec.Key) (f f1 h h1 : Files m)
      (u u' : UserService m.codec)
      → app'.db_path ≡ app.db_path
      → made app k p f ≡ (some u, f1)
      → key_file app h ≡ key_file app f1
      → made app' k' p' h ≡ (some u', h1)
      → (gate : Gate (served_by m u app)) (gate' : Gate (served_by m u' app'))
      → (gate_law : Guarded.IsLawful (served_by m u app) gate)
      → (gate_law' : Guarded.IsLawful (served_by m u' app') gate')
      → (keyed : IsKeyed (served_by m u app) gate) (keyed' : IsKeyed (served_by m u' app') gate')
      → (r : Request) (json : Json) (w w1 : World (served_by m u app)) (answer : Response)
      → (t : VerifyInformation) (user : UserDbModel)
      → (r.endpoint ≡ login json) ⊎ (r.endpoint ≡ verify_factor json)
      → serve (served_by m u app) gate r w ≡ replied answer w1
      → answer.body ≡ session t user
      → (later : Request) (w' : World (served_by m u' app'))
      → Bears (served_by m u' app') gate' gate_law' keyed' later t.access_token
      → r.now ≤ later.now
      → later.now < t.expires_at
      → serve (served_by m u' app') gate' later w'
        ≡ handle (served_by m u' app') gate' later later.endpoint (itoa user.id) w'
  sign_in-restarted app app' k k' p p' f f1 h h1 u u' same first untouched second gate gate'
        gate_law gate_law' keyed keyed' r json w w1 answer t user e s b later w' bears issue alive =
      let (owner, made_for) =
        sign_in-Session (served_by m u app) gate gate_law keyed r json w w1 answer t user e s b in
      let second' =
        ap
          (λ (path : Text).
            new_user_service m.codec m.deps.fs (m.join path Services.key_filename) k' p' h)
          (sym same)
        ∙ second in
      Session-serve (served_by m u' app') gate' gate_law' keyed' r.now owner user t later w'
        (Session-restart app app' u u' r.now owner user t
          (made-key app k k' p p' f f1 h h1 u u' first untouched second') made_for)
        bears issue alive
