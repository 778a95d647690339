-- ===== src/Server/Replies.antt =====
-- The shape of a reply: which bodies go with which codes, and which statuses.
pub mod Sessions
pub mod Factors
pub mod Accounts
pub mod Files
pub mod Sent
use casa_os_user_service.Common.{
  ℕ, ◌≡◌, refl, Bool, true, false, not, ◌||◌, [], ◌==◌, if◌then◌else◌,
}
use casa_os_user_service.Common.Text.{Text}
use casa_os_user_service.Route
use casa_os_user_service.Route.{
  Deps, World, Code, success, http, two_fa_required, Body, nothing, session, pre_auth, account,
  detail, Response, reply, reply_ok, internal_error, replied, exited, panicked,
}

abbrev pub is_success : Code → Bool
is_success success = true
is_success _ = false

-- The status of a success: the one of that name, or 200.
abbrev pub is_fine : Code → Bool
is_fine success = true
is_fine (http n) = n == 200
is_fine _ = false

-- The code that a body goes with. A user in a session has no password, and a user elsewhere none but
-- the one that the request itself sent.
abbrev pub Fitting : Text → Body → Code → Type 0
Fitting sent nothing code = Unit {0}
Fitting sent (detail t) code = Unit {0}
Fitting sent (pre_auth token expires) code = code ≡ two_fa_required
Fitting sent (session t u) code = (code ≡ success) × (u.password ≡ [])
Fitting sent (account u) code = (code ≡ success) × (u.password ≡ sent)
Fitting sent _ code = code ≡ success

-- A success has the status of one, and the body goes with the code.
pub record IsFit (sent : Text) (a : Response) : Type 0 where
  pub status : (not (is_success a.success) || is_fine a.status) ≡ true
  pub body : Fitting sent a.body a.success

module _ (d : Deps) (sent : Text) where
  pub record Fits (r : Response × World d) : Type 0 where
    pub fits : IsFit sent r.0

  pub if-Fits : (b : Bool) (x y : Response × World d) → Fits x → Fits y → Fits (if b then x else y)
  if-Fits true x y h k = h
  if-Fits false x y h k = k

  pub if-IsFit :
      (b : Bool) (x y : Response) → IsFit sent x → IsFit sent y → IsFit sent (if b then x else y)
  if-IsFit true x y h k = h
  if-IsFit false x y h k = k

  pub reply-IsFit :
      (status code : Code)
      → (not (is_success code) || is_fine status) ≡ true
      → IsFit sent (reply status code)
  reply-IsFit status code h = record { status = h; body = tt }

  pub reply-Fits :
      (status code : Code) (w : World d)
      → (not (is_success code) || is_fine status) ≡ true
      → Fits (reply status code, w)
  reply-Fits status code w h = record { fits = reply-IsFit status code h }

  pub reply_ok-IsFit : (body : Body) → Fitting sent body success → IsFit sent (reply_ok body)
  reply_ok-IsFit body h = record { status = refl; body = h }

  pub reply_raw-IsFit : (t : Text) → IsFit sent (Route.reply_raw d t)
  reply_raw-IsFit t =
      if-IsFit (d.web.marshals_raw t) _ _ (reply_ok-IsFit (Route.raw t) refl)
        (record { status = refl; body = tt })

  pub reply_file-IsFit : (path : Text) (w : World d) → IsFit sent (Route.reply_file d path w)
  reply_file-IsFit path w =
      if-IsFit (d.fs.sends path w.files) _ _ (reply_ok-IsFit (Route.file_at path) refl)
        (record { status = refl; body = tt })

  pub internal_error-IsFit : (e : Text) → IsFit sent (internal_error e)
  internal_error-IsFit e = record { status = refl; body = tt }

  -- What the process replied, if it did.
  abbrev pub ServedFit : Route.Served d → Type 0
  ServedFit (replied a w) = IsFit sent a
  ServedFit (exited w) = Unit {0}
  ServedFit (panicked w) = Unit {0}

  pub record Sends (s : Route.Served d) : Type 0 where
    pub sends : ServedFit s

  pub if-Sends : (b : Bool) (x y : Route.Served d) → Sends x → Sends y → Sends (if b then x else y)
  if-Sends true x y h k = h
  if-Sends false x y h k = k

  pub replies : (a : Response) (w : World d) → IsFit sent a → Sends (replied a w)
  replies a w h = record { sends = h }
