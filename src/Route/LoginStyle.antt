-- ===== src/Route/LoginStyle.antt =====
-- route/v1/login_style.go: which login page the box shows, kept in a file of its own.
pub mod Kept
use casa_os_user_service.Common.{
  Bool, true, false, not, ◌&&◌, ◌||◌, List, [], ◌∷◌, ◌++◌, if◌then◌else◌,
}
use casa_os_user_service.Common.Text.{Text, bytes, text_eq}
use casa_os_user_service.Totp.{trim_space}
use casa_os_user_service.Route.{
  Deps, World, Json, Response, Result, ok, err, Removal, removed, missing, unremoved, Code, http,
  invalid_params, success, detail, text, of_code, nothing, internal_error,
}

abbrev pub login_style_classic : Text
login_style_classic = bytes "classic"

abbrev pub login_style_beta : Text
login_style_beta = bytes "beta"

module _ (d : Deps) where
  abbrev pub login_style_path : Text
  login_style_path = d.user_data_path ++ bytes "/login-style"

  abbrev pub style_of : Result Text → Text
  style_of (err e) = login_style_classic
  style_of (ok raw) =
      if text_eq (trim_space raw) login_style_beta then login_style_beta else login_style_classic

  unfoldable pub login_style : d.fs.Files → Text
  login_style f = style_of (d.fs.read_file login_style_path f)

  abbrev pub removal_error : Removal → Result (Unit {0})
  removal_error removed = ok tt
  removal_error missing = ok tt
  removal_error (unremoved e) = err e

  abbrev pub after_rename : Text → Result (Unit {0}) × d.fs.Files → Result (Unit {0}) × d.fs.Files
  after_rename tmp (ok _, f) = (ok tt, f)
  after_rename tmp (err e, f) = (err e, (d.fs.remove tmp f).1)

  abbrev pub after_write : Text → Result (Unit {0}) × d.fs.Files → Result (Unit {0}) × d.fs.Files
  after_write tmp (err e, f) = (err e, f)
  after_write tmp (ok _, f) = after_rename tmp (d.fs.rename tmp login_style_path f)

  unfoldable pub set_login_style : Text → d.fs.Files → Result (Unit {0}) × d.fs.Files
  set_login_style style f =
      if text_eq style login_style_classic
      then (let r = d.fs.remove login_style_path f in (removal_error r.0, r.1))
      else (let tmp = login_style_path ++ bytes ".new" in
          after_write tmp (d.fs.write_file tmp (style ++ 10 ∷ []) f))

  abbrev pub style_reply : Text → Result (Unit {0}) → Response
  style_reply style (err e) = internal_error e
  style_reply style (ok _) = record {
    status = http 200;
    success = success;
    message = of_code success;
    body = detail style;
  }

  -- The request is the style, or an error if the body could not be bound.
  unfoldable pub put_login_style : Result Text → World d → Response × World d
  put_login_style (err e) w = (
    record {
      status = http 400;
      success = invalid_params;
      message = text (bytes "style is classic or beta");
      body = nothing;
    },
    w,
  )
  put_login_style (ok style) w =
      if not (text_eq style login_style_classic) && not (text_eq style login_style_beta)
      then (
        record {
          status = http 400;
          success = invalid_params;
          message = text (bytes "style is classic or beta");
          body = nothing;
        },
        w,
      )
      else (let r = set_login_style style w.files in
          (style_reply style r.0, record w { files = r.1 }))
