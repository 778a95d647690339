-- ===== src/Route/CustomConf/Kept.antt =====
-- A configuration that a user stored is the one that the user reads.
use casa_os_user_service.Common.{ℕ, ◌≡◌, ◌≢◌, ◌⊎◌, true, false}
use casa_os_user_service.Common.Text.{Text, bytes, is_empty}
use casa_os_user_service.Common.Decimal.{itoa}
use casa_os_user_service.Disk.{write_to_path, is_not_exist_mk_dir}
use casa_os_user_service.Users.Database.{UserDbModel, Gorm}
use casa_os_user_service.Users.{get_user_info_by_id}
use casa_os_user_service.Route.{
  Deps, World, err, unreachable, Served, replied, panicked, Code, success, reply, reply_ok,
  http_error, raw, user_dir,
}
use casa_os_user_service.Route.CustomConf.{conf_file, conf_reply, get_user_custom_conf}
use casa_os_user_service.Disk
use casa_os_user_service.Users.Database

module _ (d : Deps) (law : Disk.IsLawful d.fs) where
  -- Why a configuration is refused: no name, no account, no directory, or the file cannot be written.
  abbrev pub Refusal : ℕ → Text → Text → World d → Type 0
  Refusal i name t w =
      (is_empty name ≡ true)
      ⊎ ((get_user_info_by_id d.gorm (itoa i) w.db).id ≡ 0)
      ⊎ ((e : Text) × ((is_not_exist_mk_dir d.fs (user_dir d i) w.files).0 ≡ err e))
      ⊎ ((e : Text) × ((write_to_path d.fs t (user_dir d i) (conf_file d name)
              (is_not_exist_mk_dir d.fs (user_dir d i) w.files).1).0
            ≡ err e))

  -- What a posted configuration comes to: a refusal that leaves the database alone; a reply with
  -- the configuration, which is read from then on; a failure with 500 if it is no JSON, though it is
  -- stored all the same; or, for the name "system" when the message bus cannot be reached, a panic,
  -- though the configuration is stored all the same.
  pub data Posted (i : ℕ) (name t : Text) (w : World d) : Served d → Type 0 where
    refused :
        (status code : Code) (f : d.fs.Files)
        → status ≢ success
        → Refusal i name t w
        → Posted i name t w (replied (reply status code) (record w { files = f }))
    stored :
        (f : d.fs.Files)
        → d.web.marshals_raw t ≡ true
        → get_user_custom_conf d (itoa i) name (record w { files = f }) ≡ conf_reply d t
        → Posted i name t w (replied (reply_ok (raw t)) (record w { files = f }))
    unanswered :
        (f : d.fs.Files)
        → d.web.marshals_raw t ≡ false
        → get_user_custom_conf d (itoa i) name (record w { files = f }) ≡ conf_reply d t
        → Posted i name t w
            (replied (http_error 500 (bytes "Internal Server Error")) (record w { files = f }))
    lost :
        (f : d.fs.Files)
        → name ≡ bytes "system"
        → d.web.publish_save_config t ≡ unreachable
        → get_user_custom_conf d (itoa i) name (record w { files = f }) ≡ conf_reply d t
        → Posted i name t w (panicked (record w { files = f }))
