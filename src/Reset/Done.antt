-- ===== src/Reset/Done.antt =====
-- What a reset that prints a password leaves in the table.
use casa_os_user_service.Common.Text.{Text}
use casa_os_user_service.Users.Database.{UserDbModel, IsLawful}
use casa_os_user_service.Route.{Deps}
use casa_os_user_service.Reset.{reset_row}

module _ (d : Deps) (law : IsLawful d.gorm) where
  -- What the statement does to a row.
  abbrev pub renewed : Text → Text → UserDbModel → UserDbModel
  renewed salt password = reset_row d salt password
