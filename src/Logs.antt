-- ===== src/Logs.antt =====
-- route/access_log.go: the format of the access log, echo's with one field replaced. Echo's format
-- is a parameter.
pub mod Paths
use casa_os_user_service.Common.{[], ◌∷◌, ◌++◌, length, drop, if◌then◌else◌}
use casa_os_user_service.Common.Text.{Text, bytes}
use casa_os_user_service.Disk.{has_prefix}

-- strings.Replace(s, old, new, 1)
unfoldable pub replace_first : Text → Text → Text → Text
replace_first [] old new = if has_prefix [] old then new else []
replace_first (c ∷ s) old new =
    let rest = replace_first s old new in
    if has_prefix (c ∷ s) old then new ++ drop (length old) (c ∷ s) else c ∷ rest

abbrev pub uri_field : Text
uri_field = bytes "\"uri\":\"${uri}\""

abbrev pub path_field : Text
path_field = bytes "\"path\":\"${path}\""

unfoldable pub access_log_format : Text → Text
unfolding replace_first
access_log_format default = replace_first default uri_field path_field
