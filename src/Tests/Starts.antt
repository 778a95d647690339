-- ===== src/Tests/Starts.antt =====
-- What the starts of the tests are given.
use casa_os_user_service.Common.{some, sym}
use casa_os_user_service.Common.Text.{Text, bytes}
use casa_os_user_service.Keys.{KeyCodec, IsLawful}
use casa_os_user_service.Config.{Ini, Defaults}

abbrev pub ini : Ini
ini = record {
  File = Text;
  load = λ t. some t;
  print = λ t. t;
  map_to_common = λ file common. some common;
  map_to_app = λ file app. some app;
  reflect_from_common = λ common file. some file;
  reflect_from_app = λ app file. some file;
}

abbrev pub defaults : Defaults
defaults = record {
  runtime_path = bytes "/var/run/casaos";
  data_path = bytes "/var/lib/casaos";
  log_path = bytes "/var/log/casaos";
}

-- A key is a text, and is stored as it is.
abbrev pub plain : KeyCodec
plain = record { Key = Text; decode = λ t. some t; encode = λ k. some k }

pub plain-IsLawful : IsLawful plain
plain-IsLawful = record { decode-encode = λ k t h. sym h }
