-- ===== src/Tests/Requests.antt =====
-- Tests of the login and account handlers on the service of the tests.
use casa_os_user_service.Common.Text.{split, Text, bytes, text_eq}
use casa_os_user_service.Encryption.{verify_password, parse_argon, six, get_md5_by_str, hex}
use casa_os_user_service.Route.Login.{
  login_fields, login_matched, finish_login, login_row, post_user_login, upgrade_password,
}
use casa_os_user_service.Common.{ℕ, ◌≡◌, ◌≢◌, ◌⊎◌, refl, true, false, [], ◌∷◌, arith}
use casa_os_user_service.Users.Table.{alter}
use casa_os_user_service.Users.Cas.{account}
use casa_os_user_service.Users.{
  overlay, get_user_all_info_by_id, get_user_all_info_by_name, get_user_info_by_id,
}
use casa_os_user_service.Route.{Json, Result, VerifyInformation, issue_tokens, password_matches}
use casa_os_user_service.Route.Login.Session.{SignedIn, post_user_login-SignedIn}
use casa_os_user_service.Route.Account.{
  UserJson, put_user_info, put_user_nick, put_user_desc, put_user_password,
}
use casa_os_user_service.Route.Account.Profile.{
  SameHidden, put_info, profile-SameHidden, put_user_info-of_body,
}
use casa_os_user_service.Route.Account.Password.{Changed, put_user_password-Changed}
use casa_os_user_service.Route.Refresh.{post_user_refresh_token}
use casa_os_user_service.Route.Refresh.Renewed.{Renewed, post_user_refresh_token-Renewed}
use casa_os_user_service.Tests.Memory.{memory, memory-IsLawful}
use casa_os_user_service.Tests.Codec.{repeat}
use casa_os_user_service.Tests.Service.{deps, alice, table, world, body_of}

abbrev salt : Text
salt = repeat 16 1

abbrev alice_session : VerifyInformation
alice_session = record {
  refresh_token = 1 ∷ 604900 ∷ bytes "refresh";
  access_token = 1 ∷ 10900 ∷ bytes "casaos";
  expires_at = 10900;
}

abbrev alice_login : Json
alice_login = body_of ("username", bytes "alice") ("password", bytes "secret")

post_user_login-SignedIn_example :
    let user = get_user_all_info_by_name memory (bytes "alice") table in
    ((deps.rate.allow 5 100).0 ≡ true)
    × (user.id ≢ 0)
    × (password_matches deps user.password (bytes "secret") ≡ true)
    × SignedIn deps 100 user
        (upgrade_password deps salt user (bytes "secret") table)
        alice_session
        (record alice { password = [] })
unfolding post_user_login login_fields text_eq login_row get_user_all_info_by_name password_matches
    verify_password parse_argon six split get_md5_by_str hex login_matched finish_login issue_tokens
post_user_login-SignedIn_example =
    post_user_login-SignedIn deps 100 salt alice_login world alice_session
      (record alice { password = [] }) refl

put_user_password-Changed_example :
    Changed deps memory-IsLawful salt
      (bytes "secret")
      (bytes "better")
      (get_user_all_info_by_id memory (bytes "1") table)
      table
      (put_user_password deps salt
        (bytes "1")
        (body_of ("old_password", bytes "secret") ("password", bytes "better"))
        world).1.db
      1
unfolding text_eq
put_user_password-Changed_example =
    put_user_password-Changed deps memory-IsLawful salt (bytes "1")
      (body_of ("old_password", bytes "secret") ("password", bytes "better")) world 1

abbrev of_bob : UserJson
of_bob = record {
  id = 2;
  username = [];
  password = bytes "x";
  role = [];
  email = bytes "e";
  nickname = [];
  avatar = [];
  description = [];
  totp_enabled = false;
}

profile-SameHidden_example :
    SameHidden deps memory-IsLawful table (put_user_info deps (bytes "1") of_bob world).1.db
    × SameHidden deps memory-IsLawful table
        (put_user_nick deps
          (bytes "1")
          (body_of ("nick_name", bytes "al") ("description", bytes "admin"))
          world).1.db
    × SameHidden deps memory-IsLawful table
        (put_user_desc deps
          (bytes "1")
          (body_of ("nick_name", bytes "al") ("description", bytes "admin"))
          world).1.db
profile-SameHidden_example =
    profile-SameHidden deps memory-IsLawful (bytes "1") of_bob
      (body_of ("nick_name", bytes "al") ("description", bytes "admin")) world

put_user_info-of_body_example :
    (account memory 2 (put_user_info deps (bytes "1") of_bob world).1.db ≡ account memory 2 table)
    ⊎ (((get_user_info_by_id memory (bytes "1") table).id ≢ 0)
        × ◌≡◌ {A = ℕ} 2 2
        × (account memory 2 (put_user_info deps (bytes "1") of_bob world).1.db
            ≡ alter
                (λ _. true)
                (overlay (put_info deps memory-IsLawful (bytes "1") of_bob world))
                (account memory 2 table)))
put_user_info-of_body_example =
    put_user_info-of_body deps memory-IsLawful (bytes "1") of_bob world (λ e. omega (arith, e)) 2

abbrev alice_refresh : Json
alice_refresh = body_of ("refresh_token", 1 ∷ 604900 ∷ bytes "refresh") ("", [])

post_user_refresh_token-Renewed_example :
    (claims : Text) × (deps.jwt.parse_token (1 ∷ 604900 ∷ bytes "refresh") deps.public_key 100
      ≡ Result.ok claims)
    × Renewed deps 100 claims alice_session
unfolding post_user_refresh_token text_eq
post_user_refresh_token-Renewed_example =
    post_user_refresh_token-Renewed deps 100 alice_refresh alice_session refl
