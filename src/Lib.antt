-- ===== src/Lib.antt =====
-- A model of the user service: accounts, passwords, two-factor authentication and sessions.
--
-- The parts, from the bottom up:
--
-- - Encryption (pkg/utils/encryption/password.go, md5_helper.go): `hash_password`,
--   `verify_password`, `needs_rehash` and the parser of PHC strings, `parse_argon`.
--   Encryption/Slots is the channel that bounds how many keys are computed at once (`idKey`): it
--   delays a call and changes no result, so the other files do not mention it.
-- - Totp (service/totp.go): `verify_totp`, `new_recovery_codes`, `consume_recovery_code`.
-- - Users (service/model/o_user.go, service/user.go): the account row, and one function for each
--   method that reads or writes the table. Users/Database has the calls of gorm that they make.
--   Users/Statements has every write as a value, so that a list of them is an order in which the
--   statements of concurrent requests reach the database.
--   Users/Abstract is the table as its callers see it, an account or none at each id.
-- - Disk (pkg/utils/file/file.go, image.go): what the handlers do with files.
-- - Route (route/v1, model, common/two_fa.go): the state that the handlers share (`World`), the
--   replies, the session tokens and the budgets, with a module for each group of handlers:
--   Route/Login and Route/Register, Route/Account, Route/Refresh, Route/UserFiles, Route/Images and
--   Route/CustomConf (user.go), Route/TwoFactor (user_2fa.go), Route/FirstAdmin (first_admin.go)
--   and Route/LoginStyle (login_style.go).
-- - Server (route/v1.go, route/v2.go): which handler answers a request, behind the JWT middleware,
--   and runs of requests one after the other. Server/Tokens is about the tokens that one request is
--   answered by and another one bears, and Server/Replies about the shape of every reply.
-- - Events (model/event.go, service/event.go, route/v2/api_route_event.go, route/event_listen.go):
--   the table of events, and the listener that fills it.
-- - Keys (service/user_key.go): the signing key on disk.
-- - Sqlite (pkg/sqlite/db.go): the one database of a process.
-- - Services (service/service.go, and `NewUserService` of service/user.go): the services with their
--   keys.
-- - Logs (route/access_log.go): the format of the access log.
-- - Config (pkg/config): the configuration file.
-- - Start and Reset (main.go, pkg/utils/random/random.go): the commands of the program, the `-ru`
--   command among them, the routes of the gateway, the address file and the registration at the
--   message bus. Start/Process is `init` and `main` as one, from the flags to a process that listens,
--   over Config, Sqlite, Services and the commands.
-- - Migration (cmd/migration-tool/main.go, migration_dummy.go): which migration runs.
-- - Common: texts, decimal numbers, integers and lists that the parts share.
-- - Tests: a stand-in for each thing that is not of this repository, with the proof that it keeps
--   the laws assumed of it, and runs of the theorems on a table of three accounts.
--
-- A handler reads the row of its user first and writes later. Each is split there: `login_row`,
-- `verify_row`, `setup_row`, `enable_row`, `disable_row` and `password_row` take the row as it was
-- read and the world as it is by then. What is shown of them holds for any row, a stale one too.
--
-- Not of this repository, and so a parameter with its documented behaviour as laws: gorm over
-- SQLite (`Gorm`), argon2id, MD5 and base64 (`Primitives`), HOTP, bcrypt and base32 (`Otp`,
-- `Draw`), the tokens of CasaOS-Common (`Jwt`), the limiter of golang.org/x/time (`RateLimiter`),
-- the encoding of keys (`KeyCodec`), packages os, path/filepath and net/http (`FileSystem`), the codecs
-- of images, base64 and JSON and the message bus (`Web`), echo's JWT middleware with the checks of
-- CasaOS-Common that it is given (`Gate`), gorm and encoding/json as the events use them (`Store`,
-- `Codec`), package ini (`Ini`), the SQLite driver and the migration of tables (`Driver`), and the
-- listener, the gateway and the JWKS of CasaOS-Common, with what a start draws (`Machine`).
--
-- How the source is read: a text is the list of its bytes, and TrimSpace, ToLower and EqualFold are
-- those of ASCII text; ids and Unix times are natural numbers; a request has one time of arrival;
-- time stamps of the rows are left out; the JSON of two lists of recovery codes is compared as the
-- lists. A statement of gorm fails and changes nothing, or takes effect as a whole. `Sscanf` reads
-- digits only: what else it reads is refused later by the comparison with what is printed. A
-- handler ends with a reply, with the process (log.Fatal) or with a panic, which net/http recovers.
-- The error that ctx.JSON or ctx.File returns is what echo answers: 500 for a configuration that is no
-- JSON, 404 for a file that it cannot send.
-- Every loop is structural recursion, and no fuel is used: the listener recurs on the rounds that it
-- meets, and the registration on its ten rounds.
--
-- Not modelled: CORS and compression of echo and what it writes for a tag of the access log, the
-- matching of a path with its route, the multiplexer of CasaOS-Common and the loop of the HTTP server
-- (main.go), what systemd is told, the limits of the connection pool (pkg/sqlite/db.go), and the log
-- of the migration tool (cmd/migration-tool/log.go): calls of other libraries with no state of this
-- repository.
pub mod Common
pub mod Encryption
pub mod Totp
pub mod Users
pub mod Disk
pub mod Route
pub mod Sqlite
pub mod Logs
pub mod Services
pub mod Reset
pub mod Keys
pub mod Server
pub mod Events
pub mod Config
pub mod Start
pub mod Migration
pub mod Tests
