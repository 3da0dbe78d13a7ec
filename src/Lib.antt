-- ===== src/Lib.antt =====
-- Hades, a registry of protocol buffer modules, written in Go: the parts that decide who may do
-- what, and the queue that turns pushed modules into SDKs.
--
-- A request meets the authentication interceptor first (Interceptor). It reads the Authorization
-- header, asks the rate limiter (Cache), resolves a session or an API token, and attaches the
-- user and the scopes of the credential to the context. The handlers then ask the authorisation
-- server (Authz.Server), which checks the scopes (Authz.Scopes, Constants.Scope) and asks the
-- engine (Authz.Engine), which evaluates the Rego policy (Authz.Policy) on the role bindings that
-- are cached (Authz.Bindings). Accounts sign in, recover and get tokens (Auth), and organisations
-- have members with roles (Identity). Uploads check their file paths (Paths) and creations check
-- their names (Constants.Names). A push writes git and the tables and creates SDK jobs (Upload),
-- which workers claim, run and end (Jobs); the Go module proxy serves them (GoProxy).
--
-- Which file models what, by paths of the repository:
-- - Constants, Constants/Scope, Constants/Names: internal/hades/constants/constants.go (Scope,
--   ScopeOn, ParseScope, DomainMatches, IsKnownScope; IsReservedName, ValidateName).
-- - Paths: utils/paths/paths.go (ValidatePath, GetPath, Validate), with path.Clean of Go written
--   out.
-- - Authz/Policy: internal/hades/authorization/hades/authz/authz.rego. Authz/Engine:
--   internal/hades/authorization/engine.go (Allow, BatchAllow, toInt). Authz/Scopes and
--   Authz/Server: internal/hades/server/authorization/authorization.go (Scopes, Can, BatchCan,
--   CheckReadAccess).
-- - Interceptor: internal/hades/server/authorization/middleware.go. Procedures holds its tables,
--   Stores the rows and lookups, Sessions and Tokens the checks of a credential, Routing
--   wrapUnary and UserFromToken; Live and Admission state what an admitted request is, Service
--   that a live session is served.
-- - Cache/Memory: internal/hades/cache/memory.go (Get, Set, Allow, Delete, sweep and the
--   evictions); Cache/Search is sort.Search.
-- - Jobs/Table: internal/hades/storage/db/sdkjob/sqlite/sqlite.go, one function for each
--   statement. Jobs/Worker: internal/sdk/worker/worker.go (process, notifyJobOutcome,
--   acquireAvailable, a poll of Run). Attempts and Claims run statements of several workers in
--   any order; Outcome says which jobs are taken for done, and Endings and Slots are about one
--   worker, whose statements may fail.
-- - GoProxy/Handler: internal/goproxy/handler.go (ServeHTTP up to the handlers of its queries,
--   credentialFromRequest, authorize, parseModulePath, resolveCommit); GoProxy/Escaping:
--   unescapeModulePath; GoProxy/Spelling: which paths ask for a module.
-- - Totp: utils/totp/totp.go (ValidateCodeCounter) and ConsumeCounter of
--   internal/hades/storage/db/totpsecret/sqlite/sqlite.go, which make a code single-use.
-- - Effects: internal/hades/storage/db/uow.go (Do) and utils/connerr/pgx.go (FromDB): handlers as
--   actions on the state of the tables, with a schedule of failing statements.
-- - Users: internal/hades/storage/db/user/sqlite/sqlite.go. Paging:
--   internal/hades/server/paging.go.
-- - Identity: internal/hades/server/identity/handler.go over Identity/Tables, the statements of
--   internal/hades/storage/db/org/sqlite/sqlite.go and opabinding/sqlite/sqlite.go. Orgs has the
--   handlers that write, Profiles those that read; Admins, Atomic, Creation and Redaction are
--   about them.
-- - Auth: internal/hades/server/auth/authn.go and ratelimit.go over Auth/Tables. Login and
--   Passwords have the handlers; Lockout, Access, Recovery and Sessions are about them. Devices
--   is internal/hades/server/auth/device.go; Grants and Polls are about one poll, SingleToken
--   about runs of calls. ApiTokens is internal/hades/server/auth/apitoken.go, and TokenIssue is
--   about it.
-- - Upload: internal/hades/server/content/upload.go. Registry has the statements on modules,
--   commits and branch heads, Limits, Checks and Notify the helpers of their names, Prepare the
--   part of Upload before its first write and Write the rest; Accounts says what the parts of a
--   request become, and Plans, Landing, Rounds and Pushes are about the whole; Told is about
--   Notify.
-- - Authz/Bindings: internal/hades/authorization/store.go (Read) and the updates of engine.go;
--   Refinement compares them with the table alone, InMemory puts Cache/Memory in.
-- - Prelude, Text, Maps and Result are shared: Boolean tests and lists on native numbers, the
--   functions of Go's strings package on byte strings, Go maps, and results with Connect error
--   codes.
--
-- How it is modelled. A Go string is the list of its bytes (Bytes); procedure names, which are
-- only compared whole, are texts. A Go error is its Connect code; messages are left out, except
-- where the code stores them. A Go map is an association list, and the order of a range statement
-- is an argument. Times are natural numbers, and the clock is an argument, read once for an
-- operation. The handlers that write run on the state of their tables, one function for each
-- statement, with a schedule that says which statements fail (Effects); the lookups of other
-- parts, the policy evaluator, bcrypt, the random generators, the linter, the hashing of git,
-- protoc, the object store, the HOTP generator and SHA-256 are parameters: functions that the
-- definitions take. Loops are structural, but for two kinds: sort.Search and the evictions run on
-- fuel, the size of what they shrink, which the theorems on them show to be enough.
--
-- Not modelled: OAuth sign-in and the enrolment of the second factor, the handlers of modules and
-- commits, downloads, the adapters of the buf protocol, the SQL of other tables, mails and the
-- audit log, logs, metrics and traces, the wiring of the server, generated code and the web
-- client.
pub mod Prelude
pub mod Text
pub mod Constants
pub mod Paths
pub mod Result
pub mod Effects
pub mod Users
pub mod Paging
pub mod Identity
pub mod Auth
pub mod Upload
pub mod Authz
pub mod Maps
pub mod Cache
pub mod Interceptor
pub mod Jobs
pub mod GoProxy
pub mod Totp
