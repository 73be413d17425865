-- ===== src/Lib.antt =====
-- auth7, the identity and access service: its decision logic, modelled and verified.
--
-- The program. A login creates a session in Redis and hands out an access token, which carries the
-- session's id, and a refresh token (internal/service/session). A second factor is checked against
-- the row that Postgres keeps of the user (internal/service/mfa). A request to the admin API passes
-- a rate limiter and a check of roles and organisation, and the counters of failed logins lock a
-- name or an address (internal/api/middleware). Whether a user may do something is decided by the
-- policy decision point and the four layers of authorization (internal/service/authz), the time
-- window of which takes its parameters from the policy service through a cache
-- (internal/service/opacache). Applications get their tokens by OAuth2 (internal/service/oauth2 and
-- internal/api/rest/oauth2.go): a code is issued to a user's browser and exchanged for tokens, whose
-- session is kept with the others in Redis. Access tokens are signed with keys that are rotated
-- (internal/service/jwt). The branches of the organisation are copied from the enterprise service by
-- a poller (internal/service/branchsync), and changes of users, their branches and their roles are
-- applied by callbacks of the workflow service (internal/api/rest/wfcallback). What is changed is
-- written to the audit log (internal/service/audit).
--
-- The files.
-- - Base, Text, Strings: the names all modules share, Boolean tests, lists measured by native numbers,
--   signed numbers, results and effects; the functions of Go's strings and strconv that the program
--   uses, over code points and over whole texts.
-- - Redis: the commands that the session stores send, as a record of operations on an abstract
--   state, and `Available`, the documented behaviour of a server that answers every command.
-- - OpaCache (internal/service/opacache/cache.go): `Cache.Get` is `get`, `Cache.Set` is `set`, and
--   so on. Laws has what a key reads after each operation, Expiry the cleanup loop.
-- - Authz.Domain (internal/domain/authz.go): roles, permissions, policies and contexts. The files
--   named next are those of internal/service/authz.
--   Authz.Decision: the decisions and their reasons.
--   Authz.Window (timewindow.go): `parseHHMM`, `windowForDay`, `IsOpenAt`; Clock and Hours prove the
--   reading of times and the opening hours, Policy has `TimeWindowEvaluator.Evaluate`.
--   Authz.Abac (abac.go): the evaluator of policies; Deny, Order and Masks prove what it decides.
--   Authz.Checker (checker.go): the permission checker and `FourLayerAuth.Authorize`; Layers proves
--   it.
--   Authz.Pdp (pdp.go): `ResolveAuthContext` and `NewTimeGatedChecker`; Effective and Decides prove
--   them. Endpoints (internal/api/rest/internal_authz.go and internal/api/grpc/authcheck/server.go) has
--   the handlers that ask them, and Answers what these decide.
-- - Of internal/service/session: Session.Store (store.go), Session.Refresh (refresh.go),
--   Session.Service, Session.Access and Session.Device (service.go), over the records of Session.Data
--   and its functions of state and error. Frame, Branches, Login, Reuse, Family, Revocation,
--   Organisation and Validation prove what the service promises.
-- - Oauth2.Data, Oauth2.Client (internal/domain/client.go and client.go of internal/service/oauth2),
--   Oauth2.Codes (authcode.go), Oauth2.Token (token.go, oidc.go), and Oauth2.Store with the interface
--   AuthCodeStore and the table of internal/store/postgres/oauth2.go. The handlers of
--   internal/api/rest/oauth2.go are Oauth2.Authorize, Oauth2.TokenEndpoint and Oauth2.Register, over
--   Oauth2.Http: a guard that answers and returns is `refuse_if`, and `answer` is the reply of a
--   handler. Redeem, Once, Exchange, Revoked, Registered, Redirects, Flow, Machine and Registration
--   prove what codes, clients and tokens do.
-- - Mfa.Data (internal/domain/mfa.go, and the table of internal/store/postgres/repository.go) and, of
--   internal/service/mfa, Mfa.Backup (backup.go), Mfa.Totp (totp.go, encryptor.go), Mfa.Email
--   (email.go) and Mfa.StepUp (service.go), over the keys and tables of Mfa.State; Alphabet, Once,
--   Generated, Replay and StepUpLaws prove what codes and step-ups do.
-- - Account.Data (users and credentials of internal/domain/entity.go, and their tables in
--   internal/store/postgres/repository.go, with Account.Tables), Account.Login (`HandleLogin` of
--   internal/api/rest/auth.go), Account.Passwords (the change and the reset of passwords there) and
--   Account.Admin (`adminUserSvc` of internal/api/rest/admin_routes.go); Granted, Single and Barred prove
--   who logs in, what a login ends and who no longer logs in, Renewal what becomes of a password that
--   is changed twice.
-- - Branch.Data and Branch.Assignments (the records of internal/domain/entity.go and their tables in
--   internal/store/postgres/branch.go and repository.go), Branch.Sync (the poller of
--   internal/service/branchsync/poller.go) and Branch.Switch (`handleSwitchBranch` of
--   internal/api/rest/branch.go); Pages, Outage and Tombstones prove that a pass of the poller ends and
--   what it leaves of the table when it fails and when it succeeds.
-- - Of internal/api/rest/wfcallback: Workflow.Envelope (wfcallback.go), Workflow.Users (the callbacks of
--   user.go that change, delete, lock and unlock a user) and Workflow.Branches (`handleWfSetBranches`
--   there), with Assigned, Replaced and Lingering on the branches that a user
--   is left with.
-- - Of internal/service/jwt: Keys.Manager (keys.go) and Keys.Tokens (service.go), over the library that
--   Keys.Jwt describes; Rotation and Verified prove which tokens are accepted once keys are rotated.
-- - Roles.Tables and Roles.Grants (the tables of roles, permissions and grants in
--   internal/store/postgres/repository.go) and Roles.Callbacks (role.go and `handleWfSetRoles` of
--   internal/api/rest/wfcallback, with the services of internal/api/rest/admin_routes.go that they call);
--   Replaced and Regrant prove what an assignment of permissions leaves, and when a grant fails.
-- - Audit.Log (internal/service/audit/service.go): the log and `PGStore.List`; Paging proves what its
--   pages hold.
-- - Of internal/api/middleware: Middleware.Admin (admin.go) and Middleware.BruteForce
--   (bruteforce.go), with their laws beside them, and AdminRate on the rate of requests.
-- - Password.Policy (`PasswordPolicy` of internal/domain/entity.go) and Password.Generator
--   (internal/service/password/generator.go); Swap and Strength prove that the two agree.
-- - Examples: tests and runs at concrete inputs; Map is a Redis that keeps one map.
--
-- How the code is read. A function that changes state takes the state and returns it; an error is a
-- value, without its message, and a call whose error the code drops is marked so. A function reads
-- the clock once, as an argument, in seconds; Go's reads within one call may differ by less. A
-- record in Redis is its JSON text, which decodes to the record that was encoded. A loop is
-- structural recursion, on the list or the counter it runs on. The loop of the poller over the pages of
-- the source, which the answers of the source bound, takes fuel; one more than the number of pages is
-- enough, which Branch.Pages proves. A mutex
-- or a single Redis command is atomic; between commands no other client acts. Where a theorem speaks
-- of a later call, no key has expired in between.
--
-- The tables are those of migrations/, for a database that answers. The queries on email_otp_codes and
-- verification_tokens that name a column which is not declared fail, and a row of oauth2_clients has to
-- fit its columns. In which order a query finds audit entries of the same time is a parameter.
--
-- Parameters. Redis, Postgres' answers to the getters of internal/service/authz, the policy service,
-- the time zone database, bcrypt, AES-GCM, the TOTP library, SHA-256 and its encodings, the HTTP
-- client of the poller, the uuid package, JSON, and the signing of tokens (RSA and the JWT library).
--
-- Not modelled. Of internal/service/mfa, SetupMFA, which also writes the user, and the counter of the
-- rate limiter; of internal/api/rest/auth.go the logout, the registration, the profile and the
-- handlers of second factors; of internal/api/rest/wfcallback the creation of a user with its roles
-- and branch, OAuth2 clients and the default roles of a branch. Nothing constructs or calls
-- internal/service/identity.go, internal/service/branch, internal/service/security, the guards of
-- internal/api/middleware/authz.go and the refresh tokens of internal/service/jwt. Left out too are
-- the hashing of passwords, the mirroring of the audit log, the Redis rate limiter of the middleware,
-- whose windows are weighed in floating point, and the other handlers, SQL, messaging and start-up,
-- which are input and output.
pub mod Base
pub mod Text
pub mod Strings
pub mod Redis
pub mod OpaCache
pub mod Audit
pub mod Authz
pub mod Branch
pub mod Workflow
pub mod Roles
pub mod Session
pub mod Oauth2
pub mod Account
pub mod Mfa
pub mod Keys
pub mod Middleware
pub mod Password
mod Examples
