-- ===== src/Lib.antt =====
-- jdShopServer, a server of accounts and sessions for a desktop client and its console.
--
-- A request passes the limiter (internal/middleware/ratelimit.go) and, where it needs an account,
-- the check of its access token (internal/middleware/auth.go, rbac.go). A handler decodes it,
-- decrypting the envelope first (internal/service/request_crypto.go), and calls a service
-- (internal/service/), which works on the database by the repositories (internal/repository/) and
-- tells clients of changes by the hub (internal/service/control.go).
--
--   Common          names of the libraries, tests, tables as lists, maps as association lists
--   Time            instants, and the texts of timestamps as SQLite compares them
--   Model           the records of internal/model/models.go; Announcements and Validation are children
--   Hub             internal/service/control.go
--   Db              tables, statements that may fail, transactions, and what they keep
--   Repository      internal/repository/: Users, Tokens, LoginLogs, Access, Sms, Roles, Versions,
--                   Announcements, Heartbeats; Migrations (db.go), on a store of its own
--   Service         internal/service/: Access, Sms, Auth, Users, Admin, Versions, Announcements,
--                   Heartbeats, Captcha (captcha.go); Stable says what every operation keeps, and
--                   Stable.Histories runs operations in any order
--   Cipher          internal/service/request_crypto.go
--   RateLimit       internal/middleware/ratelimit.go
--   Middleware      internal/middleware/auth.go and rbac.go
--   Router          internal/router/router.go: the routes and what stands before each
--   Handler         internal/handler/: Accounts (auth.go), Users, Admin, Versions, Announcements,
--                   Heartbeats; Responses has the replies, Bodies the bodies that may be encrypted
--   Examples        the properties at concrete inputs
--
-- A method is a function of the same name in snake case. A service's operation is a computation
-- `M A` on a `World`: the tables, a schedule that says which of the next statements fail, and the
-- hub. A statement that fails has no effect, and a transaction that does not commit restores the
-- tables. A table lists its newest row first, so that the first row that passes is the one with
-- the greatest id; where a column is unique, as the name, the phone and a token's hash are, it is
-- the only one. Rows that refer to others are not checked for it, and links to a role that was
-- deleted, like targets and receipts of an announcement, are not cleaned up, since ids are not
-- used again.
--
-- Instants are numbers of nanoseconds since 1970, and timestamps are read as day, separator,
-- second and zone, for years of four digits. Ids are natural numbers; the id of a subscriber
-- wraps around at 2 ^ 64. All recursion is on lists, texts and the counters of loops that the
-- source bounds by a constant. The clock, random values, bcrypt, the signing and parsing of web
-- tokens, digests, RSA, AES-GCM, base64, JSON, url.Parse and the provider of text messages are
-- arguments, of which nothing is assumed but that they are functions, and of the random values of
-- a captcha's code that they are there and below their bounds. A handler is given the id and the
-- body that were read from its request, or none. A text for the start or the end of an
-- announcement is a timestamp, white space, or any other text with the timestamps that it does
-- not exceed.
--
-- Not modelled: the paged lists of users and of versions, the image of a captcha
-- around its code and its pixels (floating point), the handlers of captchas, keys, health and the
-- event stream, the wiring of router.go but for its routes, main.go, and the reading of the
-- configuration. A script of a migration is a step of an engine that is an argument: it changes
-- tables and schema, but not the table of applied versions. The histories of Stable.Histories
-- hold neither the sending of codes, which touches the table of codes only, nor the versions and
-- the announcements, which have histories of their own in Service.Versions.Updates and
-- Service.Announcements.Histories.
pub mod Common
pub mod Time
pub mod Model
pub mod Hub
pub mod Db
pub mod Repository
pub mod Service
pub mod Cipher
pub mod RateLimit
pub mod Middleware
pub mod Router
pub mod Handler
pub mod Examples
