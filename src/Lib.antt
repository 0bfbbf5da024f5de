-- ===== src/Lib.antt =====
-- The Go server of the family dashboard: its rules on schedules and its SQLite database.
--
-- The program. internal/app serves the HTTP interface; each handler identifies the device by its
-- access token, asks for an administrator session where the action needs one, and calls a method
-- of internal/database, which runs the statements of one operation, most of them in a transaction.
-- internal/schedule holds the rules on schedule items that do not need the database. The database
-- decides who gets in: the first PC is set up with a code that the server prints, further devices
-- are enrolled by a request that an administrator approves, tokens are renewed by rotation, and a
-- revoked device loses its credentials, sessions and push subscription.
--
-- Files.
--   Common        names of the libraries passed on; texts (Common/Texts: a string as the list of its
--                 code points), Boolean tests (Common/Tests), and rows of tables (Common/Rows: the
--                 lists that stand for tables, and what SELECT, UPDATE, DELETE, JOIN and COUNT do).
--   Time          databaseTime of internal/database/database.go and parseDatabaseTime of
--                 internal/database/schedule.go, and the order of the stored texts.
--   Schedule      internal/schedule/schedule.go.
--   Database      internal/database: State is the schema that initialize creates, Opening what
--                 initialize makes of a data file, Statements the
--                 INSERTs with their constraints; Setup is the second half of database.go,
--                 Credentials, Admin and Push are credentials.go, admin.go and push.go, Requests,
--                 Enrollment and Devices are enrollment.go, Items and Schedules schedule.go.
--                 Database/Invariant lists every operation that writes, as a step from one database
--                 to the next, with what they keep.
--   Security      internal/security: HashPIN and VerifyPIN of pin.go, Security/Vapid vapid.go.
--   App           internal/app: App holds requests and answers, App/Access the guards of admin.go and
--                 requestInNetworks of setup.go, App/Unlock unlockAdmin and lockAdmin of admin.go,
--                 App/Handlers and App/Status the handlers of schedule.go, App/Setup setup.go with
--                 ensureInitialSetupCode of app.go, App/Startup New of app.go, App/Credentials
--                 credentials.go, App/Submission and App/Enrollment enrollment.go, App/Push and
--                 App/TestPush push.go, App/Files spaHandler of http.go.
--   Server        cmd/server/main.go: the configuration from the environment, and in Server/Main the
--                 runs that main chooses between.
--   A definition carries the name of the Go function in this library's spelling, so that
--   create_admin_session is CreateAdminSession. The children of a module hold what is proved of it;
--   Examples apply the theorems at a small history of the database.
--
-- How the code is read.
--   Instants are natural numbers, nanoseconds since the start of year 0 in UTC. A stored time keeps
--   the characters up to the seconds as the number of seconds, and the rest as the text that it is,
--   compared byte by byte as SQLite does. Before year 10000 those are nineteen characters, whose order
--   is that of the seconds; from then on a year has more digits, the text sorts among the earlier ones
--   by its first digits (`place` in Time), and parseDatabaseTime does not read it.
--   Hence `expires_at > ?` is a comparison of texts here too.
--   A SHA-256 digest is the number that it spells: the code only compares digests.
--   A table is the list of its rows in the order of insertion, and the database the record of its
--   tables. A statement that a CHECK, UNIQUE or FOREIGN KEY constraint refuses is the error
--   `constraint`. A method takes the database and gives its result with the database that it leaves;
--   a transaction that fails leaves the one at its start. Where the code commits and reports an error
--   all the same, as on a reused refresh token, so does the definition. time.Now() is an argument.
--   ORDER BY and sort.Slice are an insertion sort by the same order; where two items do not
--   differ in it, Go may choose either, and the insertion sort takes the earlier one.
--   A data file that is not open has its tables too, a missing one as an empty list; initialize adds
--   the seeds and, for a server, the start.
--   There is no fuel: every loop is a recursion on a list.
--
-- Not modelled: failures of the driver and of the disk, the pragmas, the rows of schema_migrations,
-- the columns that nothing reads (last_started_at, time_kind, the dates of family_members and such),
-- and concurrent writers, since the database has one connection and so runs one statement, or
-- transaction, at a time.
-- The routing table, the log, health and runtime (internal/app/app.go), the drawing of random tokens
-- and keys (internal/security), and the parse of flags, the listener and signals (cmd/server) stand
-- outside: they are calls of Go's packages. What is drawn is an argument. The functions of Go's
-- packages that the code calls (SHA-256, URLs, addresses, RFC 3339, Argon2id, base64, the curve P-256,
-- the environment, the delivery of a push message) are the fields of App.Platform, Security.Crypto,
-- Security.Vapid.Curve, App.Files.Files and Server.System, and an argument of send_test_push. A JSON
-- body stands as what the decoder makes of it, and of the cookies that an answer sets those of the
-- device are kept.
pub mod Common
pub mod Time
pub mod Schedule
pub mod Database
pub mod Security
pub mod App
pub mod Server
