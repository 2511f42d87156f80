-- ===== src/Lib.antt =====
-- Verification of tao-core-go, a server for computer-based tests: students start sessions of a
-- delivered test, save answers and submit; the server scores the answers, watches the session,
-- limits requests, lets learning platforms launch sessions (LTI), imports questions (QTI) and
-- reports completed sessions to webhooks.
--
-- The parts and the files that model them:
-- - Models: the rows of internal/domain/models, as records with the source's fields.
-- - Store: the database as the services use it through gorm. A table is the list of its rows in
--   the order of the primary key; `query`, `first`, `write` and `transaction` are Find, First, the
--   writes and Transaction, and every call of them takes one step of a plan of driver faults. A
--   function from a world (tables and plan) to a result and a world is a `Tx`. Store/Faults and
--   Store/Atomic have the rules by which an outcome proved for a run without faults holds for
--   every plan.
-- - Session: internal/service/session_service.go. Lookup has the shared queries and GetSession,
--   Start, Save and Submit the three calls that write, each with its faults (Faults), its outcomes
--   branch by branch (Outcome) and its laws. Consistency has the invariant of the tables, History
--   the histories of calls, Grading what a submission returns.
-- - Scoring: internal/service/scoring_service.go, ScoreItem and (Scoring/Balance)
--   BalanceOptionsKey. The session service calls `score_item` in its scoring loop.
-- - Proctor: internal/service/proctor_service.go. Events are recorded against a session in
--   progress; the analytics count them.
-- - RateLimiter: internal/middleware/rate_limit.go.
-- - Export: internal/service/results_export_service.go, which reads sessions and the analytics of
--   Proctor.
-- - Outbound and Cipher: internal/security/outbound.go and secret_cipher.go.
-- - Handlers: internal/handler/session_handler.go and proctor_handler.go, which call the services
--   above, and (Handlers/Lti) the login and launch of lti_handler.go, which call Lti and Auth;
--   Handlers/Webhooks has the handlers for webhooks.
-- - Auth: internal/middleware/auth_middleware.go, and the chain of it that cmd/server/main.go puts
--   before the routes for administrators.
-- - Lti: internal/service/lti_service.go, the login and the launch. Urls has the checks of URLs,
--   Keys the key sets of a platform with their cache, Login and Launch the two steps, and History
--   the histories of both. A launch calls `start_session` of Session.
-- - Qti: internal/service/qti_service.go. Limits has the checks of a package, Media the files that
--   are written and removed, Items the conversion of a question, which calls the balancing of
--   Scoring, and Import the whole call.
-- - Webhook: internal/service/webhook_service.go. Queue has the channel of events, Registration
--   and Sending the rows and the requests; they use Outbound and Cipher.
-- - EventBus: internal/service/event_bus.go.
-- - Server: the routes of cmd/server/main.go with the middlewares in front of them.
-- - Prelude, Text and Float: lists, tables, Boolean tests, Go's strings functions, float64.
--
-- How the code corresponds to the definitions:
-- - A Go string is the list of its code points (all are valid UTF-8); `len` counts bytes.
-- - A time is a number of nanoseconds since the zero time; `time.Now()` and `uuid.New()` come in
--   an `Env`. A clock that runs backwards within a session gives 0 seconds spent, as in the code.
--   The seconds of a duration are whole numbers; the code rounds through float64.
-- - The jwt package is a parameter: a function that signs and one that gives the claims of an
--   accepted token; the writer of encoding/csv says of each row whether it takes it, and fmt's
--   formats are functions.
-- - float64 is a parameter: a type with the operations that the program uses.
-- - The case folding of strings.EqualFold is a parameter, a function on code points.
-- - The draws of crypto/rand in BalanceOptionsKey are a parameter that may fail.
-- - gorm's First also asks for the primary key of the struct it fills where that is set; this is
--   what `is_reread` of Session/Save writes out.
-- - A transaction that locks the row it reads runs alone: calls are interleaved as whole
--   transactions, in a history.
-- - The time limit of a test is multiplied by a second in 64 bits, as the code does, and wraps
--   around. Nanoseconds since the zero time are not bounded.
-- - Where gorm writes the default of a column in place of a zero value (layout_hint of a question,
--   is_active of a webhook), so does the model.
-- - An int is a number, or an integer where it can be negative; the sum of seconds in the
--   analytics wraps around at 64 bits. Counters that count rows of a table are not bounded.
-- - The map of the rate limiter is the list of its entries; the entry that Go's iteration yields
--   when one is evicted is an argument, so a theorem holds for every choice.
-- - Every loop is a recursion on the list it runs over; no fuel is needed.
-- - net/http, encoding/json, encoding/xml, archive/zip, HMAC and SHA-256 are parameters: functions
--   from what is sent or read to what comes back, or nothing where they fail.
-- - The calls that write a media file take a plan of faults, as the driver's do; a call that
--   removes a file goes through.
-- - In a history of LTI calls a call ends before the next one starts; the update that uses up a
--   state is one statement, and the code counts the rows that it changes.
-- - The channel of events is a queue; a step of it is a dispatch or a receipt of a worker.
-- - A map of media paths is visited in an order that is a parameter.
--
-- Not modelled: the registration of LTI platforms and resource links with its handlers, the
-- passback of grades, the handlers of QTI and results, the start of the server, database
-- set-up, the limit of request bodies, and metrics.
pub mod Prelude
pub mod Text
pub mod Float
pub mod Models
pub mod Scoring
pub mod Store
pub mod Session
pub mod Proctor
pub mod RateLimiter
pub mod Export
pub mod Auth
pub mod Outbound
pub mod Handlers
pub mod Cipher
pub mod Lti
pub mod Qti
pub mod EventBus
pub mod Webhook
pub mod Server
