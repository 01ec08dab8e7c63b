-- ===== src/Lib.antt =====
-- A verification library for the backend of the 3x-ui aggregator: a Go server that checks nodes, their
-- panels, services and bots, and reports to Telegram. Paths are from the repository's root.
--
-- Parts and files.
--   Alerts models backend/internal/services/alerts. A checker hands samples to maybeSendAlert, which
--     reads the row of the fingerprint in alert_states, decides whether Telegram is called, and writes
--     the row and the incident back. Types has the structs, Policy the delays and streaks,
--     Fingerprint fingerprintFor, Render the title of a message, Messages the ids of the messages per
--     chat and the calls of Telegram, Store loadState, ensureAlertID, updateState and syncIncident,
--     Mute setMute and isMuted, Callback the buttons and ParseCallbackData, Handle HandleCallback,
--     AckByAlertID and MuteByAlertID, Engine the branches of maybeSendAlert, Dedup the Deduper of dedup.go.
--   Sshws models backend/internal/services/sshws/manager.go: the limit on SSH sessions.
--   Ops models backend/internal/services/ops: Types the rows, Create CreateJob, Schedule the loop that
--     starts queued jobs, Run runJob and executeItem, Run/Log the texts of a log, Stream the hub that
--     hands events to subscribers.
--   Access models backend/internal/http/middleware, backend/internal/http/org_scope.go and the roles of
--     backend/internal/services/agentauth/token.go: Token the checks of a request's token and role,
--     Scope the organisation of a request and the rows that its user gets, Isolation the proofs on both.
--   Agentfs models backend/internal/agentfs/fsops.go: the paths that the agent's file manager may touch.
--     Clean has Go's path.Clean and path.Dir, on which the module stands.
--   Backup models backend/internal/services/backup: Job, Source and Storage the validation of the inputs,
--     Names, Shell and Log the helpers of a run, Queue TriggerRun, RetryRun, CancelRun and the scheduler,
--     Collect, Upload, Retention, Finish and Run the execution of a run, whose writes are a list that
--     Run applies to the tables. The cron parser, the database of time zones and the decoding of JSON
--     are parameters; what the database, the remote host, the file system and the uploader answer is a
--     record of each call.
--   Prelude passes library names on and holds what the models share: Boolean tests, association
--     lists for maps and tables, integers, and the string functions of Go that the source calls.
--
-- State. A handler takes the state and returns the new one. The tables of the database are
--   association lists by their key; an access to the database that may fail is a Boolean of the
--   environment (Env), so that a run with any combination of failures is a run of the model.
--   Telegram's answers are functions in Env; what a backup run meets is a record of each of its
--   calls. The calls of Telegram that were made are a list in World.
--
-- Parameters. github.com/google/uuid is a UuidCodec: a UUID is a number, 0 is uuid.Nil, and Parse
--   reads back what String prints. strconv.Atoi is a function that names a number or none. Random ids
--   and the clock are fields of Env.
--
-- Representation. Times and durations are natural numbers or integers of nanoseconds, in Backup of
--   seconds; a time of 0 is the zero time. Go's int is unbounded here: no counter or duration of the
--   source comes near 2^63 in the runs that are modelled. A text is
--   its sequence of code points, but in Ops.Run.Log, where trimLog counts and cuts bytes, a text is
--   its sequence of bytes, one character for each. Letters are folded in ASCII only. A JSON
--   column of message ids is the data type of what json.Unmarshal finds in it. Maps are iterated in
--   the order of insertion, which the source does not promise, and no theorem depends on it. Loops are
--   structural recursion over the list that is iterated; no fuel is needed.
--
-- Not modelled. The texts of messages except their title, floating-point thresholds, the columns
--   created_at and updated_at, the HTTP handlers, SSH, shell scripts and the SQL migrations.
pub mod Prelude
pub mod Access
pub mod Agentfs
pub mod Alerts
pub mod Backup
pub mod Ops
pub mod Sshws
