-- ===== src/Lib.antt =====
-- Glint watches Proxmox VE (PVE) and Proxmox Backup Server (PBS): collectors poll their APIs and write what
-- they find into a cache, an alerter evaluates its rules on snapshots of the cache and sends notifications,
-- and an HTTP server shows snapshots as pages and JSON. This library models the parts that decide something.
--
-- Model        internal/model/model.go: the records that the parts share.
-- Smart        internal/smart: Thresholds (thresholds.go: thresholdTable, IsCritical, LookupThreshold,
--              FindBucket), Evaluate (evaluate.go: EvaluateAttribute, EvaluateDisk), Ata (ata.go), Nvme
--              (nvme.go) and Scsi (scsi.go) with the parsers. Buckets, Flags, Verdicts, Endurance, Parsing and
--              Outputs prove things about them.
-- Cache        internal/cache/cache.go: Cache with its Update operations and Snapshot. Copies, Isolation and
--              Polls are about snapshots and polls.
-- Collector    internal/collector/pve.go: collectSMART with its retries (Collector) and collectDisks (Disks);
--              Retries and Identity are about them. It uses Smart, and its disks go into the cache.
-- Pve          internal/collector/pve.go: Collect. Parse has the parsers of its answers, Workers what the
--              pool's goroutines do under the mutex and the orders in which they may come; Sections, Schedule and
--              Polled are about what a poll gathers and leaves in the cache.
-- Pbs          internal/collector/pbs.go: Collect and what it calls, from the API's answers to the cache and the
--              store's calls; Filed and Latest are about the backups that it
--              keeps.
-- Client       internal/collector/collector.go and the requests of pve.go and pbs.go: the errors of an API, apiGet
--              (send), the collectors' settings, Pve and Pbs with the way from the network to what the modules Pve
--              and Pbs work on, Pool (WorkerPool, Submit) and Loop (Run). Contained, Reported and Rest are about them.
-- Alerter      internal/alerter/alerter.go: Config (the rules), State (fire, cleanup,
--              checkSustainedThreshold), Notice and Evaluate (evaluate), Rounds (Run). Steps describes a round as a
--              sequence of steps; Cooldown and Conditions argue on it.
-- Config       internal/config/config.go: Types, Validate (Validate), Load (expandEnvVars,
--              applyEnvOverrides, Load). Usable and Environment are about them.
-- Store        internal/store: the inserts and upserts, with Rows (migrations.go: the schema), Query (the sparkline
--              queries) and Pruner (pruner.go), on tables that Sql describes. Spec has the abstract store that
--              Refinement compares them with, Memory has tables of lists.
-- Temperature  internal/collector/temperature.go: Collect and parseSensorsJSON; Highest is about the choice.
-- Notify       internal/notify: ntfy.go and webhook.go.
-- Startup      cmd/glint/main.go: providers, intervals and rules from the configuration, the parts that main starts
--              (Launch), and Health (buildInfo, runHealthcheck, printListenURLs). Wiring and Tickers are about them.
-- Server       internal/api/middleware.go and the rest of internal/api/handlers.go: the response writer, the
--              middleware, and Handlers with the routes, renderHTML, writeJSON and the handlers. Guarded, Secured and
--              Answers are about responses.
-- Sparkline    internal/api/handlers.go: the sparkline handlers and handleHealthz. Points is about the answers,
--              Stored and Journey about the way from a poll over the store to an answer.
-- Program      the parts together: the state in memory that the goroutines of cmd/glint share and the steps that
--              change it. Sharing is about pointers and snapshots in a run, Online about the nodes' status,
--              Probe about the health probe and the server.
-- Widget       internal/api/handlers.go: handleWidget; Counts is about its sums.
-- Dashboard    templates/helpers.go: chips, bars and counts, the sorted lists (Lists) and the texts (Texts, Bytes);
--              Chips compares the chips with Widget and Alerter, Latest is about the backups of a guest.
-- Scripts      scripts/coverage/main.go (Coverage) and scripts/fuzz/main.go (Fuzz, Report); Ratchet, Filtered and
--              Exit are about them.
-- Common       numbers, bytes, maps and floats as Go has them, and the lemmas on them.
--
-- How the code is written here. A struct is a record and a pointer an Option, except for the cache's
-- pointers to nodes, which are addresses on a heap since UpdateNodeTemperature writes through them. A map is
-- an association list with distinct keys, and a range loop visits it in the list's order, which stands for
-- the order that Go leaves open. An int or int64 is an unbounded integer, and counters are natural numbers;
-- safeInt, ParseInt and Atoi have the bounds of 64 bits, and sums of bytes are taken to stay within them. A
-- string is a list of bytes; ToLower, TrimSpace and Fields treat ASCII only, which is what the APIs send.
-- float64 is a parameter (Common.Float) of which no law is assumed, but for the order of temperatures in
-- Temperature.Highest; failure rates, which are constants, are in thousandths. An instant is a number of nanoseconds, and now.Sub(t) >= d is written t + d <= now.
-- Logging is left out, and so are the errors of sending and storing an alert, which the code only logs; what
-- fire sends is in State.deliver.
--
-- What the model takes as parameters: the environment (getenv), reading a file, decoding YAML, url.Parse,
-- the network (Client.Network) and decoding JSON, the output of sensors, the routes that the ServeMux picks, the
-- templates and encoding JSON, the runs of the Go toolchain, how the writes of the scripts end, splitting a host
-- from a port, SQLite's tables (Store.Sql) and its division, and the clock. sort.Slice is an insertion sort, one of the orders that it may
-- leave equal elements in. A poll's workers run in any order of their
-- locked sections. Two recursions are bounded: collect_smart_with_type by 3, one for each way to ask, enough
-- since a retry only goes from auto to sat and from sat to scsi; and the loop of FormatBytes by 6, enough since
-- an int64 is less than 1024 to the 7th.
--
-- Not modelled: opening the database, LoggingMiddleware and Server.Run, the templates and a few formats of the
-- templates' helpers, the flags and signals of cmd/glint, the SSH session, scripts/bench, the generated
-- docs/swagger, and the report of a coverage run as HTML. A context that is cancelled ends a poll or a request
-- early; the model has no such end but for a call of Submit and the loop of a collector.
pub mod Common
pub mod Model
pub mod Smart
pub mod Cache
pub mod Alerter
pub mod Config
pub mod Widget
pub mod Dashboard
pub mod Collector
pub mod Pve
pub mod Pbs
pub mod Store
pub mod Temperature
pub mod Notify
pub mod Startup
pub mod Client
pub mod Server
pub mod Scripts
pub mod Sparkline
pub mod Program
