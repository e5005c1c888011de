-- ===== src/Lib.antt =====
-- nixbox is a web application that manages NixOS containers: a Go server (internal/, cmd/) keeps
-- workloads as Nix files and applies them with nixos-rebuild, and pages rendered by it carry
-- TypeScript (web/src/) and two editor bundles (web/editor/) that talk to it over forms,
-- server-sent events and WebSockets.
--
-- Auth: who gets in. Auth.Sessions is the sessions table of internal/store/sessions.go, a list of
-- rows with the queries as functions. Auth.Limiter is internal/server/loginlimit.go, a map from
-- addresses to failure times; Auth.Limiter.History specifies it by a history that forgets nothing.
-- Auth.Gate is GroupGate.Authorize of internal/auth/gate.go, with the os/user lookups as
-- parameters. Auth.Redirect is isLocalURL and safeNext, and Auth.Login is requireAuth with the
-- login and logout handlers of internal/server/handlers_auth.go: a request and the server's state
-- give a new state and a response. Whether auth is on, SHA-256, PAM, the account database and
-- url.QueryEscape are the record `Env`. The clock and the random token of a login are given with
-- each request. The proofs about all sequences of requests are in Auth.Login.Safety, those about
-- one request in Auth.Login.Rows.
--
-- Nix: what reaches the Nix evaluator. Nix.Names is ValidateName and ValidateDisplayName of
-- internal/nix/stateflake.go and validateContainerName of internal/nix/types.go, Nix.Ports is
-- internal/nix/ports.go (Nix.Ports.Order the sort, Nix.Ports.Numbers the decimal numbers,
-- Nix.Ports.Fields the stored string, Nix.Ports.RoundTrip the whole way), Nix.Quote is nixStr of
-- internal/nix/flakes.go beside a reader of Nix's documented string syntax, and Nix.Rebuild is
-- Pipeline.Rebuild of internal/nix/rebuild.go, which gives the commands it has run and its outcome;
-- what a command does is a parameter.
--
-- Store.Workloads is the workloads and revisions of internal/store/store.go: rows in lists, with a
-- query as a function and an update that can fail as one into an option. Apply is startApply of
-- internal/server/handlers_system.go, over Nix.Rebuild and Store.Workloads, with the state that
-- handlers_workload.go shows: Apply.Marks is about the snapshot and its marks, Apply.Badge about a
-- job with the edits that come while it runs. Jobs is internal/jobs/jobs.go: threads stand at the
-- points of Start and its goroutine between two calls, a step moves one of them, and a reply in the
-- step says how the call went. Jobs.Exclusive, Jobs.Records, Jobs.Tracked and Jobs.Progress are
-- about all sequences of steps; Jobs.Recover about FinishJob and RecoverStale.
--
-- Handlers is the requests of internal/server/handlers_workload.go that change a workload, over
-- Store.Workloads, Nix.Ports and the workload files that WriteWorkload of
-- internal/nix/stateflake.go writes; a reply says which calls fail. Handlers.Requests is the
-- creation of a workload and requests in any order, over a registry of types that is a parameter,
-- Handlers.Index the entries of regenerateIndex, Handlers.Firewall the host ports that WriteIndex
-- makes of them, Handlers.Keys, Handlers.Files, Handlers.Whole and Handlers.Mirror are about files
-- and revisions, Handlers.Saved about a save and the index after it, Handlers.Destroy about the
-- answer to a destroy, and Handlers.Removal is the end of its job.
--
-- Server: the rest of internal/server. Server.Tail is handleJobEvents of internal/server/sse.go: a
-- poll is a turn of its loop with what the log file and the jobs table answer, and the loop gives
-- the bytes that it sends; Server.Tail.Lines, Polls and Stops are about these, and
-- Server.Tail.Page follows them into Web.Streams, with EventSource as a parameter. Server.Metrics
-- is the percentages of handleMetrics over parseCPUStat of internal/metrics/metrics.go.
-- Store.Secrets and Store.Flakes are internal/store/secrets.go and internal/store/flakes.go with
-- the times that their calls read. Server.Secrets is internal/server/handlers_secrets.go with the
-- ciphertext files of internal/nix/secrets.go and what startApply does to them and to the index on
-- disk, Server.Secrets.Index is indexSecrets of internal/server/handlers_system.go,
-- Server.Secrets.Requests takes requests in any order; Server.Secrets.Whole, Server.Secrets.Kept
-- and Server.Secrets.Pruned are about the files, and Server.Secrets.Stamps and
-- Server.Secrets.Badges about the times and the badge that they give. Server.Secrets.Dialog joins
-- them to the Edit dialog of Web.Dialogs, and Server.Secrets.Delivered and Server.Secrets.Edited are
-- about what it posts. Server.Flakes is
-- internal/server/handlers_flake.go, over Nix.Flake, which is renderFlake of internal/nix/flakes.go.
-- I18n is internal/i18n/i18n.go, whose order of lookup I18n.Fallback and I18n.Preferred describe.
--
-- Web: the pages. An element is a record of the attributes that the listeners read and write, a
-- listener is a function on it, and `run` takes any sequence of events. Web.NewWorkload is
-- web/src/new-workload.ts, Web.Unsaved and the Tab key in Web.Editor are web/src/workload-form.ts,
-- Web.Confirm is the confirmation of web/src/dialogs.ts, Web.Dialogs its secret and flake-input
-- dialogs, Web.Modals its listeners that open and close a dialog, Web.Tabs is web/src/tabs.ts,
-- Web.Streams is web/src/jobs.ts and web/src/journal.ts, Web.Theme is web/src/chrome.ts,
-- Web.PortRows is initPortEditor of web/src/workload-form.ts, over Web.Unsaved and Nix.Ports,
-- Web.Metrics is web/src/metrics.ts, whose float operations round by a parameter, Web.Format is
-- fmtBytes of web/src/util.ts and FormatBytes of internal/metrics/metrics.go, Web.Editor is mount
-- and init of web/editor/index.js, and Web.Terminal is web/editor/terminal.js. What the browser
-- does by itself (a socket opens only while it is connecting, a closed stream delivers nothing) is
-- in the events. Web.NewWorkload meets the server at Nix.Names.validate_name, and Web.Format both
-- formatters of byte counts.
--
-- Bounds: loops are structural recursion. The loop of FormatBytes has 6 rounds of fuel, enough for
-- the exponents that a count below 2 ^ 60 needs, and a decimal number `n` has fuel `n + 1`, more
-- than it has digits. Byte counts stand for floats up to 2 ^ 53, which hold them exactly. Times are
-- natural numbers of nanoseconds.
--
-- Not modelled: the text of index.nix beyond its host ports and secrets, the loading of catalogs,
-- ParseAcceptLanguage and the arguments of messages, load averages, memory and the disk, pages that
-- only read, the journal stream and the terminal proxy, which are goroutines around processes;
-- faults of the database but where a request is given them, logging, rendering, cookie attributes,
-- the log writer. Requests on secrets and flake inputs come one after another. What is left of the
-- browser side is imports, the theme of the editor, constant styles and the start of each listener
-- on load; PAM, age, xterm, CodeMirror and htmx are other projects' code.
pub mod Apply
pub mod Auth
pub mod Handlers
pub mod I18n
pub mod Jobs
pub mod Nix
pub mod Prelude
pub mod Server
pub mod Store
pub mod Tests
pub mod Web
