-- ===== src/Lib.antt =====
-- Linkspan runs on a compute node. It serves an HTTP API on a loopback port or a unix socket, runs the
-- steps of a workflow document, and starts servers on the node: terminals, Jupyter, SSH for VS Code. All
-- of them are tasks of one registry, so that one StopAll ends everything and the first fatal error
-- reaches main.
--
-- The parts, their files here, and the code that they are about:
--   Tasks       internal/tasks. `Types` has the record of a task, and the `World`: the memory cells that
--               hold tasks, the registry, the channel Failed, what Stop and StopAll hold unlisted, the
--               process groups whose kill is called and those that were killed, and the unix sockets. `Listen` and `Start` are listen and
--               Task.Start up to its goroutine; `Run` has the goroutine: setState, the deferred function in
--               three parts (settle, report, conclude), start of exec.go as forked and guard_process, the
--               kill that AfterFunc calls (fire), child, spawn; `Query`
--               has Select, IsServing, Wait, Stop, StopAll and MarshalJSON, the blocking ones in the part
--               before and the part behind <-t.done. `Steps` lets any caller and any goroutine take the
--               next step, so `Reached` holds every interleaving: what a cancellation calls runs in goroutines of
--               its own. `StopAll` holds the whole call of StopAll, beside whatever the others do meanwhile.
--   Router      internal/router: the table of routes and the reply to a request (`Defs`), and Handler, the
--               table behind http.ServeMux (`Handler`).
--   Servers     internal/servers: the actions over the registry, and the life of a process.
--   Workflow    subsystems/workflow: Load (`Document`), Run and Start (`Moments`), and the goroutine and the
--               loop of Start step by step, as a step relation (`Interleaving`).
--   Tunnel      internal/tunnel, internal/tunnel/link and internal/tunnel/devtunnel: Parse (`Modes`), the
--               backoff of redial (`Redial`), New of each transport (`Transports`), and Host of devtunnel.go
--               over internal/install (`Hosting`).
--   Forward     internal/forward: Dial and Stream, and the two loops of Pipe (`Pipe`) as a step relation; and
--               carry and Run of internal/tunnel/link.
--   Install     internal/install.
--   Subsystems  subsystems/checkpoint (`Checkpoint` up to pause, `Resume`), vscode, jupyter, terminal and
--               filesystem.
--   Usage       internal/usage: readInt, scale, readProcesses and the counters of a cgroup (`Defs`),
--               readNetwork (`Network`), detect, sample, Latest and Poll (`Polling`). `Gpu` is gpu.go: the
--               values and the linker (`Values`), openNVML (`Nvml`), openDCGM (`Dcgm`), openGPUs (`Opening`).
--   Sshd        internal/sshd: guard, runCommand and New (`Defs`), and handleDirectStreamLocal with the two
--               goroutines that it leaves, as a step relation (`Streams`).
--   Startup     main.go: routes, actions and startAll (`Defs`), main from its options on (`Main`),
--               registerFlags and main from os.Args on (`CommandLine`), the variable subsystems with what
--               each package offers, and the mux of startAll (`Tree`).
--   Base, Go    The shared helpers, and what the code uses of Go's standard library: texts and numbers,
--               package flag (`Flags` where flags hold texts, `Commands` for main's), and the patterns and
--               the routing tree of http.ServeMux (`Mux`).
--
-- How they interact: an action of Router works on a state; that of Servers, `Job`, is the World of Tasks and
-- the set of processes that are being paused. Workflow runs actions on any such state. Checkpoint adds the
-- folders of checkpoints to it. Forward reads the World, and main runs startAll and then StopAll on it, and
-- serves the tree of all routers. Poll
-- of Usage keeps, from sample to sample, the connection to DCGM that the reader of Gpu holds.
--
-- Conventions. Numbers are natural numbers, and ports and counters are integers. The products of Usage and
-- the sums of GPU memory are wrapped at 64 bits, and a DCGM value is read from its 64 bits; no other number
-- comes near a machine bound. A float64 is the expression that makes it. Go's maps are association lists;
-- the order in which Go ranges over a map is that list's order, and no theorem depends on it. The error of
-- a call is its text; %q is the text between quotes, which is what it is on texts without quotes,
-- backslashes and control characters. A panic that nothing recovers is `none`. Every loop of the program is
-- a recursion on a list: the loops over time (spawn's polling, redial, the select of Start, Poll) on the
-- list of the rounds or events that happen. Only the digits of a number are taken on fuel, the number plus
-- one, which is enough since each digit divides by ten.
--
-- Arguments that stand for what is not in the repository: the answers of the kernel and the network (`Net`,
-- `Answers`), the YAML decoder, what encoding/json reads back of a snapshot, the decoder of a request's
-- body (`Decoded`), url.Parse, the parser of authorized keys, the packages ssh and sftp (`Package`), the
-- answers of NVML and of the DCGM host engine (`NvmlSample`, `Engine`), the paths that Glob and WalkDir
-- find, the clock, and what other goroutines do beside a call (`Others`, `Life`). DCGM counts no more than
-- the 32 devices that it is given room for, as it documents (`counted` of `Engine`).
--
-- A request has a method and a path that is clean and holds no escapes; ServeMux redirects any other before
-- it matches. The routing tree is the list of the entries that agree with the path so far.
--
-- Not modelled: the redirects of http.ServeMux, the order and the repeats in the header Allow of its answer
-- 405, and the help texts that registerFlags declares; the copy of a session's stdin to its command, which
-- the kernel and io.Copy do, and the goroutine that discards a channel's requests; the stack in a log
-- line; and yamux and the WebSocket handshake below Run of the link.
pub mod Base
pub mod Forward
pub mod Go
pub mod Install
pub mod Router
pub mod Servers
pub mod Sshd
pub mod Startup
pub mod Subsystems
pub mod Tasks
pub mod Tunnel
pub mod Usage
pub mod Workflow
