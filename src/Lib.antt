-- ===== src/Lib.antt =====
-- Tapio: agents observe kernel events on their nodes and send them in batches to a controller, which
-- gives every agent its configuration. This library models the messages between the two, the
-- profiles from which configurations are compiled, the controller's whole state machine, and what an
-- agent makes of a configuration and of a buffer of events.
--
-- Prelude    what the parts share: results, lists, maps in key order, texts by code points and by
--            UTF-8 bytes, decimals, and the wrap-around of u32 and u64.
-- Wire       tapio-wire/src/lib.rs and tapio-wire/src/config.rs: the structs (Types), each `validate`
--            method (Validate, Facts), and what they accept (Accepted).
-- Profile    tapio-profile/src/lib.rs: the document's structs (Types), `validate` with the overrides
--            (Validate, Names), `compile` (Compile); f64 is a parameter with laws (Floats).
-- Controller tapio-controller/src/lib.rs: `InnerState` and the operations that change it (State), the
--            queries (Queries), sequence tracking (Sequence), the handlers (Http), the publication of
--            a configuration (Publish), and with tapio-controller/src/main.rs the choice of the first
--            one (Startup). History runs requests in any order.
-- Agent      tapio-agent/src/sink/controller.rs: the bounded queue of the controller sink (Queue), the
--            loop of its worker (Turns), how the worker splits its buffer into batches (Split) and sends
--            each with a bounded number of attempts (Sink); tapio-agent/src/config.rs with
--            tapio-common/src/ebpf.rs: the local file (Toml) and the structure for the kernel programs
--            that an agent fills from a configuration (Config); with tapio-agent/src/heartbeat.rs,
--            controller.rs and registration.rs what it takes from a hello and reports (Heartbeat), the
--            registration loop as a state machine (Register) and the polling loop (Poll); the kernel maps
--            that carry a configuration, of observer/mod.rs (Carriers); the HTTP client of httpc.rs
--            (Httpc); the other sinks, of sink/http.rs (HttpSink) and sink/otlp.rs (OtlpSink,
--            OtlpRecords), with those of sink/file.rs and sink/stdout.rs, the sinks that main.rs creates
--            and its fan-out (Sinks); the arguments of main.rs (Args); the counters of metrics.rs
--            (Metrics). Together runs an agent against a controller.
-- Time       the timestamps: dates of tapio-common/src/occurrence.rs and of the controller sink (Civil),
--            and their texts, written by the one and read by the other (Stamp).
-- Observer   tapio-common/src/occurrence.rs (Occurrence), the raw events of tapio-common/src/ebpf.rs
--            (Events, Decode), what each observer of tapio-agent/src/observer makes of them (Network,
--            Storage, Container, NodePmc), their common drain (Drain), their start and their loops (Run),
--            the lookup of memory limits (Cgroup), and what the controller sink makes of an occurrence
--            (Convert).
-- Cli        tapio-cli/src/main.rs: reading the occurrences, and the statistics and the verdict of the
--            health command (Health), the commands recent and status with durations (Recent), the rounds
--            of the command watch (Watch), and the MCP server (JsonRpc, Mcp).
--
-- The wire joins the parts: the controller answers a hello and a configuration request with what
-- Profile compiles, the agent's Config reads that, and the controller judges the batches that the
-- agent's Sink sends by the limits it announced. Its events come from the observers: a raw event becomes
-- an anomaly, an occurrence with its timestamp, and the event that the controller checks.
--
-- State is passed explicitly: an operation takes the state before and gives the state after with its
-- reply, an early return with `?` is the error of a result, and a lock held through a critical section
-- makes that section one step. Numbers are natural numbers with the wrap-around and the saturation of
-- the code written out. A map is a list of entries in key order.
--
-- Bounds: a decimal is printed with twenty digits of fuel, enough for every u64; the attempts of one
-- batch are the code's own count of retries. UTF-8 is decoded with the number of bytes as fuel, since
-- every character takes at least one. A number of 64 bits is a power of two if it is one of the 64 below
-- 2 ^ 64. The counters that a sink or an observer keeps are not
-- bounded; those of Metrics, of a fan-out and of the polling loop wrap at 64
-- bits.
--
-- Parameters, as the code is not the repository's: f64 arithmetic, YAML, JSON and SHA-256, the file
-- system, the clock, header values, the identifiers of occurrences, the printed forms of f64, the kernel's
-- answer to a map update, the HTTP exchange of the agent with the controller, sockets and the command
-- line's arguments.
--
-- Not modelled: the kernel programs under ebpf/, which are C; the system calls with which the observers
-- attach programs and open counters, whose results are parameters; sockets, protobuf and gzip; the table
-- that the command health writes; logging and process start-up.
pub mod Prelude
pub mod Wire
pub mod Profile
pub mod Controller
pub mod Agent
pub mod Time
pub mod Observer
pub mod Cli
