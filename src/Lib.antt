-- ===== src/Lib.antt =====
-- Verification of the computer-use runtime: the Rust crates under crates/, which let an agent drive
-- a desktop while a human keeps the last word.
--
-- The program. A daemon keeps one runtime. A client starts a session and gets a control token and an
-- observation token; the session takes the control lock, which one session
-- can hold at a time. The client observes the screen (frames), and acts on a frame it names, which
-- must still show the screen. The human takes over by touching the mouse, and a
-- release gives the session back.
--
-- The files, and the code that each models:
--   Prelude     shared lists, maps as association lists, tests, integers
--   Errors      crates/cu-core/src/errors.rs: ErrorCode, its numbers and names, CuError
--   Security    crates/cu-core/src/security.rs: SecretTokenHash::verify; redact_json (Security/Redact)
--   Platform    what is not in the repository: cancellation tokens of tokio_util, SHA-256, f64;
--               Platform/Sample meets its laws
--   Session     crates/cu-runtime/src/sessions.rs, crates/cu-core/src/{sessions,pointer}.rs: the
--               session, transition, the token checks; Session/Lock: ControlLock
--   Requests    crates/cu-runtime/src/requests.rs: RequestRegistry
--   Frames      crates/cu-runtime/src/frames.rs, crates/cu-core/src/frames.rs: FrameStore,
--               change_score
--   Stale       crates/cu-runtime/src/stale_frame.rs: StaleFrameChecker::check
--   Policy      crates/cu-policy/src/confirmation.rs and takeover.rs
--   Coordinates crates/cu-core/src/coordinates.rs: ImageGeometry, Region
--   Actions     crates/cu-core/src/actions.rs, crates/cu-policy/src/bounds.rs, and the actions of
--               crates/cu-driver/src/traits.rs
--   Human       crates/cu-runtime/src/human_input.rs: HumanInputMonitor
--   Queue       crates/cu-runtime/src/action_queue.rs: types and code with state; the checks
--               (Queue/Guards, Queue/Poll), physical_fallback_click (Queue/Fallback), the click
--               dispatcher (Queue/Click), run (Queue/Run)
--   Screen      crates/cu-runtime/src/runtime.rs: refresh_resolved_target, target_crop_region,
--               fingerprint_snapshot; Screen/Stabilizer: crates/cu-runtime/src/stabilizer.rs
--   Runtime     crates/cu-runtime/src/runtime.rs: the state, session_start (Runtime/Start),
--               pause, resume, takeover, release (Runtime/Control), session_stop, session_status,
--               shutdown (Runtime/Stop), cancellation and the hook for human input
--               (Runtime/Cancel), session (Runtime/Dispatch)
--   Act         crates/cu-runtime/src/runtime.rs: the types of act and observe and the state they run
--               on; observe (Act/Observe), the checks of act (Act/Admit), its waits (Act/Wait), the
--               batch in its scope (Act/Batch)
--   Inspect     crates/cu-runtime/src/runtime.rs: inspect and clamp_region_to_window
--   Daemon      crates/cu-daemon/src/jsonrpc.rs: dispatch (Daemon/Route) and its checks (Daemon/Gates);
--               verify_trace_access, verify_any_token of runtime.rs and check_access of
--               crates/cu-trace/src/manifest.rs (Daemon/Tokens); session_summary (Daemon/Summary)
--   Mouse       crates/cu-driver-macos/src/mouse.rs: the direct clicks and the drag
--   Exec        the monad of code with early returns and its rules
--   Examples    concrete inputs for the theorems
--
-- How state is modelled. The runtime is a record, passed and returned. A shared session is written
-- back into the map under its id. The state of all cancellation tokens is one store, whose
-- operations are parameters with laws. Calls to the trace, the manifest and the driver whose results
-- the code ignores are entries of a log, in order; results that it uses are inputs (StartInput).
-- Errors are values of Result; their message texts are left out. Strings are numbers, of which only
-- equality is used, except the names of the error codes and the texts whose bytes the code looks at
-- (session ids in the daemon, the keys and values of redact_json). Instants are natural numbers.
--
-- The action queue runs on a state of its own: the world that it shares with others (the session, the
-- monitor, the tokens, the clock), its variables, and the list of the inputs it asked for, each with
-- the world at that moment. A call of the driver is any function of the world, so the human, the
-- runtime and other requests may do anything while the queue waits for it; what they do between two
-- calls is taken to come with the first. The driver's calls are a record (Queue.Driver), of which a
-- theorem assumes no more than its hypotheses say. A wait runs on rounds of 50 milliseconds, as many
-- as its duration has and two more, and a theorem says that these are enough.
--
-- A request of act or observe runs on the session that it found, the runtime, and the list of the
-- inputs asked for (Act.Desk). The part of act that needs its busy lock begins with a parameter,
-- any function of the world and the runtime: what other requests did meanwhile. A reply `none` is a
-- wait that ran out of rounds; a theorem says that there is none. The fixed wait has the rounds of
-- a wait of the queue.
--
-- Interleavings. Each operation is a step; a stop is also two steps, since the code awaits the
-- trace between the state `stopping` and the release of the lock, and any step may come between
-- them. All recursion is structural; only the rounds of a wait and of
-- the stabilizer, as many as intervals fit into its maximal wait and two more, are fuel, and theorems
-- say that these are enough.
--
-- The daemon is a host: the runtime, the shutdown token, and the list of the private things that were
-- looked at, which the code does not keep and the theorems speak of. Its requests come parsed; the
-- answers of the driver and the contents of the trace files and manifests are parameters.
--
-- Not modelled: the daemon's transport, parsing and serialization, the trace files, the
-- rest of the drivers and the clients, the parsing of names, and the read and the write of a transition as two
-- steps of two threads.
pub mod Prelude
pub mod Errors
pub mod Security
pub mod Platform
pub mod Session
pub mod Coordinates
pub mod Daemon
pub mod Mouse
pub mod Actions
pub mod Requests
pub mod Frames
pub mod Stale
pub mod Policy
pub mod Human
pub mod Queue
pub mod Screen
pub mod Runtime
pub mod Examples
pub mod Exec
pub mod Act
pub mod Inspect
