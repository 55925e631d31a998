-- ===== src/Lib.antt =====
-- The focused automatic router of hermes-auto: a local gateway that admits a chat completion request,
-- classifies it, chooses among the configured candidates, relays it to the first candidate that
-- answers, and remembers the candidate for the session; its configuration, its admin API and its log
-- sink; and the supervision of the gateway's process.
--
-- The parts, and the files that model them (paths are from the repository's root):
-- - src/hermes_auto/routing/selector.py: Routing/Request (what is read of a request, and the score),
--   Routing/Candidates (tiers, eligibility and order), Routing/Router (`DecisionRouter`). A
--   `RouteDecision` is an object that the session table and the deque share, so the router has a heap
--   and a `Ref` is an object's identity. `route`, `finalize` and the rest return the router after them.
-- - src/hermes_auto/gateway/ingress.py and errors.py: Gateway/Ingress and Gateway/Errors, with errors
--   as values of `Result GatewayError`.
-- - src/hermes_auto/gateway/upstream.py: Gateway/Upstream (headers, credentials, the client pool).
-- - src/hermes_auto/gateway/app.py and relay.py: Gateway/Relay (the rounds and the fallback loop, with the
--   exceptions that leave them), Gateway/Relay/Chat (`chat_completions`, which puts the ingress, the router
--   and the relay together, for a request that nothing interleaves) and Gateway/Relay/Chat/Serving (requests
--   that interleave where the handler awaits its upstreams).
-- - src/hermes_auto/config.py: Config, the records and the migration; Config/Yaml the values of a
--   document and the loader's surroundings, Config/Checks the checks of single values, Config/Build the
--   builders, Config/Load `load_config`. What a loaded configuration promises is in Config/Candidates,
--   Config/Ports and Config/Loading, which puts the loader and the router together.
-- - src/hermes_auto/gateway/auth.py and admin.py: Gateway/Auth (tokens, and the readback of
--   permissions), Gateway/Auth/Writing (`secure_write`, on a disk that other processes share) and
--   Gateway/Admin (the scope check, its middleware and two of the handlers).
-- - src/hermes_auto/gateway/main.py: Gateway/Loopback (`require_loopback`). The other endpoints of
--   app.py and the exception handlers of errors.py: Gateway/Endpoints.
-- - src/hermes_auto/health/probe.py: Health.
-- - src/hermes_auto/telemetry/redaction.py: Telemetry/Events (what is logged, as a tree), and
--   Telemetry/Redaction (`redact`), Telemetry/Salt (the salt file and the digest) and Telemetry/Sink
--   (`sanitize_url`, the copy that the formatter makes, `get_logger`). `levels` counts the levels that are left of the 13, so that the
--   recursion is structural also for a value that contains itself.
-- - src/hermes_auto/state/runtime.py: Runtime, the runtime file and its validation.
-- - src/hermes_auto/supervisor.py: Supervisor/Machine is the outside world behind an interface and the
--   trace of what is done to it, Supervisor/Probing the probes and the removal of the runtime file,
--   Supervisor/Reporting `status`, Supervisor/Asking and Supervisor/Stopping `stop`, Supervisor/Spawning
--   and Supervisor/Starting `start` and `restart`, Supervisor/Hosts `probe_host`. The outside world is an arbitrary state
--   that each call may change, so that other processes may act between any two calls.
-- - Text, Dict, Json and Python hold what the program uses of its language; Prelude what the modules
--   share.
--
-- The supervisor's `_probe_health` lets an HTTPException of http.client through; a run of the model has no
-- outcome for it, and ends in the program where the probe is.
--
-- The supervisor's `_probe_health` lets an HTTPException of http.client through; a run of the model has no
-- outcome for it, and ends in the program where the probe is.
--
-- Parameters, of which nothing is assumed: `json.loads`, `repr`, `str` and the tables of characters
-- (Python), the digests of the router, the schema validators, what an upstream answers (`stream` and
-- `complete`), the operating system (`Outside`, `Launcher`), PyYAML, `urlsplit`, the environment and
-- the files of the loader (`Loader`), the account and the output of `icacls` (`Account`, `Icacls`), and
-- the digest of session ids. Of `casefold` the log sink assumes that the names it adds itself are not
-- folded onto a name that it drops. Texts are sequences of Unicode scalar values, a
-- float is its `repr`, and `lower` is that of the ASCII letters. `context_window * 0.9` is computed on
-- natural numbers, which agrees with the float below 2 to the 50. The loops over lists are structural
-- recursion. The polls of each wait are as many as the clock allows before its deadline; their number
-- is an argument, and the statements hold of every number.
--
-- Not modelled: the sockets and the process of the gateway, the admin status page, the rotation of the
-- log, the installer, the commands and discovery: they are input and output around the parts above, or
-- texts for an operator.
pub mod Prelude
pub mod Text
pub mod Dict
pub mod Json
pub mod Config
pub mod Routing
pub mod Python
pub mod Runtime
pub mod Supervisor
pub mod Telemetry
pub mod Health
pub mod Gateway
pub mod Tests
