-- ===== src/Tests/Supervision.antt =====
-- The theorems on the runtime file and on supervision at concrete inputs.
use hermes_auto.Config.Load.{default_config}
use hermes_auto.Gateway.Loopback.{Addresses, require_loopback}
use hermes_auto.Supervisor.Hosts.{
  bound_host, probe_host, probe_host_from, probe_host_of, probe_host-bound,
}
use hermes_auto.Json.{get, Value, obj, pos}
use hermes_auto.Prelude.Result.{Result, ok, raise}
use hermes_auto.Prelude.{
  ℕ, String, ◌=ℕ◌, if◌then◌else◌, List, none, ◌≡◌, ◌≢◌, ◌↔◌, refl, true, false, some, [], ◌∷◌,
  arith, eq_iff,
}
use hermes_auto.Runtime.Reading.{read_runtime-id, runtime_of_value-to_fields}
use hermes_auto.Runtime.{
  RuntimeFile, Contents, absent, bytes, read_runtime, runtime_of_fields, required_int, required_str,
  runtime_of_value, to_fields, show_int,
}
use hermes_auto.Supervisor.Identity.{Guarded, stop-Guarded}
use hermes_auto.Supervisor.Machine.{
  Outside, State, Answer, answered, os_error, replied, probe_ok, removed, unreachable, delivered,
  bind_free, bound, probed, read, spawned, unlinked, probe_refused,
}
use hermes_auto.Supervisor.Probing.{
  probe_health, read_file, authority, probe_of_answer, probe_of_document, port_bindable,
  port_binding, resolved_binding, bind_all, bind_one, bind_reusing, clear_runtime_if_ours,
  clear_runtime, clear_matching,
}
use hermes_auto.Supervisor.Removal.{Careful, status-Careful, status_running_iff}
use hermes_auto.Supervisor.Reporting.{
  Status, running, status, status_of_record, status_of_probe, running_status, unanswered,
  status_of_binding, clean_stale, stale_status,
}
use hermes_auto.Supervisor.Asking.{
  request_admin_shutdown, request_with, post_shutdown, servers_signalled, wait_for_exit,
  instance_gone,
}
use hermes_auto.Supervisor.Stopping.{
  stop, stop_of_status, stop_read, stop_recorded, after_request, finish_stop,
}
use hermes_auto.Supervisor.Spawning.{Launcher, spawn, try_strategies, launch, grace}
use hermes_auto.Supervisor.Starting.{
  restart, restart_from, restart_stopped, restart_started, start, start_of_status, start_spawned,
  await_start,
}
use hermes_auto.Supervisor.Vacancy.{Justified, start-Justified}
use hermes_auto.Supervisor.Replacing.{restart-replaces}
use hermes_auto.Text.{strip, lstrip, rstrip, concat, show, has_char}

abbrev gateway : RuntimeFile
gateway = record {
  pid = pos 7;
  port = pos 8787;
  admin_port = pos 8788;
  instance_id = "a";
  started_at = "2026-01-01T00:00:00Z";
  exe = "python";
}

-- A gateway that answers, holds its port and survives its signals.
abbrev stubborn : Outside (Unit {0})
stubborn = record {
  target = "gateway.json";
  is_windows = false;
  loads = λ raw. ok (obj (to_fields gateway));
  str_of = λ value. "1";
  read_bytes = λ w. (bytes (1 ∷ []), w);
  unlink = λ w. (removed, w);
  healthz = λ url w. (answered (1 ∷ []), w);
  getaddrinfo = λ host port w. (some ("127.0.0.1" ∷ []), w);
  bind = λ reuse address w. (false, w);
  post = λ url authorization w. (unreachable "refused", w);
  kill = λ pid hard w. (delivered, w);
  sleep = λ w. w;
}

abbrev beginning : State (Unit {0})
beginning = record { outside = tt; trace = [] }

Guarded-nil : Guarded []
unfolding Guarded
Guarded-nil = tt

Careful-nil : Careful []
unfolding Careful
Careful-nil = tt

stop-Guarded_example : Guarded (stop stubborn "127.0.0.1" (some "t") 1 1 1 beginning).1.trace
stop-Guarded_example = stop-Guarded stubborn "127.0.0.1" (some "t") 1 1 1 beginning Guarded-nil

status_running_iff_example : ((status stubborn "127.0.0.1" beginning).0.is_running ≡ true) ↔ (
    (rf : RuntimeFile) × ((read_file stubborn beginning).0 ≡ ok (some rf))
    × ((probe_health stubborn "127.0.0.1" rf.port (read_file stubborn beginning).1).0
        ≡ probe_ok rf.instance_id))
status_running_iff_example = status_running_iff stubborn "127.0.0.1" beginning

named : strip gateway.instance_id ≢ ""
unfolding strip lstrip rstrip
named h = ground (arith, eq_iff "a" "", h)

runtime_of_value-to_fields_example :
    runtime_of_value "gateway.json" (obj (to_fields gateway)) ≡ ok gateway
runtime_of_value-to_fields_example = runtime_of_value-to_fields "gateway.json" gateway named

gateway_read :
    read_runtime "gateway.json" (λ raw. ok (obj (to_fields gateway))) (bytes (1 ∷ []))
    ≡ ok (some gateway)
unfolding read_runtime runtime_of_value runtime_of_fields required_int required_str to_fields strip
    lstrip rstrip
gateway_read = refl

read_runtime-id_example : strip gateway.instance_id ≢ ""
read_runtime-id_example =
    read_runtime-id "gateway.json" (λ raw. ok (obj (to_fields gateway))) (bytes (1 ∷ [])) gateway
      gateway_read

abbrev launcher : {W : Type 0} → (W → W) → Launcher W
launcher born = record {
  log_path = "gateway.log";
  timeout = "10.0";
  open_log = λ w. (none, w);
  popen = λ name w. (ok (pos 8), born w);
  poll = λ pid w. (none, w);
  kill_child = λ pid w. w;
}

Justified-nil : Justified []
unfolding Justified
Justified-nil = tt

abbrev successor : RuntimeFile
successor = record gateway { pid = pos 8; instance_id = "b" }

-- The first gateway runs, then nothing does, then its successor.
data Phase : Type 0 where
  first_runs : Phase
  none_runs : Phase
  second_runs : Phase

abbrev recorded_in : Phase → Contents
recorded_in first_runs = bytes (1 ∷ [])
recorded_in none_runs = absent
recorded_in second_runs = bytes (2 ∷ [])

abbrev answer_in : Phase → Answer
answer_in first_runs = answered (1 ∷ [])
answer_in none_runs = os_error
answer_in second_runs = answered (2 ∷ [])

abbrev document_of : List ℕ → Result String Value
document_of [] = raise "JSONDecodeError"
document_of (n ∷ raw) =
    if n =ℕ 1 then ok (obj (to_fields gateway)) else ok (obj (to_fields successor))

-- A gateway that exits when it is asked to.
abbrev obedient : Outside Phase
obedient = record {
  target = "gateway.json";
  is_windows = false;
  loads = document_of;
  str_of = λ value. "1";
  read_bytes = λ w. (recorded_in w, w);
  unlink = λ w. (removed, w);
  healthz = λ url w. (answer_in w, w);
  getaddrinfo = λ host port w. (some ("127.0.0.1" ∷ []), w);
  bind = λ reuse address w. (false, w);
  post = λ url authorization w. (replied 202 (1 ∷ []), none_runs);
  kill = λ pid hard w. (delivered, w);
  sleep = λ w. w;
}

abbrev at_first : State Phase
at_first = record { outside = first_runs; trace = [] }

abbrev replaced : Status
replaced = record {
  is_running = true;
  instance_id = some "b";
  port = some (pos 8787);
  pid = some (pos 8);
  detail = "running on 127.0.0.1:8787 (instance b, pid 8) [spawn: start_new_session]";
  kind = running;
}

runs_first : (status obedient "127.0.0.1" at_first).0.is_running ≡ true
unfolding status status_of_record status_of_probe running_status authority probe_health
    probe_of_answer probe_of_document read_file read_runtime runtime_of_value runtime_of_fields
    required_int required_str to_fields strip lstrip rstrip get concat show_int show has_char
runs_first = refl

named_first : (status obedient "127.0.0.1" at_first).0.instance_id ≡ some "a"
unfolding status status_of_record status_of_probe running_status authority probe_health
    probe_of_answer probe_of_document read_file read_runtime runtime_of_value runtime_of_fields
    required_int required_str to_fields strip lstrip rstrip get concat show_int show has_char
named_first = refl

restarted :
    (restart obedient
      (launcher (λ _. second_runs))
      "127.0.0.1"
      (some "t")
      (1, 1, 1)
      0
      1
      1
      at_first).0
    ≡ ok replaced
unfolding status status_of_record status_of_probe running_status authority probe_health
    probe_of_answer probe_of_document read_file read_runtime runtime_of_value runtime_of_fields
    required_int required_str to_fields strip lstrip rstrip get concat show_int show has_char
    restart restart_from restart_stopped restart_started start start_of_status spawn try_strategies
    launch grace start_spawned await_start stop stop_of_status stop_read stop_recorded
    request_admin_shutdown request_with post_shutdown servers_signalled after_request wait_for_exit
    instance_gone port_bindable port_binding resolved_binding bind_all bind_one bind_reusing
    finish_stop clear_runtime_if_ours clear_runtime clear_matching
restarted = refl

restart-replaces_example : (replaced.is_running ≡ true) × (replaced.instance_id ≢ some "a")
restart-replaces_example =
    restart-replaces obedient (launcher (λ _. second_runs)) "127.0.0.1" (some "t") (1, 1, 1) 0 1 1
      at_first "a" replaced runs_first named_first restarted

-- A gateway died and left its runtime file, which the removal takes away.
abbrev answer_to_probe : Phase → Answer
answer_to_probe first_runs = os_error
answer_to_probe none_runs = os_error
answer_to_probe second_runs = answered (2 ∷ [])

abbrev deserted : Outside Phase
deserted = record obedient {
  unlink = λ w. (removed, none_runs);
  healthz = λ url w. (answer_to_probe w, w);
  bind = λ reuse address w. (true, w);
}

abbrev removal : State Phase
removal = (status deserted "127.0.0.1" at_first).1

removal_done : removal.trace ≡ (
    unlinked
    ∷ read (ok (some gateway))
    ∷ bound (pos 8787) bind_free
    ∷ probed (pos 8787) probe_refused
    ∷ read (ok (some gateway))
    ∷ [])
unfolding status status_of_record status_of_probe unanswered status_of_binding clean_stale
    stale_status authority probe_health probe_of_answer probe_of_document read_file read_runtime
    runtime_of_value runtime_of_fields required_int required_str to_fields strip lstrip rstrip get
    concat show_int show has_char port_binding resolved_binding bind_all bind_one bind_reusing
    clear_runtime_if_ours clear_runtime clear_matching
removal_done = refl

status-Careful_example : Careful removal.trace
status-Careful_example = status-Careful deserted "127.0.0.1" at_first Careful-nil

abbrev beginning_again : State Phase
beginning_again = (start deserted (launcher (λ _. second_runs)) "127.0.0.1" 0 1 at_first).1

spawned_once : beginning_again.trace ≡ (
    probed (pos 8787) (probe_ok "b")
    ∷ read (ok (some successor))
    ∷ spawned "start_new_session"
    ∷ removal.trace)
unfolding status status_of_record status_of_probe unanswered status_of_binding clean_stale
    stale_status running_status authority probe_health probe_of_answer probe_of_document read_file
    read_runtime runtime_of_value runtime_of_fields required_int required_str to_fields strip lstrip
    rstrip get concat show_int show has_char port_binding resolved_binding bind_all bind_one
    bind_reusing clear_runtime_if_ours clear_runtime clear_matching start start_of_status spawn
    try_strategies launch grace start_spawned await_start
spawned_once = refl

start-Justified_example : Justified beginning_again.trace
start-Justified_example =
    start-Justified deserted "127.0.0.1" (launcher (λ _. second_runs)) 0 1 at_first Justified-nil

abbrev net : Addresses
net = record { hostname = λ url. ok (some "::1"); is_loopback = λ host. some true; repr = λ s. s }

probe_host-bound_example :
    probe_host net (some (default_config none))
    ≡ bound_host net (require_loopback net (default_config none).gateway.url)
probe_host-bound_example = probe_host-bound net (default_config none)

probed_host : probe_host net (some (default_config none)) ≡ "::1"
unfolding probe_host probe_host_from probe_host_of
probed_host = refl
