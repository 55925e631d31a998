-- ===== src/Supervisor/Stopping.antt =====
-- supervisor.py: `stop` and its escalation.
use hermes_auto.Supervisor.Asking.{request_admin_shutdown, instance_gone, wait_for_exit, signal_pid}
use hermes_auto.Prelude.Result.{Result, ok, raise}
use hermes_auto.Prelude.{
  ℕ, String, Bool, true, false, not, Option, some, none, List, [], ◌∷◌, ◌++◌, ◌==◌, if◌then◌else◌,
}
use hermes_auto.Runtime.{RuntimeFile}
use hermes_auto.Supervisor.Machine.{Probe, probe_ok, Outside, Program, ◌>>=◌, done}
use hermes_auto.Supervisor.Probing.{probe_health, read_file, clear_runtime_if_ours}
use hermes_auto.Supervisor.Reporting.{Status, not_started, foreign, unresponsive, status, Kind}
use hermes_auto.Text.{concat, join}

-- the exceptions of `stop`
pub data StopError : Type 0 where
  supervisor_error : String → StopError
  runtime_file_error : String → StopError

abbrev pub is_stranger : Kind → Bool
is_stranger foreign = true
is_stranger unresponsive = true
is_stranger k = false

-- How the escalation ended: the instance has gone, or the loop is over.
pub data Escalated : Type 0 where
  gone : List String → Escalated
  ended : List String → Escalated

-- How one iteration of the loop ended: by `return`, by `break`, or by going on.
pub data Rung : Type 0 where
  returned : List String → Rung
  broken : List String → Rung
  next : List String → Rung

abbrev pub abandoned : String
abandoned =
    "escalation abandoned: the recorded instance_id no longer answers on that port, so the recorded pid may belong to an unrelated process now"

abbrev rung_name : Bool → String
rung_name true = "kill: "
rung_name false = "terminate: "

abbrev pub is_confirmed : RuntimeFile → Probe → Bool
is_confirmed record_ (probe_ok answered) = answered == record_.instance_id
is_confirmed record_ p = false

abbrev pub with_step : Bool → List String → Bool × String → List String
with_step hard steps sent = steps ++ concat (rung_name hard ∷ sent.1 ∷ []) ∷ []

abbrev pub still_answering : List String → StopError
still_answering steps = supervisor_error (
    concat ("the gateway is still answering after the full stop sequence: " ∷ join "; " steps ∷ []))

abbrev pub first_step : Bool × String → List String
first_step request = concat ("admin shutdown: " ∷ request.1 ∷ []) ∷ []

abbrev pub refusing_to_stop : Status → StopError
refusing_to_stop current = supervisor_error (concat ("refusing to stop: " ∷ current.detail ∷ []))

module _ {W : Type 0} (os : Outside W) where
  -- an iteration of the loop of `stop`, once a signal is sent
  unfoldable pub await_rung : String → RuntimeFile → ℕ → List String → Program W Rung
  unfolding wait_for_exit
  await_rung host record_ polls steps = do
    exited ← wait_for_exit os host record_ polls
    done (if exited then returned steps else next steps)

  -- after `_signal_pid`
  unfoldable pub signal_sent :
      String → RuntimeFile → ℕ → List String → Bool × String → Program W Rung
  unfolding await_rung
  signal_sent host record_ polls steps sent =
      if sent.0 then await_rung host record_ polls steps else done (broken steps)

  -- once the identity is confirmed
  unfoldable pub signal_rung : String → RuntimeFile → List String → Bool → ℕ → Program W Rung
  unfolding signal_pid signal_sent concat
  signal_rung host record_ steps hard polls = do
    sent ← signal_pid os record_.pid hard
    signal_sent host record_ polls (with_step hard steps sent) sent

  -- after the probe
  unfoldable pub confirm_rung :
      String → RuntimeFile → List String → Bool → ℕ → Probe → Program W Rung
  unfolding signal_rung
  confirm_rung host record_ steps hard polls probe =
      if is_confirmed record_ probe
      then signal_rung host record_ steps hard polls
      else done (broken (steps ++ abandoned ∷ []))

  abbrev pub probe_rung : String → RuntimeFile → List String → Bool → ℕ → Program W Rung
  probe_rung host record_ steps hard polls =
      probe_health os host record_.port >>= confirm_rung host record_ steps hard polls

  -- an iteration of the loop of `stop`
  unfoldable pub try_rung : String → RuntimeFile → List String → Bool → ℕ → Program W Rung
  unfolding instance_gone probe_health confirm_rung
  try_rung host record_ steps hard polls = do
    has_gone ← instance_gone os host record_
    if has_gone then done (returned steps) else probe_rung host record_ steps hard polls

  abbrev pub continue_with : Rung → (List String → Program W Escalated) → Program W Escalated
  continue_with (returned steps) k = done (gone steps)
  continue_with (broken steps) k = done (ended steps)
  continue_with (next steps) k = k steps

  -- the loop of `stop` over `hard`, with the polls of each wait
  unfoldable pub escalate :
      String → RuntimeFile → List String → List (Bool × ℕ) → Program W Escalated
  unfolding try_rung
  escalate host record_ steps [] = done (ended steps)
  escalate host record_ steps ((hard, polls) ∷ rungs) = do
    rung ← try_rung host record_ steps hard polls
    continue_with rung (λ steps'. escalate host record_ steps' rungs)

  -- `_finish_stop`
  unfoldable pub finish_stop : RuntimeFile → List String → Program W Status
  unfolding clear_runtime_if_ours concat join
  finish_stop record_ steps = do
    cleared ← clear_runtime_if_ours os record_.instance_id
    done (record {
      is_running = false;
      instance_id = none;
      port = some record_.port;
      pid = none;
      detail = concat ("stopped (" ∷ join "; " steps ∷ ")" ∷ []);
      kind = not_started;
    })

  abbrev pub finished : RuntimeFile → List String → Program W (Result StopError Status)
  finished record_ steps = finish_stop record_ steps >>= λ final. done (ok final)

  -- the end of `stop`, after the loop
  unfoldable pub conclude : String → RuntimeFile → Escalated → Program W (Result StopError Status)
  unfolding finish_stop status concat join
  conclude host record_ (gone steps) = finished record_ steps
  conclude host record_ (ended steps) = do
    final ← status os host
    if final.is_running then done (raise (still_answering steps)) else finished record_ steps

  abbrev pub escalated :
      String → RuntimeFile → List String → List (Bool × ℕ) → Program W (Result StopError Status)
  escalated host record_ steps rungs = escalate host record_ steps rungs >>= conclude host record_

  abbrev pub wait_if : Bool → String → RuntimeFile → ℕ → Program W Bool
  wait_if true host record_ polls = wait_for_exit os host record_ polls
  wait_if false host record_ polls = done false

  -- after `_request_admin_shutdown`
  unfoldable pub after_request :
      String
      → ℕ
      → List (Bool × ℕ)
      → RuntimeFile
      → Bool × String
      → Program W (Result StopError Status)
  unfolding wait_for_exit finish_stop escalate conclude concat
  after_request host polls rungs record_ request = do
    exited ← wait_if request.0 host record_ polls
    if exited
        then finished record_ (first_step request)
        else escalated host record_ (first_step request) rungs

  -- `stop`, once a running gateway's record is read. `polls` counts the polls of the first wait, and
  -- `rungs` holds False and True with the polls of theirs.
  unfoldable pub stop_recorded :
      String
      → Option String
      → ℕ
      → List (Bool × ℕ)
      → RuntimeFile
      → Program W (Result StopError Status)
  unfolding request_admin_shutdown after_request
  stop_recorded host admin_token polls rungs record_ =
      request_admin_shutdown os host record_.admin_port admin_token
      >>= after_request host polls rungs record_

  -- `stop`, after its own read of the runtime file
  unfoldable pub stop_read :
      String
      → Option String
      → ℕ
      → List (Bool × ℕ)
      → Result String (Option RuntimeFile)
      → Program W (Result StopError Status)
  unfolding status stop_recorded
  stop_read host admin_token polls rungs (raise e) = done (raise (runtime_file_error e))
  stop_read host admin_token polls rungs (ok none) = status os host >>= λ again. done (ok again)
  stop_read host admin_token polls rungs (ok (some record_)) =
      stop_recorded host admin_token polls rungs record_

  abbrev pub stop_running :
      String → Option String → ℕ → List (Bool × ℕ) → Program W (Result StopError Status)
  stop_running host admin_token polls rungs =
      read_file os >>= stop_read host admin_token polls rungs

  -- `stop`, after its first status
  unfoldable pub stop_of_status :
      String → Option String → ℕ → List (Bool × ℕ) → Status → Program W (Result StopError Status)
  unfolding read_file stop_read concat
  stop_of_status host admin_token polls rungs current =
      if is_stranger current.kind
      then done (raise (refusing_to_stop current))
      else (if not current.is_running
          then done (ok current)
          else stop_running host admin_token polls rungs)

  -- `stop`, of a configuration whose `probe_host` is `host`; `admin_token` is what
  -- `read_admin_token` returns, or nothing if it raises. The three waits have `polls`,
  -- `term_polls` and `kill_polls` polls.
  unfoldable pub stop : String → Option String → ℕ → ℕ → ℕ → Program W (Result StopError Status)
  unfolding status stop_of_status
  stop host admin_token polls term_polls kill_polls =
      status os host
      >>= stop_of_status host admin_token polls ((false, term_polls) ∷ (true, kill_polls) ∷ [])
