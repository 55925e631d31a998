-- ===== src/Supervisor/Reporting.antt =====
-- supervisor.py: `status`.
use hermes_auto.Json.{ℤ}
use hermes_auto.Prelude.Result.{Result, ok, raise}
use hermes_auto.Prelude.{
  String, Bool, true, false, Option, some, none, [], ◌∷◌, ◌==◌, if◌then◌else◌,
}
use hermes_auto.Runtime.{RuntimeFile, show_int}
use hermes_auto.Supervisor.Machine.{
  Probe, probe_ok, probe_refused, probe_timeout, probe_foreign, Binding, bind_free, bind_residue,
  bind_held, Outside, Program, ◌>>=◌, done,
}
use hermes_auto.Supervisor.Probing.{
  authority, probe_health, port_binding, read_file, clear_runtime_if_ours,
}
use hermes_auto.Text.{concat}

pub data Kind : Type 0 where
  running : Kind
  not_started : Kind
  stale_cleaned : Kind
  foreign : Kind
  unresponsive : Kind
  corrupt : Kind

pub record Status : Type 0 where
  pub is_running : Bool
  pub instance_id : Option String
  pub port : Option ℤ
  pub pid : Option ℤ
  pub detail : String
  pub kind : Kind

abbrev pub corrupt_status : String → Status
corrupt_status e = record {
  is_running = false;
  instance_id = none;
  port = none;
  pid = none;
  detail = concat (
      "the runtime file exists but cannot be read: " ∷ e ∷ ". Remove it to clear this state." ∷ []);
  kind = corrupt;
}

abbrev pub not_started_status : Status
not_started_status = record {
  is_running = false;
  instance_id = none;
  port = none;
  pid = none;
  detail = "not running (no runtime file; the gateway has not been started)";
  kind = not_started;
}

unfoldable pub running_status : String → RuntimeFile → Status
unfolding authority concat show_int
running_status host rf = record {
  is_running = true;
  instance_id = some rf.instance_id;
  port = some rf.port;
  pid = some rf.pid;
  detail = concat (
      "running on "
      ∷ authority host rf.port
      ∷ " (instance "
      ∷ rf.instance_id
      ∷ ", pid "
      ∷ show_int rf.pid
      ∷ ")"
      ∷ []);
  kind = running;
}

unfoldable pub other_gateway_status : String → RuntimeFile → String → Status
unfolding authority concat
other_gateway_status host rf answered = record {
  is_running = false;
  instance_id = none;
  port = some rf.port;
  pid = none;
  detail = concat (
      "another gateway owns "
      ∷ authority host rf.port
      ∷ ": it reports instance "
      ∷ answered
      ∷ ", the runtime file records "
      ∷ rf.instance_id
      ∷ ". Nothing was stopped or removed -- that process does not belong to this install."
      ∷ []);
  kind = foreign;
}

unfoldable pub foreign_status : String → RuntimeFile → Status
unfolding authority concat
foreign_status host rf = record {
  is_running = false;
  instance_id = none;
  port = some rf.port;
  pid = none;
  detail = concat (
      "something is listening on "
      ∷ authority host rf.port
      ∷ " but it is not a hermes-auto gateway (no usable /healthz). Nothing was stopped or removed."
      ∷ []);
  kind = foreign;
}

unfoldable pub unresponsive_status : String → RuntimeFile → Status
unfolding authority concat
unresponsive_status host rf = record {
  is_running = false;
  instance_id = some rf.instance_id;
  port = some rf.port;
  pid = some rf.pid;
  detail = concat (
      "a process holds "
      ∷ authority host rf.port
      ∷ " but did not answer /healthz within 2.0s. The runtime file was left in place: a loaded gateway looks like this, and removing it would strand a live process. On Windows this can also be TIME_WAIT residue from a connection that closed seconds ago rather than a live listener -- if so it clears on its own within about a minute and `start` will work again."
      ∷ []);
  kind = unresponsive;
}

abbrev residue_note : Binding → String
residue_note bind_residue = " A connection closed there recently (TIME_WAIT); nothing is listening."
residue_note bind_free = ""
residue_note bind_held = ""

-- `removed`, after the suppressed exception
abbrev pub was_removed : Result String Bool → Bool
was_removed (ok b) = b
was_removed (raise e) = false

unfoldable pub stale_status : String → RuntimeFile → Binding → Bool → Status
unfolding authority concat
stale_status host rf binding removed = record {
  is_running = false;
  instance_id = none;
  port = some rf.port;
  pid = none;
  detail = concat (
      "not running: nothing holds "
      ∷ authority host rf.port
      ∷ ". "
      ∷ (if removed
          then "The stale runtime file was removed."
          else "The stale runtime file was already gone.")
      ∷ residue_note binding
      ∷ []);
  kind = stale_cleaned;
}

module _ {W : Type 0} (os : Outside W) where
  -- `status`, once the bind test says that nothing listens
  unfoldable pub clean_stale : String → RuntimeFile → Binding → Program W Status
  unfolding clear_runtime_if_ours stale_status
  clean_stale host rf binding = do
    cleared ← clear_runtime_if_ours os rf.instance_id
    done (stale_status host rf binding (was_removed cleared))

  -- `status`, after the bind test
  unfoldable pub status_of_binding : String → RuntimeFile → Binding → Program W Status
  unfolding unresponsive_status clean_stale
  status_of_binding host rf bind_held = done (unresponsive_status host rf)
  status_of_binding host rf b = clean_stale host rf b

  -- `status`, once neither the recorded gateway nor anything else has answered
  unfoldable pub unanswered : String → RuntimeFile → Program W Status
  unfolding port_binding status_of_binding
  unanswered host rf = port_binding os host rf.port >>= status_of_binding host rf

  -- `status`, after the health probe
  unfoldable pub status_of_probe : String → RuntimeFile → Probe → Program W Status
  unfolding running_status other_gateway_status foreign_status unanswered
  status_of_probe host rf (probe_ok answered) =
      if answered == rf.instance_id
      then done (running_status host rf)
      else done (other_gateway_status host rf answered)
  status_of_probe host rf probe_foreign = done (foreign_status host rf)
  status_of_probe host rf probe_refused = unanswered host rf
  status_of_probe host rf probe_timeout = unanswered host rf

  -- `status`, after the runtime file is read
  unfoldable pub status_of_record : String → Result String (Option RuntimeFile) → Program W Status
  unfolding probe_health status_of_probe
  status_of_record host (raise e) = done (corrupt_status e)
  status_of_record host (ok none) = done not_started_status
  status_of_record host (ok (some rf)) = probe_health os host rf.port >>= status_of_probe host rf

  -- `status`, of a configuration whose `probe_host` is `host`
  unfoldable pub status : String → Program W Status
  unfolding read_file status_of_record
  status host = read_file os >>= status_of_record host
