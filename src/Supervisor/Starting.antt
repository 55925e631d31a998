-- ===== src/Supervisor/Starting.antt =====
-- supervisor.py: `start` and `restart`.
use hermes_auto.Supervisor.Spawning.{Launcher, Spawned, pause, spawn}
use hermes_auto.Json.{ℤ}
use hermes_auto.Prelude.Result.{Result, ok, raise}
use hermes_auto.Prelude.{
  ℕ, zero, suc, String, Bool, true, false, not, ◌&&◌, Option, some, none, [], ◌∷◌, ◌==◌,
  if◌then◌else◌,
}
use hermes_auto.Runtime.{show_int}
use hermes_auto.Supervisor.Machine.{Outside, Program, ◌>>=◌, ◌>>◌, done, call}
use hermes_auto.Supervisor.Reporting.{Status, Kind, foreign, unresponsive, corrupt, status}
use hermes_auto.Supervisor.Stopping.{StopError, supervisor_error, stop}
use hermes_auto.Text.{concat}

-- `kind in (STATUS_FOREIGN, STATUS_UNRESPONSIVE, STATUS_CORRUPT)`
abbrev pub is_refused : Kind → Bool
is_refused foreign = true
is_refused unresponsive = true
is_refused corrupt = true
is_refused kind = false

abbrev pub refusing_to_start : Status → StopError
refusing_to_start current = supervisor_error (concat ("refusing to start: " ∷ current.detail ∷ []))

-- `dataclasses.replace(candidate, detail=...)`
abbrev pub with_strategy : String → Status → Status
with_strategy strategy candidate = record candidate {
  detail = concat (candidate.detail ∷ " [spawn: " ∷ strategy ∷ "]" ∷ []);
}

-- `before.instance_id if before.running else None`
abbrev pub previous_of : Status → Option String
previous_of before = if before.is_running then before.instance_id else none

-- `previous is None or current != previous`
abbrev pub is_changed : Option String → Option String → Bool
is_changed none current = true
is_changed (some previous) none = true
is_changed (some previous) (some current) = not (current == previous)

module _ {W : Type 0} (os : Outside W) (launcher : Launcher W) where
  abbrev pub exited_during_startup : ℤ → StopError
  exited_during_startup code = supervisor_error (
      concat (
        "the sidecar exited during startup with status "
        ∷ show_int code
        ∷ ". See "
        ∷ launcher.log_path
        ∷ "."
        ∷ []))

  abbrev pub unanswered_startup : StopError
  unanswered_startup = supervisor_error (
      concat (
        "the gateway did not answer /healthz within " ∷ launcher.timeout ∷ "s of starting. See "
        ∷ launcher.log_path ∷ " for the sidecar's own output." ∷ []))

  -- the loop of `start`, after a status; `rest` is the rest of the loop
  abbrev pub start_candidate :
      String → Program W (Result StopError Status) → Status → Program W (Result StopError Status)
  start_candidate strategy rest candidate =
      if candidate.is_running
      then done (ok (with_strategy strategy candidate))
      else (pause os launcher >> rest)

  -- the loop of `start`, after a poll of the process
  abbrev pub start_polled :
      String
      → String
      → Program W (Result StopError Status)
      → Option ℤ
      → Program W (Result StopError Status)
  start_polled host strategy rest (some code) = done (raise (exited_during_startup code))
  start_polled host strategy rest none = status os host >>= start_candidate strategy rest

  -- the loop of `start`; `polls` is the number of times that the clock is before the deadline
  unfoldable pub await_start : String → ℕ → Spawned → Program W (Result StopError Status)
  unfolding status concat show_int
  await_start host zero (pid, strategy) =
      call (λ w. (tt, launcher.kill_child pid w)) >> done (raise unanswered_startup)
  await_start host (suc polls) (pid, strategy) =
      call (launcher.poll pid)
      >>= start_polled host strategy (await_start host polls (pid, strategy))

  -- `start`, after `_spawn`
  unfoldable pub start_spawned :
      String → ℕ → Result StopError Spawned → Program W (Result StopError Status)
  unfolding await_start
  start_spawned host polls (raise e) = done (raise e)
  start_spawned host polls (ok child) = await_start host polls child

  -- `start`, after its first status
  unfoldable pub start_of_status : String → ℕ → ℕ → Status → Program W (Result StopError Status)
  unfolding spawn start_spawned concat
  start_of_status host grace_polls polls current =
      if current.is_running
      then done (ok current)
      else (if is_refused current.kind
          then done (raise (refusing_to_start current))
          else (spawn os launcher grace_polls >>= start_spawned host polls))

  -- `start`, of a configuration whose `probe_host` is `host`
  unfoldable pub start : String → ℕ → ℕ → Program W (Result StopError Status)
  unfolding status start_of_status
  start host grace_polls polls = status os host >>= start_of_status host grace_polls polls

  abbrev pub not_replaced : Option String → StopError
  not_replaced previous = supervisor_error (
      concat (
        "restart did not produce a new gateway within "
        ∷ launcher.timeout
        ∷ "s: the instance_id is still "
        ∷ (elim previous [ none ↦ "None" | some i ↦ i ])
        ∷ ", so the process that was asked to stop is the one still answering."
        ∷ []))

  -- the loop of `restart`, after a status
  abbrev pub change_candidate :
      Option String
      → Program W (Result StopError Status)
      → Status
      → Program W (Result StopError Status)
  change_candidate previous rest candidate =
      if candidate.is_running && is_changed previous candidate.instance_id
      then done (ok candidate)
      else (pause os launcher >> rest)

  -- the loop of `restart`
  unfoldable pub await_change : String → Option String → ℕ → Program W (Result StopError Status)
  unfolding status concat
  await_change host previous zero = done (raise (not_replaced previous))
  await_change host previous (suc polls) =
      status os host >>= change_candidate previous (await_change host previous polls)

  -- `restart`, after `start`
  unfoldable pub restart_started :
      String → ℕ → Option String → Result StopError Status → Program W (Result StopError Status)
  unfolding await_change
  restart_started host polls previous (raise e) = done (raise e)
  restart_started host polls previous (ok started) =
      if is_changed previous started.instance_id
      then done (ok started)
      else await_change host previous polls

  -- `restart`, after `stop`
  unfoldable pub restart_stopped :
      String
      → ℕ
      → ℕ
      → ℕ
      → Option String
      → Result StopError Status
      → Program W (Result StopError Status)
  unfolding start restart_started
  restart_stopped host grace_polls polls more_polls previous (raise e) = done (raise e)
  restart_stopped host grace_polls polls more_polls previous (ok stopped) =
      start host grace_polls polls >>= restart_started host more_polls previous

  -- `restart`, after its first status
  unfoldable pub restart_from :
      String
      → Option String
      → (ℕ × ℕ × ℕ)
      → ℕ
      → ℕ
      → ℕ
      → Status
      → Program W (Result StopError Status)
  unfolding stop restart_stopped
  restart_from host admin_token (stop_polls, term_polls, kill_polls) grace_polls polls more_polls
        before =
      stop os host admin_token stop_polls term_polls kill_polls
      >>= restart_stopped host grace_polls polls more_polls (previous_of before)

  -- `restart`; the polls are those of the three waits of `stop`, of the short wait after a spawn, of
  -- the loop of `start` and of its own
  unfoldable pub restart :
      String → Option String → (ℕ × ℕ × ℕ) → ℕ → ℕ → ℕ → Program W (Result StopError Status)
  unfolding status restart_from
  restart host admin_token stop_polls grace_polls polls more_polls =
      status os host >>= restart_from host admin_token stop_polls grace_polls polls more_polls
