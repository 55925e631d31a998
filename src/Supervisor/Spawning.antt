-- ===== src/Supervisor/Spawning.antt =====
-- supervisor.py: `_spawn`.
use hermes_auto.Json.{ℤ}
use hermes_auto.Prelude.Result.{Result, ok, raise}
use hermes_auto.Prelude.{ℕ, zero, suc, String, Bool, true, false, Option, some, none, List, [], ◌∷◌}
use hermes_auto.Runtime.{show_int}
use hermes_auto.Supervisor.Machine.{Outside, spawned, Program, ◌>>=◌, ◌>>◌, done, call, note}
use hermes_auto.Supervisor.Stopping.{StopError, supervisor_error}
use hermes_auto.Text.{concat}

-- What launching a process asks of the operating system, with the texts that the errors quote.
pub record Launcher (W : Type 0) : Type 0 where
  -- `gateway_log_path`
  pub log_path : String
  -- `startup_timeout`
  pub timeout : String
  -- `open(log_path, "ab", buffering=0)`, with the text of its `OSError`
  pub open_log : W → Option String × W
  -- `subprocess.Popen` with the flags of a strategy: the pid, or the text of the `OSError`
  pub popen : String → W → Result String ℤ × W
  -- `process.poll()`: the return code of a process that has exited
  pub poll : ℤ → W → Option ℤ × W
  -- `process.kill()`, its exceptions suppressed
  pub kill_child : ℤ → W → W

-- the names in `attempts`
abbrev pub strategies : Bool → List String
strategies true =
    "hidden_console+new_process_group" ∷ "hidden_console+new_process_group+breakaway_from_job" ∷ []
strategies false = "start_new_session" ∷ []

-- a process, and the strategy that worked
abbrev pub Spawned : Type 0
Spawned = ℤ × String

abbrev pub exited_immediately : ℤ → String
exited_immediately code =
    concat ("the sidecar exited immediately with status " ∷ show_int code ∷ [])

module _ {W : Type 0} (os : Outside W) (launcher : Launcher W) where
  abbrev pub pause : Program W (Unit {0})
  pause = call (λ w. (tt, os.sleep w))

  -- an iteration of that wait, after its poll
  abbrev pub grace_polled : Program W (Unit {0}) → Option ℤ → Program W (Unit {0})
  grace_polled rest (some code) = done tt
  grace_polled rest none = pause >> rest

  -- the short wait after a spawn; `polls` is the number of times that the clock is before its deadline
  unfoldable pub grace : ℕ → ℤ → Program W (Unit {0})
  grace zero pid = done tt
  grace (suc polls) pid = call (launcher.poll pid) >>= grace_polled (grace polls pid)

  abbrev pub unopened : String → StopError
  unopened e =
      supervisor_error
        (concat ("could not open the sidecar log " ∷ launcher.log_path ∷ ": " ∷ e ∷ []))

  abbrev pub unspawned : String → StopError
  unspawned last_error = supervisor_error (
      concat (
        "could not spawn hermes_auto.gateway.main: " ∷ last_error ∷ ". See " ∷ launcher.log_path
        ∷ " for the sidecar's own output." ∷ []))

  -- an attempt, after the last poll
  abbrev pub settled : ℤ → Option ℤ → Program W (Result String ℤ)
  settled pid none = done (ok pid)
  settled pid (some code) = done (raise (exited_immediately code))

  -- an attempt, after `Popen`
  abbrev pub after_popen : ℕ → Result String ℤ → Program W (Result String ℤ)
  after_popen polls (raise e) = done (raise e)
  after_popen polls (ok pid) = grace polls pid >> (call (launcher.poll pid) >>= settled pid)

  -- an attempt whose log is open: the process, or the text that becomes `last_error`
  unfoldable pub launch : ℕ → String → Program W (Result String ℤ)
  unfolding grace concat show_int
  launch polls name = note (spawned name) >> (call (launcher.popen name) >>= after_popen polls)

  -- after an attempt; `rest` is the loop over the other strategies
  abbrev pub launched :
      String
      → (String → Program W (Result StopError Spawned))
      → Result String ℤ
      → Program W (Result StopError Spawned)
  launched name rest (ok pid) = done (ok (pid, name))
  launched name rest (raise e) = rest e

  -- after the log was opened
  abbrev pub attempt :
      ℕ
      → String
      → (String → Program W (Result StopError Spawned))
      → Option String
      → Program W (Result StopError Spawned)
  attempt polls name rest (some e) = done (raise (unopened e))
  attempt polls name rest none = launch polls name >>= launched name rest

  -- the loop of `_spawn`, after `last_error`
  unfoldable pub try_strategies : ℕ → List String → String → Program W (Result StopError Spawned)
  unfolding launch concat
  try_strategies polls [] last_error = done (raise (unspawned last_error))
  try_strategies polls (name ∷ names) last_error =
      call launcher.open_log >>= attempt polls name (λ e. try_strategies polls names e)

  -- `_spawn`, without the rotation of the log, which neither fails nor decides anything
  unfoldable pub spawn : ℕ → Program W (Result StopError Spawned)
  unfolding try_strategies
  spawn polls = try_strategies polls (strategies os.is_windows) "None"
