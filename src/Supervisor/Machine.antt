-- ===== src/Supervisor/Machine.antt =====
-- What supervision can see and do: the operating system behind an interface, a state that keeps
-- the trace of what was done, and programs over that state.
use hermes_auto.Json.{Value, ℤ}
use hermes_auto.Prelude.Result.{Result}
use hermes_auto.Prelude.{ℕ, String, Bool, Option, List, ◌∷◌}
use hermes_auto.Runtime.{RuntimeFile, Contents}

-- the outcome of `urlopen` and `read` on /healthz; `url_error` holds whether its reason is a timeout
-- (an HTTPException of http.client, which the code lets through, has none)
pub data Answer : Type 0 where
  answered : List ℕ → Answer
  http_error : Answer
  url_error : Bool → Answer
  timed_out : Answer
  os_error : Answer

pub data Probe : Type 0 where
  probe_ok : String → Probe
  probe_refused : Probe
  probe_timeout : Probe
  probe_foreign : Probe

pub data Binding : Type 0 where
  bind_free : Binding
  bind_residue : Binding
  bind_held : Binding

-- the outcome of `target.unlink()`
pub data Unlinked : Type 0 where
  removed : Unlinked
  missing : Unlinked
  failed : String → Unlinked

-- the outcome of the POST to the admin listener: a status and a body, a status that is an error, or
-- the text of the exception
pub data Posted : Type 0 where
  replied : ℕ → List ℕ → Posted
  refused : ℕ → Posted
  unreachable : String → Posted

-- the outcome of `os.kill`
pub data Killed : Type 0 where
  delivered : Killed
  no_process : Killed
  not_permitted : Killed
  undelivered : String → Killed

-- The operating system, the network and the libraries. `W` is all the state outside the supervisor,
-- other processes included: any call may change it.
pub record Outside (W : Type 0) : Type 0 where
  pub target : String
  pub is_windows : Bool
  -- `json.loads(raw.decode("utf-8"))`, with the text of the exception
  pub loads : List ℕ → Result String Value
  pub str_of : Value → String
  pub read_bytes : W → Contents × W
  pub unlink : W → Unlinked × W
  pub healthz : String → W → Answer × W
  pub getaddrinfo : String → ℤ → W → Option (List String) × W
  -- a bind of a fresh socket, with `SO_REUSEADDR` or without
  pub bind : Bool → String → W → Bool × W
  pub post : String → String → W → Posted × W
  -- `os.kill(pid, ...)`, with `SIGKILL` or `SIGTERM`
  pub kill : ℤ → Bool → W → Killed × W
  pub sleep : W → W

pub data Event : Type 0 where
  read : Result String (Option RuntimeFile) → Event
  unlinked : Event
  probed : ℤ → Probe → Event
  bound : ℤ → Binding → Event
  asked : ℤ → Event
  signalled : ℤ → Bool → Event
  -- a process was asked for, by this strategy
  spawned : String → Event

-- The trace has the last event first.
pub record State (W : Type 0) : Type 0 where
  pub outside : W
  pub trace : List Event

abbrev pub Program : Type 0 → Type 0 → Type 0
Program W A = State W → A × State W

infixl 5 ◌>>=◌ ◌>>◌
abbrev pub ◌>>=◌ : {W A B : Type 0} → Program W A → (A → Program W B) → Program W B
p >>= f = λ s. let r = p s in f r.0 r.1

abbrev pub ◌>>◌ : {W A B : Type 0} → Program W A → Program W B → Program W B
p >> q = p >>= λ _. q

abbrev pub done : {W A : Type 0} → A → Program W A
done a = λ s. (a, s)

-- a call of the world
abbrev pub call : {W A : Type 0} → (W → A × W) → Program W A
call f = λ s. let r = f s.outside in (r.0, record { outside = r.1; trace = s.trace })

abbrev pub note : {W : Type 0} → Event → Program W Unit
note e = λ s. (tt, record { outside = s.outside; trace = e ∷ s.trace })
