-- ===== src/Supervisor/Probing.antt =====
-- supervisor.py: the health probe, the bind test and the removal of the runtime file.
use hermes_auto.Json.{Value, ℤ, obj, str, get}
use hermes_auto.Prelude.Result.{Result, ok, raise}
use hermes_auto.Prelude.{
  ℕ, String, Bool, true, false, not, Option, some, none, List, [], ◌∷◌, ◌==◌, if◌then◌else◌,
}
use hermes_auto.Runtime.{RuntimeFile, read_runtime, show_int}
use hermes_auto.Supervisor.Machine.{
  Answer, answered, http_error, url_error, timed_out, os_error, Probe, probe_ok, probe_refused,
  probe_timeout, probe_foreign, Binding, bind_free, bind_residue, bind_held, Unlinked, removed,
  missing, failed, Outside, read, unlinked, probed, bound, Program, ◌>>=◌, ◌>>◌, done, call, note,
}
use hermes_auto.Text.{concat, has_char}

unfoldable pub authority : String → ℤ → String
unfolding has_char concat show_int
authority host port =
    if has_char 58 host
    then concat ("[" ∷ host ∷ "]:" ∷ show_int port ∷ [])
    else concat (host ∷ ":" ∷ show_int port ∷ [])

-- what `_probe_health` makes of the parsed body
unfoldable pub probe_of_document : Value → Probe
unfolding get
probe_of_document (obj document) = elim (get "instance_id" document) [
  | some (str i) ↦ if i == "" then probe_foreign else probe_ok i
  | _ ↦ probe_foreign
]
probe_of_document v = probe_foreign

unfoldable pub probe_of_answer : (List ℕ → Result String Value) → Answer → Probe
unfolding probe_of_document
probe_of_answer loads (answered raw) = elim (loads raw) [
  | raise e ↦ probe_foreign
  | ok document ↦ probe_of_document document
]
probe_of_answer loads http_error = probe_foreign
probe_of_answer loads (url_error is_timeout) = if is_timeout then probe_timeout else probe_refused
probe_of_answer loads timed_out = probe_timeout
probe_of_answer loads os_error = probe_refused

abbrev pub is_held : Binding → Bool
is_held bind_held = true
is_held bind_free = false
is_held bind_residue = false

module _ {W : Type 0} (os : Outside W) where
  -- `_probe_health`
  unfoldable pub probe_health : String → ℤ → Program W Probe
  unfolding probe_of_answer authority concat
  probe_health host port = do
    answer ← call (os.healthz (concat ("http://" ∷ authority host port ∷ "/healthz" ∷ [])))
    note (probed port (probe_of_answer os.loads answer))
    done (probe_of_answer os.loads answer)

  -- the second attempt of `_bind_one`, with `SO_REUSEADDR`
  unfoldable pub bind_reusing : String → Program W Binding
  bind_reusing address = do
    reused ← call (os.bind true address)
    done (if reused then bind_residue else bind_held)

  -- `_bind_one`
  unfoldable pub bind_one : String → Program W Binding
  unfolding bind_reusing
  bind_one address = do
    plain ← call (os.bind false address)
    if plain
        then done bind_free
        else (if os.is_windows then done bind_held else bind_reusing address)

  -- the loop of `_port_binding`
  unfoldable pub bind_all : Bool → List String → Program W Binding
  unfolding bind_one
  bind_all residue [] = done (if residue then bind_residue else bind_free)
  bind_all residue (address ∷ addresses) = do
    outcome ← bind_one address
    elim outcome [
      | bind_held ↦ done bind_held
      | bind_residue ↦ bind_all true addresses
      | bind_free ↦ bind_all residue addresses
    ]

  unfoldable pub resolved_binding : Option (List String) → Program W Binding
  unfolding bind_all
  resolved_binding none = done bind_held
  resolved_binding (some []) = done bind_held
  resolved_binding (some (address ∷ addresses)) = bind_all false (address ∷ addresses)

  -- `_port_binding`
  unfoldable pub port_binding : String → ℤ → Program W Binding
  unfolding resolved_binding
  port_binding host port = do
    infos ← call (os.getaddrinfo host port)
    binding ← resolved_binding infos
    note (bound port binding)
    done binding

  -- `_port_bindable`
  unfoldable pub port_bindable : String → ℤ → Program W Bool
  unfolding port_binding
  port_bindable host port = do binding ← port_binding host port; done (not (is_held binding))

  -- `read_runtime(config.gateway.state_dir)`
  unfoldable pub read_file : Program W (Result String (Option RuntimeFile))
  unfolding read_runtime
  read_file = do
    contents ← call os.read_bytes
    note (read (read_runtime os.target os.loads contents))
    done (read_runtime os.target os.loads contents)

  abbrev unlinked_result : Unlinked → Result String Bool
  unlinked_result removed = ok true
  unlinked_result missing = ok false
  unlinked_result (failed e) = raise (concat (os.target ∷ ": could not be removed: " ∷ e ∷ []))

  unfoldable pub clear_runtime : Program W (Result String Bool)
  clear_runtime = do outcome ← call os.unlink; note unlinked; done (unlinked_result outcome)

  -- `_clear_runtime_if_ours`, after the second read
  unfoldable pub clear_matching :
      String → Result String (Option RuntimeFile) → Program W (Result String Bool)
  unfolding clear_runtime
  clear_matching instance_id (raise e) = done (ok false)
  clear_matching instance_id (ok none) = done (ok false)
  clear_matching instance_id (ok (some rf)) =
      if rf.instance_id == instance_id then clear_runtime else done (ok false)

  -- `_clear_runtime_if_ours`
  unfoldable pub clear_runtime_if_ours : String → Program W (Result String Bool)
  unfolding clear_runtime read_file clear_matching
  clear_runtime_if_ours instance_id =
      if instance_id == "" then clear_runtime else (read_file >>= clear_matching instance_id)
