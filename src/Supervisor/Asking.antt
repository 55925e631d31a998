-- ===== src/Supervisor/Asking.antt =====
-- supervisor.py: the request to shut down, the signals, and the polls that wait for the exit.
use hermes_auto.Json.{Value, ℤ, pos, obj, int, bool, float, get}
use hermes_auto.Prelude.Result.{Result, ok, raise}
use hermes_auto.Prelude.{
  ℕ, zero, suc, String, Bool, true, false, not, ◌||◌, Option, some, none, List, [], ◌∷◌, ◌==◌, ◌=ℕ◌,
  if◌then◌else◌,
}
use hermes_auto.Runtime.{RuntimeFile}
use hermes_auto.Supervisor.Machine.{
  Posted, replied, refused, unreachable, Killed, delivered, no_process, not_permitted, undelivered,
  Outside, asked, signalled, Program, ◌>>=◌, ◌>>◌, done, call, note,
}
use hermes_auto.Supervisor.Probing.{authority, port_bindable, read_file}
use hermes_auto.Text.{concat, show}

abbrev pub is_zero : ℤ → Bool
is_zero (pos n) = n =ℕ 0
is_zero n = false

-- `signalled == 0`, of the value of "servers_signalled"; `none` is Python's `None`
abbrev equals_zero : Option Value → Bool
equals_zero (some (int n)) = is_zero n
equals_zero (some (bool b)) = not b
equals_zero (some (float r)) = r == "0.0" || r == "-0.0"
equals_zero v = false

-- `str(signalled)` and `signalled == 0`, of the body of the reply
unfoldable pub servers_signalled :
    (List ℕ → Result String Value) → (Value → String) → List ℕ → String × Bool
unfolding get
servers_signalled loads str_of body = elim (loads body) [
  | raise e ↦ ("unknown", false)
  | ok (obj document) ↦ elim (get "servers_signalled" document) [
    | none ↦ ("None", false)
    | some v ↦ (str_of v, equals_zero (some v))
  ]
  | ok v ↦ ("unknown", false)
]

abbrev pub no_listener : Bool × String
no_listener = (
  false,
  "the runtime file records admin_port 0, the sentinel for 'no admin listener'; graceful drain is unreachable for this process",
)

abbrev pub no_token : Bool × String
no_token = (
  false,
  "no admin token is available, so the shutdown endpoint would answer 401; run `hermes-auto setup` to mint one",
)

-- `_instance_gone`, of a runtime file that names another instance or none
abbrev pub is_replaced : RuntimeFile → Result String (Option RuntimeFile) → Bool
is_replaced record_ (raise e) = true
is_replaced record_ (ok none) = true
is_replaced record_ (ok (some current)) = not (current.instance_id == record_.instance_id)

module _ {W : Type 0} (os : Outside W) where
  abbrev posted_result : Posted → Bool × String
  posted_result (refused code) =
      (false, concat ("the admin shutdown endpoint answered " ∷ show code ∷ []))
  posted_result (unreachable e) =
      (false, concat ("the admin shutdown endpoint could not be reached (" ∷ e ∷ ")" ∷ []))
  posted_result (replied code body) =
      let n = servers_signalled os.loads os.str_of body in
      if n.1 then (false, "the admin API accepted the request but signalled 0 servers") else (
        true,
        concat ("admin shutdown accepted (" ∷ show code ∷ ", servers_signalled=" ∷ n.0 ∷ ")" ∷ []),
      )

  -- the request of `_request_admin_shutdown`
  unfoldable pub post_shutdown : String → ℤ → String → Program W (Bool × String)
  unfolding authority concat show servers_signalled
  post_shutdown host admin_port token = do
    note (asked admin_port)
    answer ← call (
        os.post (concat ("http://" ∷ authority host admin_port ∷ "/admin/v1/shutdown" ∷ []))
          (concat ("Bearer " ∷ token ∷ [])))
    done (posted_result answer)

  -- `_request_admin_shutdown`, of a listener
  unfoldable pub request_with : String → ℤ → Option String → Program W (Bool × String)
  unfolding post_shutdown
  request_with host admin_port none = done no_token
  request_with host admin_port (some token) =
      if token == "" then done no_token else post_shutdown host admin_port token

  -- `_request_admin_shutdown`
  unfoldable pub request_admin_shutdown : String → ℤ → Option String → Program W (Bool × String)
  unfolding request_with
  request_admin_shutdown host admin_port token =
      if is_zero admin_port then done no_listener else request_with host admin_port token

  -- `_instance_gone`
  unfoldable pub instance_gone : String → RuntimeFile → Program W Bool
  unfolding read_file port_bindable
  instance_gone host record_ = do
    current ← read_file os
    if is_replaced record_ current then done true else port_bindable os host record_.port

  -- `_wait_for_exit`; `polls` is the number of times that the clock is before the deadline
  unfoldable pub wait_for_exit : String → RuntimeFile → ℕ → Program W Bool
  unfolding instance_gone
  wait_for_exit host record_ zero = instance_gone host record_
  wait_for_exit host record_ (suc polls) = do
    has_gone ← instance_gone host record_
    (if has_gone
        then done true
        else (call (λ w. (tt, os.sleep w)) >> wait_for_exit host record_ polls))

  abbrev pub killed_result : Bool → Killed → Bool × String
  killed_result hard delivered = (
    true,
    if os.is_windows
        then "TerminateProcess sent (Windows has no graceful signal)"
        else (if hard then "SIGKILL sent" else "SIGTERM sent"),
  )
  killed_result hard no_process = (false, "the process had already exited")
  killed_result hard not_permitted = (false, "the process is not owned by this user")
  killed_result hard (undelivered e) =
      (false, concat ("the signal could not be delivered (" ∷ e ∷ ")" ∷ []))

  -- `_signal_pid`
  unfoldable pub signal_pid : ℤ → Bool → Program W (Bool × String)
  unfolding concat
  signal_pid pid hard = do
    note (signalled pid hard)
    outcome ← call (os.kill pid (if os.is_windows then false else hard))
    done (killed_result hard outcome)
