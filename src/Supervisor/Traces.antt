-- ===== src/Supervisor/Traces.antt =====
-- Properties of the trace that the supervisor's programs keep.
use hermes_auto.Json.{ℤ}
use hermes_auto.Prelude.Result.{Result, ok, raise}
use hermes_auto.Prelude.{
  ℕ, zero, suc, String, Bool, true, false, ◌≡◌, refl, Option, some, none, List, [], ◌∷◌, ◌==◌,
  if◌then◌else◌,
}
use hermes_auto.Runtime.{RuntimeFile}
use hermes_auto.Supervisor.Machine.{
  Probe, probe_ok, probe_refused, probe_timeout, probe_foreign, Binding, bind_free, bind_residue,
  bind_held, Outside, Event, read, unlinked, probed, bound, asked, State, Program, ◌>>=◌, ◌>>◌,
  done, call,
}
use hermes_auto.Supervisor.Probing.{
  bind_one, bind_reusing, bind_all, resolved_binding, port_binding, port_bindable, probe_health,
  read_file, clear_runtime, clear_runtime_if_ours, clear_matching,
}
use hermes_auto.Supervisor.Reporting.{
  clean_stale, unanswered, status_of_probe, status, status_of_binding, status_of_record,
  running_status, other_gateway_status,
}
use hermes_auto.Supervisor.Asking.{
  request_admin_shutdown, request_with, post_shutdown, is_zero, no_listener, no_token,
  instance_gone, wait_for_exit,
}
use hermes_auto.Supervisor.Stopping.{finish_stop}

abbrev pub Keeps : {W A : Type 0} → (List Event → Type 0) → Program W A → Type 0
Keeps {W} P m = (s : State W) → P s.trace → P (m s).1.trace

-- A test whose branches keep a property keeps it.
pub branch :
    {W A : Type 0} (P : List Event → Type 0) (c : Bool) (p q : Program W A) (s : State W)
    → P (p s).1.trace
    → P (q s).1.trace
    → P ((if c then p else q) s).1.trace
branch P true p q s f g = f
branch P false p q s f g = g

-- The same, where the branch taken may use the test.
pub branch_if :
    {W A : Type 0} (P : List Event → Type 0) (c : Bool) (p q : Program W A) (s : State W)
    → (c ≡ true → P (p s).1.trace)
    → P (q s).1.trace
    → P ((if c then p else q) s).1.trace
branch_if P true p q s f g = f refl
branch_if P false p q s f g = g

-- The same, for the other branch.
pub branch_else :
    {W A : Type 0} (P : List Event → Type 0) (c : Bool) (p q : Program W A) (s : State W)
    → P (p s).1.trace
    → (c ≡ false → P (q s).1.trace)
    → P ((if c then p else q) s).1.trace
branch_else P true p q s f g = f
branch_else P false p q s f g = g refl

module _ {W : Type 0} (os : Outside W) (P : List Event → Type 0) where
  bind_one-Keeps : (address : String) → Keeps P (bind_one os address)
  unfolding bind_one bind_reusing
  bind_one-Keeps address s h =
      branch P (os.bind false address s.outside).0 (done bind_free)
        (if os.is_windows then done bind_held else bind_reusing os address) _ h
        (branch P os.is_windows (done bind_held) (bind_reusing os address) _ h h)

  bind_rest-Keeps :
      (residue : Bool) (addresses : List String) (outcome : Binding)
      → ((r : Bool) → Keeps P (bind_all os r addresses))
      → Keeps P (elim outcome [
        | bind_held ↦ done bind_held
        | bind_residue ↦ bind_all os true addresses
        | bind_free ↦ bind_all os residue addresses
      ])
  bind_rest-Keeps residue rest bind_held k s h = h
  bind_rest-Keeps residue rest bind_residue k s h = k true s h
  bind_rest-Keeps residue rest bind_free k s h = k residue s h

  bind_all-Keeps :
      (residue : Bool) (addresses : List String) → Keeps P (bind_all os residue addresses)
  unfolding bind_all
  bind_all-Keeps residue [] s h = h
  bind_all-Keeps residue (a ∷ rest) s h =
      bind_rest-Keeps residue rest _ (λ r. bind_all-Keeps r rest) _ (bind_one-Keeps a s h)

  pub resolved_binding-Keeps : (infos : Option (List String)) → Keeps P (resolved_binding os infos)
  unfolding resolved_binding
  resolved_binding-Keeps none s h = h
  resolved_binding-Keeps (some []) s h = h
  resolved_binding-Keeps (some (a ∷ rest)) s h = bind_all-Keeps false (a ∷ rest) s h

  module _
      (on_read : (r : Result String (Option RuntimeFile)) (es : List Event)
        → P es
        → P (read r ∷ es)) where
    pub read_file-Keeps : Keeps P (read_file os)
    unfolding read_file
    read_file-Keeps s h = on_read _ _ h

    module _ (on_unlinked : (es : List Event) → P es → P (unlinked ∷ es)) where
      ours-Keeps :
          (i : String) (current : Result String (Option RuntimeFile))
          → Keeps P (clear_matching os i current)
      unfolding clear_matching clear_runtime
      ours-Keeps i (raise e) s h = h
      ours-Keeps i (ok none) s h = h
      ours-Keeps i (ok (some rf)) s h =
          branch P (rf.instance_id == i) (clear_runtime os) (done (ok false)) s (on_unlinked _ h) h

      pub clear_runtime_if_ours-Keeps : (i : String) → Keeps P (clear_runtime_if_ours os i)
      unfolding clear_runtime_if_ours clear_runtime
      clear_runtime_if_ours-Keeps i s h =
          branch P (i == "") (clear_runtime os) (read_file os >>= clear_matching os i) s
            (on_unlinked _ h) (ours-Keeps i _ _ (read_file-Keeps s h))

  module _ (on_bound : (port : ℤ) (b : Binding) (es : List Event) → P es → P (bound port b ∷ es))
      (on_probed : (port : ℤ) (p : Probe) (es : List Event) → P es → P (probed port p ∷ es))
      (on_read : (r : Result String (Option RuntimeFile)) (es : List Event)
        → P es
        → P (read r ∷ es)) where
    pub port_binding-Keeps : (host : String) (port : ℤ) → Keeps P (port_binding os host port)
    unfolding port_binding
    port_binding-Keeps host port s h = on_bound _ _ _ (resolved_binding-Keeps _ _ h)

    pub probe_health-Keeps : (host : String) (port : ℤ) → Keeps P (probe_health os host port)
    unfolding probe_health
    probe_health-Keeps host port s h = on_probed _ _ _ h

    pub instance_gone-Keeps :
        (host : String) (rf : RuntimeFile) → Keeps P (instance_gone os host rf)
    unfolding instance_gone port_bindable
    instance_gone-Keeps host rf s h =
        branch P _ (done true) (port_bindable os host rf.port) (read_file os s).1
          (read_file-Keeps on_read s h)
          (port_binding-Keeps host rf.port _ (read_file-Keeps on_read s h))

    pub wait_for_exit-Keeps :
        (host : String) (rf : RuntimeFile) (polls : ℕ) → Keeps P (wait_for_exit os host rf polls)
    unfolding wait_for_exit
    wait_for_exit-Keeps host rf zero s h = instance_gone-Keeps host rf s h
    wait_for_exit-Keeps host rf (suc polls) s h =
        branch P _ (done true) (call (λ w. (tt, os.sleep w)) >> wait_for_exit os host rf polls)
          (instance_gone os host rf s).1 (instance_gone-Keeps host rf s h)
          (wait_for_exit-Keeps host rf polls _ (instance_gone-Keeps host rf s h))

    module _ (on_unlinked : (es : List Event) → P es → P (unlinked ∷ es)) where
      pub finish_stop-Keeps :
          (rf : RuntimeFile) (steps : List String) → Keeps P (finish_stop os rf steps)
      unfolding finish_stop
      finish_stop-Keeps rf steps s h = clear_runtime_if_ours-Keeps on_read on_unlinked _ s h

      clean_stale-Keeps :
          (host : String) (rf : RuntimeFile) (b : Binding) → Keeps P (clean_stale os host rf b)
      unfolding clean_stale
      clean_stale-Keeps host rf b s h = clear_runtime_if_ours-Keeps on_read on_unlinked _ s h

      binding-Keeps :
          (host : String) (rf : RuntimeFile) (b : Binding)
          → Keeps P (status_of_binding os host rf b)
      unfolding status_of_binding
      binding-Keeps host rf bind_held s h = h
      binding-Keeps host rf bind_free s h = clean_stale-Keeps host rf bind_free s h
      binding-Keeps host rf bind_residue s h = clean_stale-Keeps host rf bind_residue s h

      unanswered-Keeps : (host : String) (rf : RuntimeFile) → Keeps P (unanswered os host rf)
      unfolding unanswered
      unanswered-Keeps host rf s h = binding-Keeps host rf _ _ (port_binding-Keeps host rf.port s h)

      status_of_probe-Keeps :
          (host : String) (rf : RuntimeFile) (p : Probe) → Keeps P (status_of_probe os host rf p)
      unfolding status_of_probe
      status_of_probe-Keeps host rf (probe_ok i) s h =
          branch P (i == rf.instance_id) (done (running_status host rf))
            (done (other_gateway_status host rf i)) s h h
      status_of_probe-Keeps host rf probe_foreign s h = h
      status_of_probe-Keeps host rf probe_refused s h = unanswered-Keeps host rf s h
      status_of_probe-Keeps host rf probe_timeout s h = unanswered-Keeps host rf s h

      recorded-Keeps :
          (host : String) (r : Result String (Option RuntimeFile))
          → Keeps P (status_of_record os host r)
      unfolding status_of_record
      recorded-Keeps host (raise e) s h = h
      recorded-Keeps host (ok none) s h = h
      recorded-Keeps host (ok (some rf)) s h =
          status_of_probe-Keeps host rf _ _ (probe_health-Keeps host rf.port s h)

      pub status-Keeps : (host : String) → Keeps P (status os host)
      unfolding status
      status-Keeps host s h = recorded-Keeps host _ _ (read_file-Keeps on_read s h)

  module _ (on_asked : (port : ℤ) (es : List Event) → P es → P (asked port ∷ es)) where
    request_with-Keeps :
        (host : String) (port : ℤ) (token : Option String)
        → Keeps P (request_with os host port token)
    unfolding request_with post_shutdown
    request_with-Keeps host port none s h = h
    request_with-Keeps host port (some token) s h =
        branch P (token == "") (done no_token) (post_shutdown os host port token) s h
          (on_asked _ _ h)

    pub request_admin_shutdown-Keeps :
        (host : String) (port : ℤ) (token : Option String)
        → Keeps P (request_admin_shutdown os host port token)
    unfolding request_admin_shutdown
    request_admin_shutdown-Keeps host port token s h =
        branch P (is_zero port) (done no_listener) (request_with os host port token) s h
          (request_with-Keeps host port token s h)
