-- ===== src/Supervisor/Identity.antt =====
-- Signals go only to a process whose identity has just been confirmed.
use hermes_auto.Json.{ℤ}
use hermes_auto.Prelude.Result.{Result, ok, raise}
use hermes_auto.Prelude.{
  ℕ, String, Bool, true, false, not, ◌≡◌, refl, sym, subst, ◌⊎◌, inl, inr, Option, some, none, List,
  [], ◌∷◌, ◌++◌, if◌then◌else◌, arith, eq_iff,
}
use hermes_auto.Runtime.{RuntimeFile}
use hermes_auto.Supervisor.Machine.{
  Probe, probe_ok, probe_refused, probe_timeout, probe_foreign, Outside, Event, read, probed,
  signalled, State, Program, done,
}
use hermes_auto.Supervisor.Probing.{probe_health, read_file}
use hermes_auto.Supervisor.Reporting.{status, Status}
use hermes_auto.Supervisor.Asking.{signal_pid, instance_gone, wait_for_exit, killed_result}
use hermes_auto.Supervisor.Stopping.{
  Escalated, gone, ended, is_confirmed, escalate, conclude, finish_stop, finished, stop_recorded,
  stop, stop_read, with_step, signal_sent, await_rung, signal_rung, confirm_rung, probe_rung,
  try_rung, continue_with, Rung, returned, broken, next, abandoned, still_answering, wait_if,
  first_step, escalated, after_request, stop_of_status, stop_running, refusing_to_stop, is_stranger,
}
use hermes_auto.Supervisor.Traces.{
  Keeps, branch, branch_if, instance_gone-Keeps, wait_for_exit-Keeps, finish_stop-Keeps,
  status-Keeps, request_admin_shutdown-Keeps,
}

-- The runtime file was read, and named this gateway.
unfoldable pub Recorded : RuntimeFile → List Event → Type 0
Recorded rf [] = ⊥
Recorded rf (read r ∷ es) = (r ≡ ok (some rf)) ⊎ Recorded rf es
Recorded rf (e ∷ es) = Recorded rf es

-- The last event is a probe of the port of a recorded gateway with this pid, and its instance has
-- answered.
pub Confirmed : ℤ → List Event → Type 0
Confirmed pid (probed port (probe_ok i) ∷ es) =
    (rf : RuntimeFile) × Recorded rf es × (rf.pid ≡ pid) × (rf.port ≡ port) × (rf.instance_id ≡ i)
Confirmed pid es = ⊥

-- Each signal went to a process that the event just before had confirmed.
unfoldable pub Guarded : List Event → Type 0
Guarded [] = Unit
Guarded (signalled pid hard ∷ es) = Confirmed pid es × Guarded es
Guarded (e ∷ es) = Guarded es

abbrev Both : RuntimeFile → List Event → Type 0
Both rf es = Recorded rf es × Guarded es

confirmed :
    (rf : RuntimeFile) (p : Probe) (es : List Event)
    → Recorded rf es
    → is_confirmed rf p ≡ true
    → Confirmed rf.pid (probed rf.port p ∷ es)
unfolding Confirmed
confirmed rf (probe_ok i) es h k = (rf, h, refl, refl, ground (arith, eq_iff i rf.instance_id))
confirmed rf probe_refused es h k = absurd (cc)
confirmed rf probe_timeout es h k = absurd (cc)
confirmed rf probe_foreign es h k = absurd (cc)

module _ {W : Type 0} (os : Outside W) (host : String) where
  status-Guarded : Keeps Guarded (status os host)
  unfolding Guarded
  status-Guarded =
      status-Keeps os Guarded (λ _ _ _ h. h) (λ _ _ _ h. h) (λ _ _ h. h) (λ _ h. h) host

  finish_stop-Guarded :
      (rf : RuntimeFile) (steps : List String) → Keeps Guarded (finish_stop os rf steps)
  unfolding Guarded
  finish_stop-Guarded =
      finish_stop-Keeps os Guarded (λ _ _ _ h. h) (λ _ _ _ h. h) (λ _ _ h. h) (λ _ h. h)

  module _ (rf : RuntimeFile) where
    instance_gone-Both : Keeps (Both rf) (instance_gone os host rf)
    unfolding Guarded Recorded
    instance_gone-Both =
        instance_gone-Keeps os (Both rf) (λ _ _ _ h. h) (λ _ _ _ h. h) (λ _ _ h. (inr h.0, h.1))
          host rf

    wait_for_exit-Both : (polls : ℕ) → Keeps (Both rf) (wait_for_exit os host rf polls)
    unfolding Guarded Recorded
    wait_for_exit-Both =
        wait_for_exit-Keeps os (Both rf) (λ _ _ _ h. h) (λ _ _ _ h. h) (λ _ _ h. (inr h.0, h.1))
          host rf

    signal_sent-Both :
        (polls : ℕ) (steps : List String) (sent : Bool × String)
        → Keeps (Both rf) (signal_sent os host rf polls steps sent)
    unfolding signal_sent await_rung
    signal_sent-Both polls steps sent s h =
        branch (Both rf) sent.0 (await_rung os host rf polls steps) (done (broken steps)) s
          (wait_for_exit-Both polls s h) h

    signal_rung-Both :
        (steps : List String) (hard : Bool) (polls : ℕ) (s : State W)
        → Confirmed rf.pid s.trace
        → Both rf s.trace
        → Both rf (signal_rung os host rf steps hard polls s).1.trace
    unfolding signal_rung signal_pid Guarded Recorded
    signal_rung-Both steps hard polls s c h =
        let s' : State W = record {
          outside = s.outside;
          trace = signalled rf.pid hard ∷ s.trace;
        } in
        let sent =
          killed_result os hard
            (os.kill rf.pid (if os.is_windows then false else hard) s.outside).0 in
        signal_sent-Both polls (with_step hard steps sent) sent
          (record {
            outside = (os.kill rf.pid (if os.is_windows then false else hard) s.outside).1;
            trace = s'.trace;
          })
          (h.0, (c, h.1))

    confirm_rung-Both :
        (steps : List String) (hard : Bool) (polls : ℕ) (p : Probe) (s : State W)
        → (is_confirmed rf p ≡ true → Confirmed rf.pid s.trace)
        → Both rf s.trace
        → Both rf (confirm_rung os host rf steps hard polls p s).1.trace
    unfolding confirm_rung
    confirm_rung-Both steps hard polls p s c h =
        branch_if (Both rf) (is_confirmed rf p) (signal_rung os host rf steps hard polls)
          (done (broken (steps ++ abandoned ∷ []))) s
          (λ k. signal_rung-Both steps hard polls s (c k) h) h

    probe_rung-Both :
        (steps : List String) (hard : Bool) (polls : ℕ)
        → Keeps (Both rf) (probe_rung os host rf steps hard polls)
    unfolding probe_health Guarded Recorded
    probe_rung-Both steps hard polls s h =
        confirm_rung-Both steps hard polls _ _ (confirmed rf _ _ h.0) h

    try_rung-Both :
        (steps : List String) (hard : Bool) (polls : ℕ)
        → Keeps (Both rf) (try_rung os host rf steps hard polls)
    unfolding try_rung
    try_rung-Both steps hard polls s h =
        branch (Both rf) _ (done (returned steps)) (probe_rung os host rf steps hard polls)
          (instance_gone os host rf s).1 (instance_gone-Both s h)
          (probe_rung-Both steps hard polls _ (instance_gone-Both s h))

    continue_with-Both :
        (rung : Rung) (k : List String → Program W Escalated)
        → ((steps : List String) → Keeps (Both rf) (k steps))
        → Keeps (Both rf) (continue_with os rung k)
    continue_with-Both (returned steps) k each s h = h
    continue_with-Both (broken steps) k each s h = h
    continue_with-Both (next steps) k each s h = each steps s h

    escalate-Both :
        (steps : List String) (rungs : List (Bool × ℕ))
        → Keeps (Both rf) (escalate os host rf steps rungs)
    unfolding escalate
    escalate-Both steps [] s h = h
    escalate-Both steps ((hard, polls) ∷ rungs) s h =
        continue_with-Both _ (λ next_steps. escalate os host rf next_steps rungs)
          (λ next_steps. escalate-Both next_steps rungs) _ (try_rung-Both steps hard polls s h)

    conclude-Guarded : (e : Escalated) → Keeps Guarded (conclude os host rf e)
    unfolding conclude
    conclude-Guarded (gone steps) s h = finish_stop-Guarded rf steps s h
    conclude-Guarded (ended steps) s h =
        branch Guarded _ (done (raise (still_answering steps))) (finished os rf steps)
          (status os host s).1 (status-Guarded s h)
          (finish_stop-Guarded rf steps _ (status-Guarded s h))

    wait_if-Both : (c : Bool) (polls : ℕ) → Keeps (Both rf) (wait_if os c host rf polls)
    wait_if-Both true polls s h = wait_for_exit-Both polls s h
    wait_if-Both false polls s h = h

    after_request-Guarded :
        (polls : ℕ) (rungs : List (Bool × ℕ)) (request : Bool × String) (s : State W)
        → Both rf s.trace
        → Guarded (after_request os host polls rungs rf request s).1.trace
    unfolding after_request
    after_request-Guarded polls rungs request s h =
        let w = wait_if-Both request.0 polls s h in
        branch Guarded _ (finished os rf (first_step request))
          (escalated os host rf (first_step request) rungs) (wait_if os request.0 host rf polls s).1
          (finish_stop-Guarded rf (first_step request) _ w.1)
          (conclude-Guarded _ _ (escalate-Both _ rungs _ w).1)

    stop_recorded-Guarded :
        (token : Option String) (polls : ℕ) (rungs : List (Bool × ℕ)) (s : State W)
        → Both rf s.trace
        → Guarded (stop_recorded os host token polls rungs rf s).1.trace
    unfolding stop_recorded Guarded Recorded
    stop_recorded-Guarded token polls rungs s h =
        after_request-Guarded polls rungs _ _
          (request_admin_shutdown-Keeps os (Both rf) (λ _ _ h. h) host rf.admin_port token s h)

  stop_read-Guarded :
      (token : Option String) (polls : ℕ) (rungs : List (Bool × ℕ))
      (r : Result String (Option RuntimeFile)) (es : List Event) (s : State W)
      → Guarded es
      → s.trace ≡ read r ∷ es
      → Guarded (stop_read os host token polls rungs r s).1.trace
  unfolding stop_read Guarded Recorded
  stop_read-Guarded token polls rungs (raise e) es s h k = subst Guarded (sym k) h
  stop_read-Guarded token polls rungs (ok none) es s h k =
      status-Guarded s (subst Guarded (sym k) h)
  stop_read-Guarded token polls rungs (ok (some rf)) es s h k =
      stop_recorded-Guarded rf token polls rungs s (subst (Both rf) (sym k) (inl refl, h))

  stop_of_status-Guarded :
      (token : Option String) (polls : ℕ) (rungs : List (Bool × ℕ)) (current : Status)
      → Keeps Guarded (stop_of_status os host token polls rungs current)
  unfolding stop_of_status read_file
  stop_of_status-Guarded token polls rungs current s h =
      branch Guarded (is_stranger current.kind) (done (raise (refusing_to_stop current)))
        (if not current.is_running
          then done (ok current)
          else stop_running os host token polls rungs)
        s h
        (branch Guarded (not current.is_running) (done (ok current))
          (stop_running os host token polls rungs) s h
          (stop_read-Guarded token polls rungs (read_file os s).0 s.trace (read_file os s).1 h
            refl))

-- However the world answers, every signal that `stop` sends goes to the pid of a runtime file that
-- it has read, and the event just before the signal is a health probe of that file's port which the
-- file's own instance has answered. This holds of the whole trace if it held of the trace before.
pub stop-Guarded :
    {W : Type 0} (os : Outside W) (host : String) (admin_token : Option String)
    (polls term_polls kill_polls : ℕ) (s : State W)
    → Guarded s.trace
    → Guarded (stop os host admin_token polls term_polls kill_polls s).1.trace
unfolding stop
stop-Guarded os host admin_token polls term_polls kill_polls s h =
    stop_of_status-Guarded os host admin_token polls ((false, term_polls) ∷ (true, kill_polls) ∷ [])
      (status os host s).0 (status os host s).1 (status-Guarded os host s h)
