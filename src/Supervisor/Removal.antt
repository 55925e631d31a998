-- ===== src/Supervisor/Removal.antt =====
-- When `status` says that the gateway runs, and when it removes the runtime file.
use hermes_auto.Prelude.Result.{Result, ok, raise}
use hermes_auto.Prelude.{
  String, Bool, true, false, false≢true, subst, eq_refl, ◌≡◌, ◌≢◌, ◌↔◌, refl, sym, ap, ◌∙◌, inl,
  inr, Option, some, none, List, [], ◌∷◌, ◌==◌, if◌then◌else◌, arith, eq_iff, Bool-cases,
}
use hermes_auto.Runtime.{RuntimeFile}
use hermes_auto.Runtime.Reading.{read_runtime-id}
use hermes_auto.Supervisor.Identity.{Recorded}
use hermes_auto.Supervisor.Machine.{
  Probe, probe_ok, probe_refused, probe_timeout, probe_foreign, Binding, bind_held, bind_free,
  bind_residue, Outside, Event, read, unlinked, bound, State, ◌>>=◌, done,
}
use hermes_auto.Supervisor.Probing.{
  probe_health, read_file, clear_runtime, clear_runtime_if_ours, clear_matching, port_binding,
  is_held,
}
use hermes_auto.Supervisor.Reporting.{
  status, status_of_record, status_of_probe, unanswered, status_of_binding, clean_stale,
  running_status, other_gateway_status, foreign_status, unresponsive_status, stale_status,
}
use hermes_auto.Supervisor.Traces.{branch, branch_if, resolved_binding-Keeps}
use hermes_auto.Text.{strip, lstrip, rstrip}

-- The runtime file has just been read and names this instance, and directly before that the bind test
-- found free of listeners the port of a runtime file that was read earlier and names the same instance.
pub Stale : List Event → Type 0
Stale (read (ok (some again)) ∷ bound port b ∷ es) =
    (rf : RuntimeFile) × Recorded rf es
    × (again.instance_id ≡ rf.instance_id)
    × (port ≡ rf.port)
    × (is_held b ≡ false)
Stale es = ⊥

-- Each removal of the runtime file is of a stale one.
unfoldable pub Careful : List Event → Type 0
Careful [] = Unit
Careful (unlinked ∷ es) = Stale es × Careful es
Careful (e ∷ es) = Careful es

module _ {W : Type 0} (os : Outside W) (host : String) where
  unanswered-is_running :
      (rf : RuntimeFile) (b : Binding) (s : State W)
      → (status_of_binding os host rf b s).0.is_running ≡ false
  unfolding status_of_binding clean_stale unresponsive_status stale_status
  unanswered-is_running rf bind_held s = refl
  unanswered-is_running rf bind_free s = refl
  unanswered-is_running rf bind_residue s = refl

  answered-of_running :
      (rf : RuntimeFile) (p : Probe) (s : State W)
      → (status_of_probe os host rf p s).0.is_running ≡ true
      → p ≡ probe_ok rf.instance_id
  unfolding status_of_probe unanswered other_gateway_status foreign_status
  answered-of_running rf (probe_ok i) s h = elim (Bool-cases (i == rf.instance_id)) [
    | inl e ↦ ap probe_ok (ground (arith, eq_iff i rf.instance_id))
    | inr e ↦ absurd (
        false≢true (
          sym (
            ap
              (λ (c : Bool).
                ((if c
                    then done (running_status host rf)
                    else done (other_gateway_status host rf i))
                  s).0.is_running)
              e)
          ∙ h))
  ]
  answered-of_running rf probe_foreign s h = absurd (false≢true h)
  answered-of_running rf probe_refused s h =
      absurd (false≢true (sym (unanswered-is_running rf _ _) ∙ h))
  answered-of_running rf probe_timeout s h =
      absurd (false≢true (sym (unanswered-is_running rf _ _) ∙ h))

  abbrev Runs : Result String (Option RuntimeFile) → State W → Type 0
  Runs r s =
      (rf : RuntimeFile) × (r ≡ ok (some rf))
      × ((probe_health os host rf.port s).0 ≡ probe_ok rf.instance_id)

  Runs-of_running :
      (r : Result String (Option RuntimeFile)) (s : State W)
      → (status_of_record os host r s).0.is_running ≡ true
      → Runs r s
  unfolding status_of_record
  Runs-of_running (raise e) s h = absurd (false≢true h)
  Runs-of_running (ok none) s h = absurd (false≢true h)
  Runs-of_running (ok (some rf)) s h = (rf, refl, answered-of_running rf _ _ h)

  running-of_answer :
      (rf : RuntimeFile) (s : State W)
      → (status_of_probe os host rf (probe_ok rf.instance_id) s).0.is_running ≡ true
  unfolding status_of_probe running_status
  running-of_answer rf s =
      ap
        (λ (c : Bool).
          ((if c
              then done (running_status host rf)
              else done (other_gateway_status host rf rf.instance_id))
            s).0.is_running)
        (eq_refl rf.instance_id)

  running-of_Runs :
      (r : Result String (Option RuntimeFile)) (s : State W)
      → Runs r s
      → (status_of_record os host r s).0.is_running ≡ true
  unfolding status_of_record
  running-of_Runs r s (rf, e, p) =
      subst (λ k. (status_of_record os host k s).0.is_running ≡ true) (sym e)
        (subst
          (λ k.
            (status_of_probe os host rf k (probe_health os host rf.port s).1).0.is_running ≡ true)
          (sym p) (running-of_answer rf _))

  -- `status` says that the gateway runs exactly when the runtime file was read and the probe of its
  -- port was answered by the instance that it names.
  pub status_running_iff :
      (s : State W)
      → ((status os host s).0.is_running ≡ true) ↔ (
          (rf : RuntimeFile) × ((read_file os s).0 ≡ ok (some rf))
          × ((probe_health os host rf.port (read_file os s).1).0 ≡ probe_ok rf.instance_id))
  unfolding status
  status_running_iff s = (
    Runs-of_running (read_file os s).0 (read_file os s).1,
    running-of_Runs (read_file os s).0 (read_file os s).1,
  )

  clear_matching-Careful :
      (rf : RuntimeFile) (b : Binding) (es : List Event) (w : W)
      (r : Result String (Option RuntimeFile))
      → is_held b ≡ false
      → Recorded rf es
      → Careful es
      → Careful
          (clear_matching os rf.instance_id r
            (record { outside = w; trace = read r ∷ bound rf.port b ∷ es })).1.trace
  unfolding clear_matching clear_runtime Careful Stale
  clear_matching-Careful rf b es w (raise e) k m h = h
  clear_matching-Careful rf b es w (ok none) k m h = h
  clear_matching-Careful rf b es w (ok (some again)) k m h =
      branch_if Careful (again.instance_id == rf.instance_id) (clear_runtime os) (done (ok false))
        (record { outside = w; trace = read (ok (some again)) ∷ bound rf.port b ∷ es })
        (λ e. ((rf, m, ground (arith, eq_iff again.instance_id rf.instance_id), refl, k), h)) h

  clean_stale-Careful :
      (rf : RuntimeFile) (b : Binding) (es : List Event) (w : W)
      → rf.instance_id ≢ ""
      → is_held b ≡ false
      → Recorded rf es
      → Careful es
      → Careful
          (clean_stale os host rf b (record { outside = w; trace = bound rf.port b ∷ es })).1.trace
  unfolding clean_stale clear_runtime_if_ours read_file
  clean_stale-Careful rf b es w ne k m h =
      let s : State W = record { outside = w; trace = bound rf.port b ∷ es } in
      branch_if Careful (rf.instance_id == "") (clear_runtime os)
        (read_file os >>= clear_matching os rf.instance_id) s
        (λ e. absurd (ne (ground (arith, eq_iff rf.instance_id ""))))
        (clear_matching-Careful rf b es (read_file os s).1.outside (read_file os s).0 k m h)

  status_of_binding-Careful :
      (rf : RuntimeFile) (b : Binding) (es : List Event) (w : W)
      → rf.instance_id ≢ ""
      → Recorded rf es
      → Careful es
      → Careful
          (status_of_binding os host rf b
            (record { outside = w; trace = bound rf.port b ∷ es })).1.trace
  unfolding status_of_binding Careful
  status_of_binding-Careful rf bind_held es w ne m h = h
  status_of_binding-Careful rf bind_free es w ne m h =
      clean_stale-Careful rf bind_free es w ne refl m h
  status_of_binding-Careful rf bind_residue es w ne m h =
      clean_stale-Careful rf bind_residue es w ne refl m h

  unanswered-Careful :
      (rf : RuntimeFile) (s : State W)
      → rf.instance_id ≢ ""
      → Recorded rf s.trace
      → Careful s.trace
      → Careful (unanswered os host rf s).1.trace
  unfolding unanswered port_binding
  unanswered-Careful rf s ne m h =
      let after : State W = record {
        outside = (os.getaddrinfo host rf.port s.outside).1;
        trace = s.trace;
      } in
      let infos = (os.getaddrinfo host rf.port s.outside).0 in
      status_of_binding-Careful rf (port_binding os host rf.port s).0 _
        (port_binding os host rf.port s).1.outside ne
        (resolved_binding-Keeps os (Recorded rf) infos after m)
        (resolved_binding-Keeps os Careful infos after h)

  status_of_probe-Careful :
      (rf : RuntimeFile) (p : Probe) (s : State W)
      → rf.instance_id ≢ ""
      → Recorded rf s.trace
      → Careful s.trace
      → Careful (status_of_probe os host rf p s).1.trace
  unfolding status_of_probe
  status_of_probe-Careful rf (probe_ok i) s ne m h =
      branch Careful (i == rf.instance_id) (done (running_status host rf))
        (done (other_gateway_status host rf i)) s h h
  status_of_probe-Careful rf probe_foreign s ne m h = h
  status_of_probe-Careful rf probe_refused s ne m h = unanswered-Careful rf s ne m h
  status_of_probe-Careful rf probe_timeout s ne m h = unanswered-Careful rf s ne m h

  status_of_record-Careful :
      (r : Result String (Option RuntimeFile)) (w : W) (es : List Event)
      → ((rf : RuntimeFile) → r ≡ ok (some rf) → rf.instance_id ≢ "")
      → Careful es
      → Careful (status_of_record os host r (record { outside = w; trace = read r ∷ es })).1.trace
  unfolding status_of_record probe_health Careful Recorded
  status_of_record-Careful (raise e) w es ne h = h
  status_of_record-Careful (ok none) w es ne h = h
  status_of_record-Careful (ok (some rf)) w es ne h =
      let s : State W = record { outside = w; trace = read (ok (some rf)) ∷ es } in
      let found = probe_health os host rf.port s in
      status_of_probe-Careful rf found.0 found.1 (ne rf refl) (inl refl) h

  has_id :
      (s : State W) (rf : RuntimeFile) → (read_file os s).0 ≡ ok (some rf) → rf.instance_id ≢ ""
  unfolding read_file strip rstrip lstrip
  has_id s rf h e = read_runtime-id os.target os.loads (os.read_bytes s.outside).0 rf h (ap strip e)

  -- Each time that `status` removes the runtime file, it has just read the file, which names an
  -- instance, and directly before that the bind test found free of listeners the port of a runtime file
  -- that was read earlier and names the same instance. This holds of the whole trace if it held of the
  -- trace before, whatever the world does between the calls.
  pub status-Careful : (s : State W) → Careful s.trace → Careful (status os host s).1.trace
  unfolding status read_file
  status-Careful s h = status_of_record-Careful _ _ _ (has_id s) h
