-- ===== src/Supervisor/Vacancy.antt =====
-- When `start` asks for a process.
use hermes_auto.Json.{ℤ}
use hermes_auto.Prelude.Result.{Result, ok, raise}
use hermes_auto.Prelude.{
  ℕ, zero, suc, String, false, ◌==◌, ◌≡◌, refl, Option, some, none, List, [], ◌∷◌, inl, inr,
  Bool-cases, arith,
}
use hermes_auto.Runtime.{RuntimeFile}
use hermes_auto.Supervisor.Identity.{Recorded}
use hermes_auto.Supervisor.Machine.{
  Binding, bind_free, bind_held, bind_residue, Event, read, unlinked, bound, spawned, Outside,
  Probe, probe_ok, probe_refused, probe_timeout, probe_foreign, State, Program, ◌>>=◌, ◌>>◌, done,
}
use hermes_auto.Supervisor.Probing.{is_held, port_binding, probe_health, read_file}
use hermes_auto.Supervisor.Reporting.{
  Status, clean_stale, foreign_status, other_gateway_status, running_status, status,
  status_of_binding, status_of_probe, status_of_record, unanswered, unresponsive_status,
}
use hermes_auto.Supervisor.Spawning.{
  Launcher, Spawned, attempt, grace, grace_polled, launch, launched, pause, after_popen, settled,
  spawn, strategies, try_strategies,
}
use hermes_auto.Supervisor.Starting.{
  await_start, is_refused, refusing_to_start, start, start_candidate, start_of_status, start_polled,
  start_spawned, with_strategy,
}
use hermes_auto.Supervisor.Stopping.{StopError}
use hermes_auto.Supervisor.Traces.{
  Keeps, branch, branch_else, clear_runtime_if_ours-Keeps, resolved_binding-Keeps, status-Keeps,
}

-- The last read that found no runtime file, or the last bind test, which found free of listeners the
-- port of a runtime file read earlier. Reads of the file, whatever they find, its removal and attempts to
-- spawn may follow it, and nothing else.
pub Vacant : List Event → Type 0
Vacant [] = ⊥
Vacant (read (ok none) ∷ es) = Unit
Vacant (read (ok (some rf)) ∷ es) = Vacant es
Vacant (read (raise e) ∷ es) = Vacant es
Vacant (unlinked ∷ es) = Vacant es
Vacant (spawned name ∷ es) = Vacant es
Vacant (bound port b ∷ es) =
    (rf : RuntimeFile) × Recorded rf es × (rf.port ≡ port) × (is_held b ≡ false)
Vacant (e ∷ es) = ⊥

-- Each process was asked for while the port was known to be vacant.
unfoldable pub Justified : List Event → Type 0
Justified [] = Unit
Justified (spawned name ∷ es) = Vacant es × Justified es
Justified (e ∷ es) = Justified es

-- `start` goes on to spawn after this status.
abbrev IsIdle : Status → Type 0
IsIdle st = (st.is_running ≡ false) × (is_refused st.kind ≡ false)

Vacant-read :
    (r : Result String (Option RuntimeFile)) (es : List Event) → Vacant es → Vacant (read r ∷ es)
unfolding Vacant
Vacant-read (raise e) es h = h
Vacant-read (ok none) es h = tt
Vacant-read (ok (some rf)) es h = h

module _ {W : Type 0} (os : Outside W) (host : String) where
  binding-Vacant :
      (rf : RuntimeFile) (b : Binding) (s : State W)
      → (is_held b ≡ false → Vacant s.trace)
      → IsIdle (status_of_binding os host rf b s).0
      → Vacant (status_of_binding os host rf b s).1.trace
  unfolding status_of_binding clean_stale unresponsive_status Vacant
  binding-Vacant rf bind_held s h idle = absurd (cc)
  binding-Vacant rf bind_free s h idle =
      clear_runtime_if_ours-Keeps os Vacant Vacant-read (λ _ k. k) rf.instance_id s (h refl)
  binding-Vacant rf bind_residue s h idle =
      clear_runtime_if_ours-Keeps os Vacant Vacant-read (λ _ k. k) rf.instance_id s (h refl)

  unanswered-Vacant :
      (rf : RuntimeFile) (s : State W)
      → Recorded rf s.trace
      → IsIdle (unanswered os host rf s).0
      → Vacant (unanswered os host rf s).1.trace
  unfolding unanswered port_binding Vacant
  unanswered-Vacant rf s h idle =
      binding-Vacant rf _ _
        (λ free. (rf, resolved_binding-Keeps os (Recorded rf) _ _ h, refl, free)) idle

  probe-Vacant :
      (rf : RuntimeFile) (p : Probe) (s : State W)
      → Recorded rf s.trace
      → IsIdle (status_of_probe os host rf p s).0
      → Vacant (status_of_probe os host rf p s).1.trace
  unfolding status_of_probe running_status other_gateway_status foreign_status
  probe-Vacant rf (probe_ok i) s h idle = elim (Bool-cases (i == rf.instance_id)) [
    | inl e ↦ absurd (ground arith)
    | inr e ↦ absurd (ground arith)
  ]
  probe-Vacant rf probe_foreign s h idle = absurd (cc)
  probe-Vacant rf probe_refused s h idle = unanswered-Vacant rf s h idle
  probe-Vacant rf probe_timeout s h idle = unanswered-Vacant rf s h idle

  record-Vacant :
      (r : Result String (Option RuntimeFile)) (w : W) (es : List Event)
      → IsIdle (status_of_record os host r (record { outside = w; trace = read r ∷ es })).0
      → Vacant (status_of_record os host r (record { outside = w; trace = read r ∷ es })).1.trace
  unfolding status_of_record probe_health Vacant Recorded
  record-Vacant (raise e) w es idle = absurd (cc)
  record-Vacant (ok none) w es idle = tt
  record-Vacant (ok (some rf)) w es idle = probe-Vacant rf _ _ (inl refl) idle

  status-Vacant : (s : State W) → IsIdle (status os host s).0 → Vacant (status os host s).1.trace
  unfolding status read_file
  status-Vacant s idle = record-Vacant _ _ _ idle

  status-Justified : Keeps Justified (status os host)
  unfolding Justified
  status-Justified =
      status-Keeps os Justified (λ _ _ _ h. h) (λ _ _ _ h. h) (λ _ _ h. h) (λ _ h. h) host

  abbrev Both : List Event → Type 0
  Both es = Vacant es × Justified es

  module _ (launcher : Launcher W) where
    polled-Both :
        (rest : Program W (Unit {0})) (code : Option ℤ)
        → Keeps Both rest
        → Keeps Both (grace_polled os launcher rest code)
    polled-Both rest (some c) k s h = h
    polled-Both rest none k s h = k _ h

    grace-Both : (polls : ℕ) (pid : ℤ) → Keeps Both (grace os launcher polls pid)
    unfolding grace
    grace-Both zero pid s h = h
    grace-Both (suc polls) pid s h =
        polled-Both (grace os launcher polls pid) _ (grace-Both polls pid) _ h

    settled-Both : (pid : ℤ) (code : Option ℤ) → Keeps Both (settled os launcher pid code)
    settled-Both pid none s h = h
    settled-Both pid (some c) s h = h

    after_popen-Both :
        (polls : ℕ) (child : Result String ℤ) → Keeps Both (after_popen os launcher polls child)
    after_popen-Both polls (raise e) s h = h
    after_popen-Both polls (ok pid) s h = settled-Both pid _ _ (grace-Both polls pid s h)

    launch-Both : (polls : ℕ) (name : String) → Keeps Both (launch os launcher polls name)
    unfolding launch Vacant Justified
    launch-Both polls name s h =
        after_popen-Both polls (launcher.popen name s.outside).0
          (record { outside = (launcher.popen name s.outside).1; trace = spawned name ∷ s.trace })
          (h.0, h)

    launched-Both :
        (name : String) (rest : String → Program W (Result StopError Spawned))
        (outcome : Result String ℤ)
        → ((e : String) → Keeps Both (rest e))
        → Keeps Both (launched os launcher name rest outcome)
    launched-Both name rest (ok pid) k s h = h
    launched-Both name rest (raise e) k s h = k e s h

    attempt-Both :
        (polls : ℕ) (name : String) (rest : String → Program W (Result StopError Spawned))
        (opened : Option String)
        → ((e : String) → Keeps Both (rest e))
        → Keeps Both (attempt os launcher polls name rest opened)
    attempt-Both polls name rest (some e) k s h = h
    attempt-Both polls name rest none k s h =
        launched-Both name rest (launch os launcher polls name s).0 k _ (launch-Both polls name s h)

    strategies-Both :
        (polls : ℕ) (names : List String) (last_error : String)
        → Keeps Both (try_strategies os launcher polls names last_error)
    unfolding try_strategies
    strategies-Both polls [] last_error s h = h
    strategies-Both polls (name ∷ names) last_error s h =
        attempt-Both polls name (λ e. try_strategies os launcher polls names e) _
          (λ e. strategies-Both polls names e) _ h

    candidate-Justified :
        (strategy : String) (rest : Program W (Result StopError Status)) (candidate : Status)
        → Keeps Justified rest
        → Keeps Justified (start_candidate os launcher strategy rest candidate)
    candidate-Justified strategy rest candidate k s h =
        branch Justified candidate.is_running (done (ok (with_strategy strategy candidate)))
          (pause os launcher >> rest) s h (k _ h)

    poll-Justified :
        (strategy : String) (rest : Program W (Result StopError Status)) (code : Option ℤ)
        → Keeps Justified rest
        → Keeps Justified (start_polled os launcher host strategy rest code)
    poll-Justified strategy rest (some c) k s h = h
    poll-Justified strategy rest none k s h =
        candidate-Justified strategy rest (status os host s).0 k _ (status-Justified s h)

    await_start-Justified :
        (polls : ℕ) (child : Spawned) → Keeps Justified (await_start os launcher host polls child)
    unfolding await_start
    await_start-Justified zero child s h = h
    await_start-Justified (suc polls) (pid, strategy) s h =
        poll-Justified strategy (await_start os launcher host polls (pid, strategy)) _
          (await_start-Justified polls (pid, strategy)) _ h

    spawned-Justified :
        (polls : ℕ) (outcome : Result StopError Spawned)
        → Keeps Justified (start_spawned os launcher host polls outcome)
    unfolding start_spawned
    spawned-Justified polls (raise e) s h = h
    spawned-Justified polls (ok child) s h = await_start-Justified polls child s h

    idle-Justified :
        (grace_polls polls : ℕ) (current : Status) (s : State W)
        → (IsIdle current → Vacant s.trace)
        → Justified s.trace
        → Justified (start_of_status os launcher host grace_polls polls current s).1.trace
    unfolding start_of_status spawn
    idle-Justified grace_polls polls current s vacant h =
        branch_else Justified current.is_running (done (ok current)) _ s h (λ e.
          branch_else Justified (is_refused current.kind) (done (raise (refusing_to_start current)))
            (spawn os launcher grace_polls >>= start_spawned os launcher host polls) s h
            (λ k.
              spawned-Justified polls _ _
                (strategies-Both grace_polls (strategies os.is_windows) "None" s
                  (vacant (e, k), h)).1))

    -- Each time that `start` asks for a process, a read has found no runtime file, or the bind test has
    -- found free of listeners the port of a runtime file read earlier, and nothing followed but reads of
    -- the file, whatever they found, its removal, and attempts to spawn; whatever the world does between
    -- the calls.
    pub start-Justified :
        (grace_polls polls : ℕ) → Keeps Justified (start os launcher host grace_polls polls)
    unfolding start
    start-Justified grace_polls polls s h =
        idle-Justified grace_polls polls (status os host s).0 (status os host s).1 (status-Vacant s)
          (status-Justified s h)
