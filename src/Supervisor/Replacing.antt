-- ===== src/Supervisor/Replacing.antt =====
-- What `start` and `restart` return: a gateway that runs, and after a restart another one.
use hermes_auto.Json.{ℤ}
use hermes_auto.Prelude.Result.{Result, ok, raise, ok-injective}
use hermes_auto.Prelude.{
  ℕ, zero, suc, String, Bool, true, false, ◌&&◌, Option, some, none, ◌≡◌, ◌≢◌, refl, subst,
  if◌then◌else◌, arith, eq_refl,
}
use hermes_auto.Supervisor.Machine.{Outside, State, Program, ◌>>=◌, ◌>>◌, done}
use hermes_auto.Supervisor.Reporting.{Status, status}
use hermes_auto.Supervisor.Spawning.{Launcher, Spawned, pause, spawn}
use hermes_auto.Supervisor.Starting.{
  change_candidate, restart_from, start_polled, await_change, await_start, is_changed, is_refused,
  previous_of, refusing_to_start, restart, restart_started, restart_stopped, start, start_of_status,
  start_spawned, with_strategy,
}
use hermes_auto.Supervisor.Stopping.{StopError}

-- Whatever the program returns without raising satisfies the predicate.
abbrev Returns : {W : Type 0} → (Status → Type 0) → Program W (Result StopError Status) → Type 0
Returns {W} P m = (s : State W) (st : Status) → (m s).0 ≡ ok st → P st

-- A test whose branches return what satisfies the predicate.
branch-Returns :
    {W : Type 0} (P : Status → Type 0) (c : Bool) (p q : Program W (Result StopError Status))
    → (c ≡ true → Returns P p)
    → Returns P q
    → Returns P (if c then p else q)
branch-Returns P true p q f g = f refl
branch-Returns P false p q f g = g

returned :
    {W : Type 0} (P : Status → Type 0) (st : Status) → P st → Returns {W = W} P (done (ok st))
returned P st h s st' e = subst P (ok-injective e) h

raised : {W : Type 0} (P : Status → Type 0) (e : StopError) → Returns {W = W} P (done (raise e))
raised P e s st h = absurd (cc)

abbrev IsUp : Status → Type 0
IsUp st = st.is_running ≡ true

module _ {W : Type 0} (os : Outside W) (launcher : Launcher W) (host : String) where
  polled-IsUp :
      (strategy : String) (rest : Program W (Result StopError Status)) (code : Option ℤ)
      → Returns IsUp rest
      → Returns IsUp (start_polled os launcher host strategy rest code)
  polled-IsUp strategy rest (some c) up = raised IsUp _
  polled-IsUp strategy rest none up = λ s st h.
      branch-Returns IsUp (status os host s).0.is_running
        (done (ok (with_strategy strategy (status os host s).0))) (pause os launcher >> rest)
        (λ e. returned IsUp (with_strategy strategy (status os host s).0) e)
        (λ s' st' k. up _ st' k) _ st h

  await_start-IsUp :
      (polls : ℕ) (child : Spawned) → Returns IsUp (await_start os launcher host polls child)
  unfolding await_start
  await_start-IsUp zero child s st h = absurd (cc)
  await_start-IsUp (suc polls) (pid, strategy) s st h =
      polled-IsUp strategy (await_start os launcher host polls (pid, strategy)) _
        (await_start-IsUp polls (pid, strategy)) _ st h

  spawned-IsUp :
      (polls : ℕ) (outcome : Result StopError Spawned)
      → Returns IsUp (start_spawned os launcher host polls outcome)
  unfolding start_spawned
  spawned-IsUp polls (raise e) = raised IsUp e
  spawned-IsUp polls (ok child) = await_start-IsUp polls child

  from_status-IsUp :
      (grace_polls polls : ℕ) (current : Status)
      → Returns IsUp (start_of_status os launcher host grace_polls polls current)
  unfolding start_of_status
  from_status-IsUp grace_polls polls current =
      branch-Returns IsUp current.is_running (done (ok current)) _ (returned IsUp current) (
        branch-Returns IsUp (is_refused current.kind) (done (raise (refusing_to_start current)))
          (spawn os launcher grace_polls >>= start_spawned os launcher host polls)
          (λ _. raised IsUp (refusing_to_start current)) (λ s st h. spawned-IsUp polls _ _ st h))

  start-IsUp : (grace_polls polls : ℕ) → Returns IsUp (start os launcher host grace_polls polls)
  unfolding start
  start-IsUp grace_polls polls s st h =
      from_status-IsUp grace_polls polls (status os host s).0 _ st h

  module _ (previous : Option String) where
    -- a status that `restart` may return
    abbrev IsNew : Status → Type 0
    IsNew st = IsUp st × (is_changed previous st.instance_id ≡ true)

    changed-IsNew :
        (rest : Program W (Result StopError Status)) (candidate : Status)
        → Returns IsNew rest
        → Returns IsNew (change_candidate os launcher previous rest candidate)
    changed-IsNew rest candidate new =
        branch-Returns IsNew (candidate.is_running && is_changed previous candidate.instance_id)
          (done (ok candidate)) (pause os launcher >> rest)
          (λ e. returned IsNew candidate (ground arith, ground arith)) (λ s st k. new _ st k)

    await_change-IsNew : (polls : ℕ) → Returns IsNew (await_change os launcher host previous polls)
    unfolding await_change
    await_change-IsNew zero s st h = absurd (cc)
    await_change-IsNew (suc polls) s st h =
        changed-IsNew (await_change os launcher host previous polls) (status os host s).0
          (await_change-IsNew polls) _ st h

    started-IsNew :
        (polls : ℕ) (outcome : Result StopError Status)
        → ((st : Status) → outcome ≡ ok st → IsUp st)
        → Returns IsNew (restart_started os launcher host polls previous outcome)
    unfolding restart_started
    started-IsNew polls (raise e) up = raised IsNew e
    started-IsNew polls (ok started) up =
        branch-Returns IsNew (is_changed previous started.instance_id) (done (ok started))
          (await_change os launcher host previous polls)
          (λ e. returned IsNew started (up started refl, e)) (await_change-IsNew polls)

    stopped-IsNew :
        (grace_polls polls more_polls : ℕ) (outcome : Result StopError Status)
        → Returns IsNew
            (restart_stopped os launcher host grace_polls polls more_polls previous outcome)
    unfolding restart_stopped
    stopped-IsNew grace_polls polls more_polls (raise e) = raised IsNew e
    stopped-IsNew grace_polls polls more_polls (ok stopped) = λ s st h.
        started-IsNew more_polls (start os launcher host grace_polls polls s).0
          (λ up e. start-IsUp grace_polls polls s up e) _ st h

  changed-ne :
      (i : String) (before st : Status)
      → before.is_running ≡ true
      → before.instance_id ≡ some i
      → is_changed (previous_of before) st.instance_id ≡ true
      → st.instance_id ≢ some i
  changed-ne i before st up named changed same =
      let previous : previous_of before ≡ some i = rw (up, named) refl in
      let told : is_changed (some i) (some i) ≡ true =
        subst (λ o. is_changed (some i) o ≡ true) same
          (subst (λ o. is_changed o st.instance_id ≡ true) previous changed) in
      absurd (ground (arith, eq_refl i, told))

  -- Where a gateway ran before and `restart` returns, a gateway runs, and it is another one: its
  -- instance id is not the one that the first status gave. Whatever the world does in between.
  pub restart-replaces :
      (admin_token : Option String) (stop_polls : ℕ × ℕ × ℕ) (grace_polls polls more_polls : ℕ)
      (s : State W) (i : String) (st : Status)
      → (status os host s).0.is_running ≡ true
      → (status os host s).0.instance_id ≡ some i
      → (restart os launcher host admin_token stop_polls grace_polls polls more_polls s).0 ≡ ok st
      → (st.is_running ≡ true) × (st.instance_id ≢ some i)
  unfolding restart restart_from
  restart-replaces admin_token stop_polls grace_polls polls more_polls s i st up named h =
      let (runs, changed) =
        stopped-IsNew (previous_of (status os host s).0) grace_polls polls more_polls _ _ st h in
      (runs, changed-ne i (status os host s).0 st up named changed)
