-- ===== src/Routing/Router/Sessions.antt =====
-- What can be read after a call: the session's own decision, the other sessions, and the outcome.
use hermes_auto.Dict.{lookup, remove, keys, elem}
use hermes_auto.Dict.Laws.{
  lookup-append, lookup-remove, lookup-elem, elem-keys-remove, length-remove-le,
}
use hermes_auto.Prelude.{
  suc, ◌-◌, ◌≤◌, ◌<◌, String, ◌≡◌, ◌≢◌, ap, ◌∙◌, true, false, some, [], ◌∷◌, ◌++◌, eq_iff, eq_refl,
  arith, ◌=ℕ◌, All, Pairs, length,
}
use hermes_auto.Routing.Router.Table.{
  Sessions, evict-keeps, evict-snoc, evict_fits, move_to_end-insert,
}
use hermes_auto.Routing.Router.Invariant.{IsValid, Unshared}
use hermes_auto.Routing.Router.{
  SessionRoute, RouteDecision, DecisionRouter, Ref, commit, remember, evict, repoint,
}

-- The session table after `_remember`: the entry at the end, after the newest of the others.
commit-sessions :
    (r : DecisionRouter) (key : String) (d : RouteDecision)
    → 1 ≤ r.max_sessions
    → (commit r key d).0.sessions
      ≡ evict (r.max_sessions - 1) (remove key r.sessions)
        ++ (key, record { candidate_id = d.selected.id; decision = length r.heap }) ∷ []
unfolding commit remember
commit-sessions r key d h =
    let v : SessionRoute = record { candidate_id = d.selected.id; decision = length r.heap } in
    let e : r.max_sessions ≡ suc (r.max_sessions - 1) = omega arith in
    ap (evict r.max_sessions) (move_to_end-insert key v r.sessions)
    ∙ ap (λ m. evict m (remove key r.sessions ++ (key, v) ∷ [])) e
    ∙ evict-snoc (r.max_sessions - 1) (remove key r.sessions) (key, v)

-- In a router that keeps the invariant, a session reads its own newest decision.
pub lookup-commit_self :
    (r : DecisionRouter) (key : String) (d : RouteDecision)
    → IsValid r
    → lookup key (commit r key d).0.sessions
      ≡ some (record { candidate_id = d.selected.id; decision = length r.heap })
lookup-commit_self r key d h =
    let v : SessionRoute = record { candidate_id = d.selected.id; decision = length r.heap } in
    let rest = evict (r.max_sessions - 1) (remove key r.sessions) in
    let gone : elem key (keys rest) ≡ false =
      evict-keeps (λ l. elem key (keys l) ≡ false) (λ s l k. ground arith) (r.max_sessions - 1)
        (remove key r.sessions) (rw (elem-keys-remove, eq_refl)) in
    rw (commit-sessions r key d h.some_session) (
      ground
        (arith, lookup-append key rest ((key, v) ∷ []), lookup-elem key rest gone, eq_iff key key))

-- Another session reads what it read before, if the table has room for one more session.
pub lookup-commit_ne :
    (r : DecisionRouter) (key other : String) (d : RouteDecision)
    → length r.sessions < r.max_sessions
    → key ≢ other
    → lookup other (commit r key d).0.sessions ≡ lookup other r.sessions
lookup-commit_ne r key other d h ne =
    let v : SessionRoute = record { candidate_id = d.selected.id; decision = length r.heap } in
    let rest = remove key r.sessions in
    let fits : evict (r.max_sessions - 1) rest ≡ rest =
      evict_fits (r.max_sessions - 1) rest (omega (arith, length-remove-le key r.sessions)) in
    rw (commit-sessions r key d (omega arith), fits)
      (lookup-append other rest ((key, v) ∷ [])
        ∙ ground (arith, lookup-remove key other r.sessions, eq_iff key other))

Unshared-lookup :
    (e : String × SessionRoute) (k : String) (l : Sessions) (s : SessionRoute)
    → All (Unshared e) l
    → lookup k l ≡ some s
    → (e.1.decision =ℕ s.decision) ≡ false
Unshared-lookup e k [] s h p = absurd (cc)
Unshared-lookup e k ((j, t) ∷ l) s h p = ground (arith, Unshared-lookup e k l s h.1)

-- `finalize` gives the session of the decision its new candidate.
pub lookup-repoint :
    (d : Ref) (c k : String) (l : Sessions) (s : SessionRoute)
    → Pairs Unshared l
    → lookup k l ≡ some s
    → (s.decision =ℕ d) ≡ true
    → lookup k (repoint d c l) ≡ some (record s { candidate_id = c })
unfolding repoint
lookup-repoint d c k [] s u h e = absurd (cc)
lookup-repoint d c k ((j, t) ∷ l) s u h e =
    ground (arith, Unshared-lookup (j, t) k l s u.0, lookup-repoint d c k l s u.1)
