-- ===== src/Routing/Router/Invariant.antt =====
-- What holds of every reachable `DecisionRouter`: the bounds, distinct sessions, live and unshared
-- objects, and a session table that agrees with the decisions.
use hermes_auto.Config.{CandidateConfig}
use hermes_auto.Dict.{insert, remove, keys, IsDistinct}
use hermes_auto.Json.{Fields}
use hermes_auto.Prelude.Result.{ok, >>=-eq-ok, ok-injective}
use hermes_auto.Prelude.{
  ℕ, ◌≤◌, ◌<◌, String, ◌≡◌, refl, true, false, Option, some, List, [], ◌∷◌, ◌++◌, ◌=ℕ◌, length,
  get_elem?, All, Pairs, arith, Bool-cases, Option-cases, inl, inr, length-append, All-append,
  All-map, Pairs-append, =ℕ_iff, sym, subst,
}
use hermes_auto.Routing.Candidates.{eligible_candidates}
use hermes_auto.Routing.Router.Table.{
  Sessions, move_to_end-insert, length-evict-le, evict-keeps, All-remove, Pairs-remove,
  stored-IsDistinct, length-write_outcome, write_outcome_self, write_outcome_ne, keys-repoint,
  length-repoint, All-repoint, length-append_bounded-le, All-append_bounded, selected_at,
  selected_at-lt, get_elem?-snoc, get_elem?-append,
}
use hermes_auto.Routing.Router.{
  SessionRoute, RouteDecision, DecisionRouter, Ref, Attempt, session_key, init, remember, commit,
  route, route_from, decide, finalize, move_to_end, evict, repoint, write_outcome,
}

abbrev pub Agrees : List RouteDecision → String × SessionRoute → Type 0
Agrees heap e = selected_at heap e.1.decision ≡ some e.1.candidate_id

abbrev pub Unshared : String × SessionRoute → String × SessionRoute → Type 0
Unshared e f = (e.1.decision =ℕ f.1.decision) ≡ false

pub record IsValid (r : DecisionRouter) : Type 0 where
  pub some_session : 1 ≤ r.max_sessions
  pub some_decision : 1 ≤ r.max_decisions
  pub bounded : length r.sessions ≤ r.max_sessions
  pub recent : length r.decisions ≤ r.max_decisions
  pub distinct : IsDistinct (keys r.sessions)
  pub agree : All (Agrees r.heap) r.sessions
  pub unshared : Pairs Unshared r.sessions
  pub live : All (λ d. d < length r.heap) r.decisions

-- What is stored for a key, after the others.
abbrev stored : String → SessionRoute → Sessions → Sessions
stored k v l = remove k l ++ (k, v) ∷ []

module _ (m : ℕ) (key : String) (v : SessionRoute) (l : Sessions) (heap : List RouteDecision)
    (d : RouteDecision) (v_new : v.decision ≡ length heap)
    (v_id : v.candidate_id ≡ d.selected.id) where
  agree-grow : All (Agrees heap) l → All (Agrees (heap ++ d ∷ [])) l
  agree-grow = All-map (Agrees heap) (Agrees (heap ++ d ∷ [])) l (λ e h.
      rw
        (get_elem?-append heap d e.1.decision (selected_at-lt heap e.1.decision e.1.candidate_id h))
        h)

  agree-new : Agrees (heap ++ d ∷ []) (key, v)
  agree-new = rw (v_new, get_elem?-snoc, v_id)

  Unshared-new :
      (l : Sessions) → All (Agrees heap) l → All (λ e. All (Unshared e) ((key, v) ∷ [])) l
  Unshared-new l =
      All-map (Agrees heap) (λ e. All (Unshared e) ((key, v) ∷ [])) l
        (λ e h. (ground (arith, selected_at-lt heap e.1.decision e.1.candidate_id h), tt))

  stored-agree : All (Agrees heap) l → All (Agrees (heap ++ d ∷ [])) (evict m (stored key v l))
  stored-agree h =
      evict-keeps (All (Agrees (heap ++ d ∷ []))) (λ s l h. h.1) m (stored key v l)
        (All-append (Agrees (heap ++ d ∷ [])) (remove key l) ((key, v) ∷ [])
          (All-remove (Agrees (heap ++ d ∷ [])) key l (agree-grow h)) (agree-new, tt))

  stored-Unshared :
      All (Agrees heap) l → Pairs Unshared l → Pairs Unshared (evict m (stored key v l))
  stored-Unshared h p =
      evict-keeps (Pairs Unshared) (λ s l h. h.1) m (stored key v l)
        (Pairs-append Unshared (remove key l) ((key, v) ∷ []) (Pairs-remove Unshared key l p)
          (tt, tt) (Unshared-new (remove key l) (All-remove (Agrees heap) key l h)))

pub commit-IsValid :
    (r : DecisionRouter) (key : String) (d : RouteDecision) → IsValid r → IsValid (commit r key d).0
unfolding commit remember
commit-IsValid r key d h =
    let v : SessionRoute = record { candidate_id = d.selected.id; decision = length r.heap } in
    let e = sym (move_to_end-insert key v r.sessions) in
    record {
      some_session = h.some_session;
      some_decision = h.some_decision;
      bounded = length-evict-le r.max_sessions (move_to_end key (insert key v r.sessions));
      recent =
          length-append_bounded-le r.max_decisions r.decisions (length r.heap) h.some_decision
            h.recent;
      distinct =
          subst (λ l. IsDistinct (keys (evict r.max_sessions l))) e
            (evict-keeps (λ l. IsDistinct (keys l)) (λ s l h. h.1) r.max_sessions
              (stored key v r.sessions) (stored-IsDistinct key v r.sessions h.distinct));
      agree =
          subst (λ l. All (Agrees (r.heap ++ d ∷ [])) (evict r.max_sessions l)) e
            (stored-agree r.max_sessions key v r.sessions r.heap d refl refl h.agree);
      unshared =
          subst (λ l. Pairs Unshared (evict r.max_sessions l)) e
            (stored-Unshared r.max_sessions key v r.sessions r.heap d refl refl h.agree h.unshared);
      live =
          All-append_bounded (λ x. x < length (r.heap ++ d ∷ [])) r.max_decisions r.decisions
            (length r.heap) (omega (arith, length-append r.heap (d ∷ [])))
            (All-map (λ x. x < length r.heap) (λ x. x < length (r.heap ++ d ∷ [])) r.decisions
              (λ x h. omega (arith, length-append r.heap (d ∷ []))) h.live);
    }

module _ (d : Ref) (c : CandidateConfig) (a : List Attempt) (heap : List RouteDecision) where
  selected-written :
      (s : String)
      → selected_at heap d ≡ some s
      → selected_at (write_outcome d c a heap) d ≡ some c.id
  selected-written s h = elim (Option-cases (get_elem? heap d)) [
    | inl e ↦ absurd (ground arith)
    | inr (x, e) ↦ rw (write_outcome_self d c a heap x e) refl
  ]

  agree_other :
      (k : String) (s : SessionRoute)
      → (s.decision =ℕ d) ≡ false
      → Agrees heap (k, s)
      → Agrees (write_outcome d c a heap) (k, s)
  agree_other k s ne h = rw (write_outcome_ne d s.decision c a heap ne) h

  agree_others :
      (e : String × SessionRoute) (l : Sessions)
      → (e.1.decision =ℕ d) ≡ true
      → All (Unshared e) l
      → All (Agrees heap) l
      → All (Agrees (write_outcome d c a heap)) l
  agree_others e [] is u h = tt
  agree_others e ((k, s) ∷ l) is u h =
      (agree_other k s (ground arith) h.0, agree_others e l is u.1 h.1)

  agree_here :
      (k : String) (s : SessionRoute)
      → (s.decision =ℕ d) ≡ true
      → Agrees heap (k, s)
      → Agrees (write_outcome d c a heap) (k, record s { candidate_id = c.id })
  agree_here k s e h =
      let p = (=ℕ_iff s.decision d).0 e in
      subst (λ x. selected_at (write_outcome d c a heap) x ≡ some c.id) (sym p)
        (selected-written s.candidate_id
          (subst (λ x. selected_at heap x ≡ some s.candidate_id) p h))

  repoint-agree :
      (l : Sessions)
      → All (Agrees heap) l
      → Pairs Unshared l
      → All (Agrees (write_outcome d c a heap)) (repoint d c.id l)
  unfolding repoint
  repoint-agree [] h u = tt
  repoint-agree ((k, s) ∷ l) h u = elim (Bool-cases (s.decision =ℕ d)) [
    | inl e ↦ rw e (agree_here k s e h.0, agree_others (k, s) l e u.0 h.1)
    | inr e ↦ rw e (agree_other k s e h.0, repoint-agree l h.1 u.1)
  ]

  repoint-Unshared : (l : Sessions) → Pairs Unshared l → Pairs Unshared (repoint d c.id l)
  unfolding repoint
  repoint-Unshared [] u = tt
  repoint-Unshared ((k, s) ∷ l) u = elim (Bool-cases (s.decision =ℕ d)) [
    | inl e ↦ rw e u
    | inr e ↦ rw e (All-repoint (Unshared (k, s)) d c.id l (λ j t h. h) u.0, repoint-Unshared l u.1)
  ]

-- `finalize` keeps the invariant.
pub finalize-IsValid :
    (r : DecisionRouter) (d : Ref) (c : CandidateConfig) (a : List Attempt)
    → IsValid r
    → IsValid (finalize r d c a)
unfolding finalize
finalize-IsValid r d c a h = record {
  some_session = h.some_session;
  some_decision = h.some_decision;
  bounded = rw (length-repoint d c.id r.sessions) h.bounded;
  recent = h.recent;
  distinct = rw (keys-repoint d c.id r.sessions) h.distinct;
  agree = repoint-agree d c a r.heap r.sessions h.agree h.unshared;
  unshared = repoint-Unshared d c a r.heap r.sessions h.unshared;
  live = rw (length-write_outcome d c a r.heap) h.live;
}

-- A successful `route` commits one decision, made from the eligible candidates.
module _ (keyed_digest : String → String → String) (message_digest : Option Fields → String) where
  route_from_made :
      (r : DecisionRouter) (body : Fields) (root_session_id virtual_model : String)
      (eligible : List CandidateConfig) (filtered : List (String × List String))
      {next : DecisionRouter × Ref}
      → route_from keyed_digest message_digest r body root_session_id virtual_model eligible
          filtered
        ≡ ok next
      → (d : RouteDecision) × (decide keyed_digest message_digest r body root_session_id
            virtual_model eligible filtered
          ≡ ok d)
        × (commit r (session_key keyed_digest message_digest r root_session_id) d ≡ next)
  unfolding route_from
  route_from_made r body root_session_id virtual_model [] filtered h = absurd (cc)
  route_from_made r body root_session_id virtual_model (c ∷ cs) filtered h =
      let (d, made, e) =
        >>=-eq-ok
          (decide keyed_digest message_digest r body root_session_id virtual_model (c ∷ cs)
            filtered)
          (λ d. ok (commit r (session_key keyed_digest message_digest r root_session_id) d)) h in
      (d, made, ok-injective e)

  pub route_made :
      (r : DecisionRouter) (body : Fields) (root_session_id virtual_model : String)
      {next : DecisionRouter × Ref}
      → route keyed_digest message_digest r body root_session_id virtual_model ≡ ok next
      → (d : RouteDecision) × (decide keyed_digest message_digest r body root_session_id
            virtual_model
            (eligible_candidates r.candidates body).0
            (eligible_candidates r.candidates body).1
          ≡ ok d)
        × (commit r (session_key keyed_digest message_digest r root_session_id) d ≡ next)
  unfolding route
  route_made r body root_session_id virtual_model h =
      route_from_made r body root_session_id virtual_model (eligible_candidates r.candidates body).0
        (eligible_candidates r.candidates body).1 h

  -- A successful `route` keeps the invariant.
  pub route-IsValid :
      (r : DecisionRouter) (body : Fields) (root_session_id virtual_model : String)
      {next : DecisionRouter × Ref}
      → IsValid r
      → route keyed_digest message_digest r body root_session_id virtual_model ≡ ok next
      → IsValid next.0
  route-IsValid r body root_session_id virtual_model v h =
      let (d, _, e) = route_made r body root_session_id virtual_model h in
      subst (λ (n : DecisionRouter × Ref). IsValid n.0) e
        (commit-IsValid r (session_key keyed_digest message_digest r root_session_id) d v)

  -- What the gateway does to a router, from its construction on.
  pub data Reach : DecisionRouter → Type 0 where
    start :
        {r : DecisionRouter} (cs : List CandidateConfig) (m n : ℕ) (salt : String)
        → init cs m n salt ≡ ok r
        → Reach r
    routed :
        {before r : DecisionRouter} {d : Ref} (body : Fields)
        (root_session_id virtual_model : String)
        → Reach before
        → route keyed_digest message_digest before body root_session_id virtual_model ≡ ok (r, d)
        → Reach r
    finalized :
        {before : DecisionRouter} (d : Ref) (c : CandidateConfig) (a : List Attempt)
        → Reach before
        → Reach (finalize before d c a)

init-IsValid :
    (cs : List CandidateConfig) (m n : ℕ) (salt : String) {r : DecisionRouter}
    → init cs m n salt ≡ ok r
    → IsValid r
unfolding init
init-IsValid [] m n salt h = absurd (cc)
init-IsValid (c ∷ cs) m n salt h = subst IsValid (ok-injective h) (record {
  some_session = ground arith;
  some_decision = ground arith;
  bounded = omega arith;
  recent = omega arith;
  distinct = tt;
  agree = tt;
  unshared = tt;
  live = tt;
})

-- Every router that is built and then only routed and finalized, in any order, keeps the bounds on
-- sessions and decisions, has no session key twice, and its session table names the candidate that
-- each session's decision selected.
pub Reach-IsValid :
    (keyed_digest : String → String → String) (message_digest : Option Fields → String)
    {r : DecisionRouter}
    → Reach keyed_digest message_digest r
    → IsValid r
Reach-IsValid k m (start cs x y salt h) = init-IsValid cs x y salt h
Reach-IsValid k m (routed {before = b} body root vm p h) =
    route-IsValid k m b body root vm (Reach-IsValid k m p) h
Reach-IsValid k m (finalized {before = b} d c a p) = finalize-IsValid b d c a (Reach-IsValid k m p)
