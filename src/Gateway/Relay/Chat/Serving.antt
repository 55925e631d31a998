-- ===== src/Gateway/Relay/Chat/Serving.antt =====
-- What requests do to the router of the gateway, alone and interleaved: the handler awaits its
-- upstreams between `route` and `finalize`, so that others may run, and can be cancelled there.
use hermes_auto.Gateway.Errors.{GatewayError}
use hermes_auto.Gateway.Ingress.{Inbound}
use hermes_auto.Gateway.Relay.{Outcome, committed, exhausted, aborted}
use hermes_auto.Gateway.Relay.Chat.{
  App, Surroundings, admit, candidates_of, chat_completions, dispatch, note_attempts, relay,
  route_request, serve, settle, root_session_of, virtual_model_of,
}
use hermes_auto.Json.{Fields}
use hermes_auto.Prelude.Result.{Result, ok, raise}
use hermes_auto.Prelude.{
  ◌≡◌, refl, sym, subst, ap, ◌∙◌, none, some, List, [], ◌∷◌, ◌++◌, All-map, Bool-cases,
  Option-cases, inl, inr, length, length-set, get_elem?, set, ◌=ℕ◌, =ℕ_iff, arith,
}
use hermes_auto.Routing.Router.Invariant.{Agrees, IsValid, finalize-IsValid, route-IsValid}
use hermes_auto.Routing.Router.Table.{selected_at, id_of, get_elem?-set_self, get_elem?-set_ne}
use hermes_auto.Routing.Router.{Attempt, DecisionRouter, Ref, RouteDecision, RoutingError}

module _ (d : Ref) (a : List Attempt) (heap : List RouteDecision) where
  note_attempts-none : get_elem? heap d ≡ none → note_attempts d a heap ≡ heap
  unfolding note_attempts
  note_attempts-none h = ground arith

  note_attempts-some :
      (x : RouteDecision)
      → get_elem? heap d ≡ some x
      → note_attempts d a heap ≡ set heap d (record x { attempts = a })
  unfolding note_attempts
  note_attempts-some x h = ground arith

  length-note_attempts : length (note_attempts d a heap) ≡ length heap
  length-note_attempts = elim (Option-cases (get_elem? heap d)) [
    | inl e ↦ rw (note_attempts-none e)
    | inr (x, e) ↦ rw (note_attempts-some x e) (length-set heap d (record x { attempts = a }))
  ]

  -- Noting the attempts changes no selected candidate.
  selected-note_attempts : (x : Ref) → selected_at (note_attempts d a heap) x ≡ selected_at heap x
  selected-note_attempts x = elim (Option-cases (get_elem? heap d)) [
    | inl e ↦ rw (note_attempts-none e) refl
    | inr (y, e) ↦ elim (Bool-cases (x =ℕ d)) [
      | inr ne ↦
          rw (note_attempts-some y e)
            (ap id_of (get_elem?-set_ne heap d x (record y { attempts = a }) ne))
      | inl is ↦
          rw (note_attempts-some y e, (=ℕ_iff x d).0 is)
            (ap id_of (get_elem?-set_self heap d y (record y { attempts = a }) e)
              ∙ sym (ap id_of e))
    ]
  ]

settle-IsValid : (r : DecisionRouter) (d : Ref) (o : Outcome) → IsValid r → IsValid (settle r d o).1
unfolding settle
settle-IsValid r d (committed c attempts response) h = finalize-IsValid r d c attempts h
settle-IsValid r d (aborted name) h = h
settle-IsValid r d (exhausted attempts) h = record {
  some_session = h.some_session;
  some_decision = h.some_decision;
  bounded = h.bounded;
  recent = h.recent;
  distinct = h.distinct;
  agree =
      All-map (Agrees r.heap) (Agrees (note_attempts d attempts r.heap)) r.sessions
        (λ e k. selected-note_attempts d attempts r.heap e.1.decision ∙ k) h.agree;
  unshared = h.unshared;
  live = rw (length-note_attempts d attempts r.heap) h.live;
}

module _ (env : Surroundings) (app : App) (request : Inbound) where
  dispatch-IsValid :
      (forwarded : Fields) (x : Result RoutingError (DecisionRouter × Ref))
      → IsValid app.router
      → ((n : DecisionRouter × Ref) → x ≡ ok n → IsValid n.0)
      → IsValid (dispatch env request forwarded app.router x).1
  unfolding dispatch
  dispatch-IsValid forwarded (raise e) h f = h
  dispatch-IsValid forwarded (ok (r, d)) h f =
      settle-IsValid r d (relay env request forwarded (candidates_of r d)) (f (r, d) refl)

  serve-IsValid :
      (x : Result GatewayError (Fields × Fields))
      → IsValid app.router
      → IsValid (serve env app request x).1
  unfolding serve route_request
  serve-IsValid (raise e) h = h
  serve-IsValid (ok (forwarded, envelope)) h =
      dispatch-IsValid forwarded (route_request env app forwarded envelope) h (λ n e.
        route-IsValid env.keyed_digest env.message_digest app.router forwarded
          (root_session_of env.python envelope) (virtual_model_of env.python envelope forwarded) h
          e)

  -- A request keeps the invariant of the router if it held before, however the request ends.
  pub chat_completions-IsValid : IsValid app.router → IsValid (chat_completions env app request).1
  unfolding chat_completions
  chat_completions-IsValid h = serve-IsValid (admit env app request) h

  route_request-IsValid :
      (forwarded envelope : Fields) {r : DecisionRouter} {d : Ref}
      → IsValid app.router
      → route_request env app forwarded envelope ≡ ok (r, d)
      → IsValid r
  unfolding route_request
  route_request-IsValid forwarded envelope h e =
      route-IsValid env.keyed_digest env.message_digest app.router forwarded
        (root_session_of env.python envelope) (virtual_model_of env.python envelope forwarded) h e

-- The router, and the requests that wait for their upstreams, with what they will come to.
pub record Server : Type 0 where
  pub router : DecisionRouter
  pub waiting : List (Ref × Outcome)

-- A server from its start on. A request is admitted and routed without a wait, on the router as it
-- then is, and waits for its upstreams. Any waiting request may be the next to settle, on the router as
-- the others have left it, or be cancelled.
pub data Serves (start : DecisionRouter) : Server → Type 0 where
  started : Serves start (record { router = start; waiting = [] })
  begun :
      {s : Server} (env : Surroundings) (app : App) (request : Inbound)
      {forwarded envelope : Fields} {r : DecisionRouter} {d : Ref}
      → Serves start s
      → app.router ≡ s.router
      → admit env app request ≡ ok (forwarded, envelope)
      → route_request env app forwarded envelope ≡ ok (r, d)
      → Serves start (record {
        router = r;
        waiting = (d, relay env request forwarded (candidates_of r d)) ∷ s.waiting;
      })
  settled :
      {s : Server} (d : Ref) (o : Outcome) (before after : List (Ref × Outcome))
      → Serves start s
      → s.waiting ≡ before ++ (d, o) ∷ after
      → Serves start (record { router = (settle s.router d o).1; waiting = before ++ after })
  cancelled :
      {s : Server} (d : Ref) (o : Outcome) (before after : List (Ref × Outcome))
      → Serves start s
      → s.waiting ≡ before ++ (d, o) ∷ after
      → Serves start (record { router = s.router; waiting = before ++ after })

-- However requests interleave on a server that starts from a router with the invariant, and whether
-- each is answered, runs out of candidates, ends by an exception or is cancelled, the router keeps the
-- invariant.
pub Serves-IsValid :
    (start : DecisionRouter) {s : Server} → IsValid start → Serves start s → IsValid s.router
Serves-IsValid start h started = h
Serves-IsValid start h (begun env app request {forwarded} {envelope} p same admitted routed) =
    route_request-IsValid env app request forwarded envelope
      (subst IsValid (sym same) (Serves-IsValid start h p)) routed
Serves-IsValid start h (settled {s} d o before after p e) =
    settle-IsValid s.router d o (Serves-IsValid start h p)
Serves-IsValid start h (cancelled d o before after p e) = Serves-IsValid start h p

-- A request that nothing interleaves is one that begins and settles.
pub chat_completions-Serves :
    (env : Surroundings) (app : App) (request : Inbound) {forwarded envelope : Fields}
    {r : DecisionRouter} {d : Ref}
    → admit env app request ≡ ok (forwarded, envelope)
    → route_request env app forwarded envelope ≡ ok (r, d)
    → Serves app.router (record { router = (chat_completions env app request).1; waiting = [] })
unfolding chat_completions serve dispatch
chat_completions-Serves env app request {forwarded} {r = r} {d = d} admitted routed =
    subst (λ (x : DecisionRouter). Serves app.router (record { router = x; waiting = [] }))
      (rw (admitted, routed) refl)
      (settled d (relay env request forwarded (candidates_of r d)) [] []
        (begun env app request started refl admitted routed) refl)
