-- ===== src/Routing/Router/ToolLoop.antt =====
-- `route` succeeds exactly when a candidate is eligible, a tool loop stays on one candidate, and a
-- new user message is routed afresh.
use mathlib.Core.List.Perm
use mathlib.Core.List.{Perm}
use hermes_auto.Config.{CandidateConfig}
use hermes_auto.Dict.{lookup}
use hermes_auto.Json.{Fields}
use hermes_auto.Prelude.Result.{Result, ok}
use hermes_auto.Prelude.{
  String, ◌≡◌, ◌≢◌, refl, sym, ap, subst, ◌∙◌, true, false, not, ◌||◌, Option, none, some, List, [],
  ◌∷◌, arith, if◌then◌else◌, keep, first, All, keep-All, Option-cases, List-cases, inl, inr, length,
  get_elem?,
}
use hermes_auto.Routing.Candidates.{
  ordered_candidates, eligible_candidates, compatibility_tier, detected_tier,
}
use hermes_auto.Routing.Candidates.Eligible.{can_serve, eligible_candidates-keep}
use hermes_auto.Routing.Candidates.Tiers.{IsTier, compatibility_tier-IsTier, detected_tier-IsTier}
use hermes_auto.Routing.Candidates.Order.{ordered_candidates-perm}
use hermes_auto.Routing.Router.Pinning.{explain_made}
use hermes_auto.Routing.Request.{complexity_score}
use hermes_auto.Routing.Router.Table.{get_elem?-snoc}
use hermes_auto.Routing.Router.Invariant.{IsValid, route_made, commit-IsValid}
use hermes_auto.Routing.Router.Sessions.{lookup-commit_self, lookup-repoint}
use hermes_auto.Routing.Router.{
  SessionRoute, RouteDecision, DecisionRouter, RoutingError, Ref, Attempt, has_id, pin_order,
  pinned_candidate, pin_of, pin_reason, pins_tool_loop, pins_session, describe, explain, decide,
  commit, remember, route, route_from, session_key, finalize,
}

no_pin : (o : Option SessionRoute) (es : List CandidateConfig) → pinned_candidate o false es ≡ none
unfolding pinned_candidate
no_pin none es = refl
no_pin (some s) es = refl

module _ (keyed_digest : String → String → String) (message_digest : Option Fields → String) where
  module _ (r : DecisionRouter) (body : Fields) (root_session_id virtual_model : String) where
    abbrev key : String
    key = session_key keyed_digest message_digest r root_session_id

    abbrev outcome : Result RoutingError (DecisionRouter × Ref)
    outcome = route keyed_digest message_digest r body root_session_id virtual_model

    abbrev requested : String
    requested = compatibility_tier virtual_model (detected_tier (complexity_score body))

    -- `outcome` in terms of the candidates that can serve the request
    route_lem :
        route_from keyed_digest message_digest r body root_session_id virtual_model
          (keep (can_serve body) r.candidates)
          (eligible_candidates r.candidates body).1
        ≡ outcome
    unfolding route
    route_lem =
        ap
          (λ es.
            route_from keyed_digest message_digest r body root_session_id virtual_model es
              (eligible_candidates r.candidates body).1)
          (sym (eligible_candidates-keep r.candidates body))

    abbrev pinned_decision :
        CandidateConfig → List CandidateConfig → List (String × List String) → RouteDecision
    pinned_decision c es filtered =
        describe keyed_digest message_digest body requested filtered
          (some (if pins_tool_loop body then "tool_loop" else "session")) c
          (keep (λ item. not (has_id c.id item)) (ordered_candidates es requested))

    pinned_from :
        (es : List CandidateConfig) (filtered : List (String × List String)) (s : SessionRoute)
        (c : CandidateConfig)
        → lookup key r.sessions ≡ some s
        → (pins_tool_loop body || pins_session virtual_model) ≡ true
        → first (has_id s.candidate_id) es ≡ some c
        → route_from keyed_digest message_digest r body root_session_id virtual_model es filtered
          ≡ ok (commit r key (pinned_decision c es filtered))
    unfolding route_from decide pin_of pinned_candidate pin_order explain pin_reason
    pinned_from [] filtered s c known pins found = absurd (cc)
    pinned_from (e ∷ es) filtered s c known pins found = rw (known, pins, found) refl

    route-pinned :
        (s : SessionRoute) (c : CandidateConfig)
        → lookup key r.sessions ≡ some s
        → (pins_tool_loop body || pins_session virtual_model) ≡ true
        → first (has_id s.candidate_id) (keep (can_serve body) r.candidates) ≡ some c
        → (d : RouteDecision) × (outcome ≡ ok (commit r key d))
          × (d.selected ≡ c)
          × (d.pinned ≡ some (if pins_tool_loop body then "tool_loop" else "session"))
    route-pinned s c known pins found = (
      pinned_decision c (keep (can_serve body) r.candidates)
          (eligible_candidates r.candidates body).1,
      sym route_lem
          ∙ pinned_from (keep (can_serve body) r.candidates)
              (eligible_candidates r.candidates body).1 s c known pins found,
      refl,
      refl,
    )

    -- A new user message without a session pin is routed afresh, whatever the session did before: the
    -- order is that of the tiers, and nothing is pinned.
    pub decide_fresh :
        (es : List CandidateConfig) (filtered : List (String × List String)) (d : RouteDecision)
        → (pins_tool_loop body || pins_session virtual_model) ≡ false
        → decide keyed_digest message_digest r body root_session_id virtual_model es filtered ≡ ok d
        → (d.candidates ≡ ordered_candidates es requested) × (d.pinned ≡ none)
    unfolding decide pin_of pin_order pin_reason
    decide_fresh es filtered d pins made =
        let none_pinned =
          ap (λ b. pinned_candidate (lookup key r.sessions) b es) pins
          ∙ no_pin (lookup key r.sessions) es in
        let (_, _, listed, reason) =
          explain_made keyed_digest message_digest body requested filtered none
            (ordered_candidates es requested) d
            (subst
              (λ p.
                explain keyed_digest message_digest body requested filtered
                  (pin_reason p (pins_tool_loop body))
                  (pin_order p (ordered_candidates es requested))
                ≡ ok d)
              none_pinned made) in
        (listed, reason)

    order_some :
        (es : List CandidateConfig)
        → es ≢ []
        → All (λ c. IsTier c.tier) es
        → (c : CandidateConfig) × (cs : List CandidateConfig) × (pin_order
              (pin_of keyed_digest message_digest r body root_session_id virtual_model es)
              (ordered_candidates es requested)
            ≡ c ∷ cs)
    unfolding pin_order
    order_some es some_es tiers =
        elim (Option-cases
          (pin_of keyed_digest message_digest r body root_session_id virtual_model es)) [
            | inr (c, e) ↦ (
              c,
              keep (λ item. not (has_id c.id item)) (ordered_candidates es requested),
              rw e refl,
            )
            | inl e ↦ elim (List-cases (ordered_candidates es requested)) [
              | inr (c, cs, k) ↦ (c, cs, rw (e, k) refl)
              | inl k ↦ absurd (
                  some_es (
                    sym (
                      Perm.nil-eq (
                        subst (λ l. Perm l es) k
                          (ordered_candidates-perm requested es requested_known tiers)))))
            ]
          ]
      where
        requested_known : IsTier requested
        requested_known =
            compatibility_tier-IsTier virtual_model (detected_tier (complexity_score body))
              (detected_tier-IsTier (complexity_score body))

    total_from :
        (c s : CandidateConfig) (cs others : List CandidateConfig)
        (filtered : List (String × List String))
        → pin_order
            (pin_of keyed_digest message_digest r body root_session_id virtual_model (c ∷ cs))
            (ordered_candidates (c ∷ cs) requested)
          ≡ s ∷ others
        → (d : RouteDecision) × (route_from keyed_digest message_digest r body root_session_id
              virtual_model
              (c ∷ cs)
              filtered
            ≡ ok (commit r key d))
    unfolding route_from decide explain
    total_from c s cs others filtered order = (
      describe keyed_digest message_digest body requested filtered
          (pin_reason
            (pin_of keyed_digest message_digest r body root_session_id virtual_model (c ∷ cs))
            (pins_tool_loop body))
          s others,
      rw order refl,
    )

    -- Where the configured tiers are known and some candidate can serve the request, `route` commits a
    -- decision: the `IndexError` of an empty order does not happen.
    pub route_total :
        All (λ c. IsTier c.tier) r.candidates
        → keep (can_serve body) r.candidates ≢ []
        → (d : RouteDecision) × (outcome ≡ ok (commit r key d))
    route_total tiers some_es = elim (List-cases (keep (can_serve body) r.candidates)) [
      | inl e ↦ absurd (some_es e)
      | inr (c, cs, e) ↦
          let filtered = (eligible_candidates r.candidates body).1 in
          let (s, others, order) =
            order_some (c ∷ cs) (λ p. cc)
              (subst (All (λ c. IsTier c.tier)) e
                (keep-All (λ c. IsTier c.tier) (can_serve body) r.candidates tiers)) in
          let (d, made) = total_from c s cs others filtered order in
          (
            d,
            sym route_lem
                ∙ ap
                    (λ es.
                      route_from keyed_digest message_digest r body root_session_id virtual_model es
                        filtered)
                    e
                ∙ made,
          )
    ]

  -- what a session reads after its decision was finalized with `c`
  lookup-finalize :
      (r : DecisionRouter) (k : String) (d : RouteDecision) (c : CandidateConfig)
      (attempts : List Attempt)
      → IsValid r
      → lookup k (finalize (commit r k d).0 (length r.heap) c attempts).sessions
        ≡ some (record { candidate_id = c.id; decision = length r.heap })
  unfolding finalize
  lookup-finalize r k d c attempts valid =
      lookup-repoint (length r.heap) c.id k (commit r k d).0.sessions
        (record { candidate_id = d.selected.id; decision = length r.heap })
        (commit-IsValid r k d valid).unshared (lookup-commit_self r k d valid) (ground arith)

  continue_from :
      (r : DecisionRouter) (d : RouteDecision) (root_session_id virtual_model : String)
      (body : Fields) (c : CandidateConfig) (attempts : List Attempt)
      → IsValid r
      → pins_tool_loop body ≡ true
      → first (has_id c.id) (keep (can_serve body) r.candidates) ≡ some c
      → let k = session_key keyed_digest message_digest r root_session_id in
        let after = finalize (commit r k d).0 (length r.heap) c attempts in
        (e : RouteDecision) × (route keyed_digest message_digest after body root_session_id
            virtual_model
          ≡ ok (commit after k e))
        × (e.selected ≡ c)
        × (e.pinned ≡ some "tool_loop")
  unfolding finalize commit remember session_key
  continue_from r d root_session_id virtual_model body c attempts valid pins found =
      let k = session_key keyed_digest message_digest r root_session_id in
      let (e, routed, selected, reason) =
        route-pinned (finalize (commit r k d).0 (length r.heap) c attempts) body root_session_id
          virtual_model (record { candidate_id = c.id; decision = length r.heap }) c
          (lookup-finalize r k d c attempts valid) (rw pins refl) found in
      (e, routed, selected, reason ∙ rw pins refl)

  -- Of a router that keeps the invariant: after a request of a session was routed, and then answered
  -- by the candidate `c`, the selected one or a fallback,
  -- the session's next request is routed to `c` again if it continues the tool loop and `c` can serve
  -- it.
  pub tool_loop_keeps_candidate :
      (r : DecisionRouter) (body body' : Fields)
      (root_session_id virtual_model virtual_model' : String) (c : CandidateConfig)
      (attempts : List Attempt) {r' : DecisionRouter} {x : Ref}
      → IsValid r
      → route keyed_digest message_digest r body root_session_id virtual_model ≡ ok (r', x)
      → pins_tool_loop body' ≡ true
      → first (has_id c.id) (keep (can_serve body') r.candidates) ≡ some c
      → (after : DecisionRouter × Ref) × (route keyed_digest message_digest
            (finalize r' x c attempts)
            body'
            root_session_id
            virtual_model'
          ≡ ok after)
        × ((e : RouteDecision) × (get_elem? after.0.heap after.1 ≡ some e)
            × (e.selected ≡ c)
            × (e.pinned ≡ some "tool_loop"))
  unfolding commit remember
  tool_loop_keeps_candidate r body body' root_session_id virtual_model virtual_model' c attempts
        {r'} {x} valid routed pins found =
      let k = session_key keyed_digest message_digest r root_session_id in
      let (d, _, made) =
        route_made keyed_digest message_digest r body root_session_id virtual_model routed in
      let (e, again, selected, reason) =
        continue_from r d root_session_id virtual_model' body' c attempts valid pins found in
      let after = finalize (commit r k d).0 (length r.heap) c attempts in
      (
        commit after k e,
        subst
            (λ (n : DecisionRouter × Ref).
              route keyed_digest message_digest (finalize n.0 n.1 c attempts) body' root_session_id
                virtual_model'
              ≡ ok (commit after k e))
            made again,
        (e, get_elem?-snoc after.heap e, selected, reason),
      )
