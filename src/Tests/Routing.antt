-- ===== src/Tests/Routing.antt =====
-- The theorems on routing at concrete inputs.
use mathlib.Core.List.{Perm}
use hermes_auto.Config.{CandidateConfig}
use hermes_auto.Prelude.Result.{ok}
use hermes_auto.Prelude.{
  ◌≡◌, ◌≢◌, ◌≤◌, ◌||◌, refl, arith, All, keep, first, true, false, some, List, [], ◌∷◌, inl, inr,
  get_elem?, Pairs, eq_iff,
}
use hermes_auto.Dict.{IsDistinct, lookup}
use hermes_auto.Json.{length_items}
use hermes_auto.Routing.Candidates.Eligible.{
  can_serve, eligible_candidates-keep, eligible_candidates-filtered, ids, verdict,
}
use hermes_auto.Routing.Candidates.Order.{ordered_candidates-stable, in_tier}
use hermes_auto.Routing.Candidates.Turns.{ordered_candidates-sorted, turn}
use hermes_auto.Routing.Candidates.Tiers.{IsTier, complexity_score-table, score_table}
use hermes_auto.Routing.Candidates.{
  compatibility_tier, detected_tier, eligible_candidates, ordered_candidates, by_tiers, mode_of,
  tier_fallback_order,
}
use hermes_auto.Routing.Request.{
  complexity_score, score_of, declares_tools, has_image_input, estimate_input_tokens,
  text_length_and_fence, latest_user_message, messages,
}
use hermes_auto.Routing.Router.Invariant.{IsValid, start, routed, finalized, Reach-IsValid}
use hermes_auto.Routing.Router.Pinning.{route-candidates}
use hermes_auto.Routing.Router.Sessions.{lookup-commit_self, lookup-commit_ne}
use hermes_auto.Routing.Router.ToolLoop.{route_total, tool_loop_keeps_candidate}
use hermes_auto.Routing.Router.{
  RouteDecision, DecisionRouter, Ref, commit, finalize, pins_session, pins_tool_loop, has_id, route,
  decide, session_key, pin_of, pinned_candidate, pin_order, pin_reason, explain, fingerprint_of,
}
use hermes_auto.Tests.{
  both, first_decision, hello, hello_routed, keyed_digest, large, message_digest, routed_router,
  router, router_built, small, tool_result, blind, with_tools,
}

valid : IsValid router
valid = Reach-IsValid keyed_digest message_digest (start both 4 2 "salt" router_built)

tiers : All (λ (c : CandidateConfig). IsTier c.tier) both
tiers = (inl refl, (inr (inr refl), tt))

distinct : IsDistinct (ids both)
distinct = (refl, (refl, tt))

small_serves : first (has_id "small") (keep (can_serve tool_result) both) ≡ some small
unfolding declares_tools has_image_input estimate_input_tokens
small_serves = refl

large_serves : first (has_id "large") (keep (can_serve tool_result) both) ≡ some large
unfolding declares_tools has_image_input estimate_input_tokens
large_serves = refl

continues : pins_tool_loop tool_result ≡ true
unfolding pins_tool_loop
continues = refl

tool_loop_keeps_candidate_example :
    (after : DecisionRouter × Ref) × (route keyed_digest message_digest
        (finalize routed_router 0 large [])
        tool_result
        "session"
        "auto"
      ≡ ok after)
    × ((e : RouteDecision) × (get_elem? after.0.heap after.1 ≡ some e)
        × (e.selected ≡ large)
        × (e.pinned ≡ some "tool_loop"))
tool_loop_keeps_candidate_example =
    tool_loop_keeps_candidate keyed_digest message_digest router hello tool_result "session" "auto"
      "auto" large [] valid hello_routed continues large_serves

route-candidates_example :
    (d : RouteDecision) × (get_elem? routed_router.heap 0 ≡ some d)
    × Perm d.candidates (keep (can_serve hello) both)
    × ((others : List CandidateConfig) × (d.candidates ≡ d.selected ∷ others))
route-candidates_example =
    route-candidates keyed_digest message_digest router hello "session" "auto" tiers distinct
      hello_routed

Reach-IsValid_example : IsValid (finalize routed_router 0 large [])
Reach-IsValid_example = Reach-IsValid keyed_digest message_digest (
    finalized 0 large []
      (routed hello "session" "auto" (start both 4 2 "salt" router_built) hello_routed))

known :
    lookup (session_key keyed_digest message_digest routed_router "session") routed_router.sessions
    ≡ some (record { candidate_id = "small"; decision = 0 })
unfolding session_key
known = refl

pins : (pins_tool_loop tool_result || pins_session "auto") ≡ true
unfolding pins_tool_loop
pins = refl

some_serves : keep (can_serve hello) both ≢ []
unfolding declares_tools has_image_input estimate_input_tokens
some_serves h = cc

route_total_example :
    (d : RouteDecision) × (route keyed_digest message_digest router hello "session" "auto"
      ≡ ok (commit router (session_key keyed_digest message_digest router "session") d))
route_total_example =
    route_total keyed_digest message_digest router hello "session" "auto" tiers some_serves

none_serves : keep (can_serve with_tools) (blind ∷ []) ≡ []
unfolding declares_tools has_image_input estimate_input_tokens
none_serves = refl

fresh : (pins_tool_loop hello || pins_session "auto") ≡ false
unfolding pins_tool_loop pins_session
fresh = refl

decided :
    decide keyed_digest message_digest routed_router hello "session" "auto" both []
    ≡ ok first_decision
unfolding decide pin_of pinned_candidate pin_order pin_reason explain ordered_candidates by_tiers
    tier_fallback_order session_key fingerprint_of detected_tier compatibility_tier mode_of
    complexity_score score_of pins_tool_loop pins_session
decided = refl

eligible_candidates-keep_example :
    (eligible_candidates (blind ∷ both) with_tools).0 ≡ keep (can_serve with_tools) (blind ∷ both)
eligible_candidates-keep_example = eligible_candidates-keep (blind ∷ both) with_tools

eligible_candidates-filtered_example :
    All
      (λ (c : CandidateConfig).
        lookup c.id (eligible_candidates (blind ∷ both) with_tools).1
        ≡ verdict
            (declares_tools with_tools)
            (has_image_input with_tools)
            (estimate_input_tokens with_tools)
            c)
      (blind ∷ both)
eligible_candidates-filtered_example =
    eligible_candidates-filtered (blind ∷ both) with_tools (refl, (refl, (refl, tt)))

ordered_candidates-sorted_example :
    Perm (ordered_candidates both "strong") both
    × Pairs (λ x y. turn "strong" x.tier ≤ turn "strong" y.tier) (ordered_candidates both "strong")
ordered_candidates-sorted_example = ordered_candidates-sorted "strong" (inr (inr refl)) both tiers

ordered_candidates-stable_example :
    keep (in_tier "fast") (ordered_candidates both "strong") ≡ keep (in_tier "fast") both
ordered_candidates-stable_example =
    ordered_candidates-stable "strong" both (inr (inr refl)) "fast" (inl refl)

complexity_score-table_example :
    (complexity_score hello
      ≡ score_table
          (declares_tools hello)
          (text_length_and_fence (latest_user_message hello))
          (estimate_input_tokens hello)
          (has_image_input hello)
          (length_items (messages hello)))
    × (complexity_score hello ≤ 7)
complexity_score-table_example = complexity_score-table hello

lookup-commit_self_example :
    lookup "other" (commit router "other" first_decision).0.sessions
    ≡ some (record { candidate_id = "small"; decision = 0 })
lookup-commit_self_example = lookup-commit_self router "other" first_decision valid

lookup-commit_ne_example :
    lookup "session" (commit routed_router "other" first_decision).0.sessions
    ≡ lookup "session" routed_router.sessions
lookup-commit_ne_example =
    lookup-commit_ne routed_router "other" "session" first_decision (omega arith)
      (λ h. ground (arith, eq_iff "other" "session", h))
