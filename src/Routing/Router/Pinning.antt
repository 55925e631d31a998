-- ===== src/Routing/Router/Pinning.antt =====
-- Which candidates a decision lists, and when a session keeps its candidate.
use mathlib.Core.List.Perm
use mathlib.Core.List.{Perm}
use hermes_auto.Config.{CandidateConfig}
use hermes_auto.Dict.{lookup, elem, IsDistinct}
use hermes_auto.Json.{Fields}
use hermes_auto.Prelude.Result.{ok}
use hermes_auto.Prelude.{
  String, ◌≡◌, refl, sym, subst, ◌∙◌, Bool, true, false, not, ◌||◌, Option, none, some, List, [],
  ◌∷◌, eq_iff, arith, keep, first, All, keep-All, Bool-cases, Option-cases, inl, inr, get_elem?,
  keep-append,
}
use hermes_auto.Routing.Candidates.{
  ordered_candidates, by_tiers, compatibility_tier, detected_tier, eligible_candidates,
}
use hermes_auto.Routing.Candidates.Eligible.{ids, can_serve, eligible_candidates-keep}
use hermes_auto.Routing.Candidates.Order.{ordered_candidates-perm, in_tier}
use hermes_auto.Routing.Candidates.Tiers.{IsTier, detected_tier-IsTier, compatibility_tier-IsTier}
use hermes_auto.Routing.Request.{complexity_score}
use hermes_auto.Routing.Router.Table.{get_elem?-snoc}
use hermes_auto.Routing.Router.Invariant.{route_made}
use hermes_auto.Routing.Router.{
  SessionRoute, RouteDecision, DecisionRouter, Ref, has_id, pin_order, pinned_candidate, pin_of,
  pin_reason, pins_tool_loop, pins_session, explain, decide, commit, remember, route, session_key,
}

module _ (p q : CandidateConfig → Bool) where
  keep_comm : (cs : List CandidateConfig) → keep p (keep q cs) ≡ keep q (keep p cs)
  keep_comm [] = refl
  keep_comm (c ∷ cs) = ground (arith, keep_comm cs)

keep-by_tiers :
    (q : CandidateConfig → Bool) (ts : List String) (cs : List CandidateConfig)
    → keep q (by_tiers ts cs) ≡ by_tiers ts (keep q cs)
unfolding by_tiers
keep-by_tiers q [] cs = refl
keep-by_tiers q (t ∷ ts) cs = rw (keep-append, keep-by_tiers q ts cs, keep_comm q (in_tier t) cs)

abbrev other : String → CandidateConfig → Bool
other k c = not (has_id k c)

keep_all_other :
    (k : String) (cs : List CandidateConfig) → elem k (ids cs) ≡ false → keep (other k) cs ≡ cs
keep_all_other k [] h = refl
keep_all_other k (c ∷ cs) h = ground (arith, keep_all_other k cs)

elem-ids-keep :
    (k : String) (p : CandidateConfig → Bool) (cs : List CandidateConfig)
    → elem k (ids cs) ≡ false
    → elem k (ids (keep p cs)) ≡ false
elem-ids-keep k p [] h = refl
elem-ids-keep k p (c ∷ cs) h = ground (arith, elem-ids-keep k p cs)

keep-IsDistinct :
    (p : CandidateConfig → Bool) (cs : List CandidateConfig)
    → IsDistinct (ids cs)
    → IsDistinct (ids (keep p cs))
keep-IsDistinct p [] h = tt
keep-IsDistinct p (c ∷ cs) h = elim (Bool-cases (p c)) [
  | inl e ↦ rw e (elem-ids-keep c.id p cs h.0, keep-IsDistinct p cs h.1)
  | inr e ↦ rw e (keep-IsDistinct p cs h.1)
]

first-has :
    (k : String) (c : CandidateConfig) (cs : List CandidateConfig)
    → first (has_id k) cs ≡ some c
    → has_id k c ≡ true
first-has k c [] h = absurd (cc)
first-has k c (x ∷ xs) h = ground (arith, first-has k c xs)

first_here :
    (k : String) (c x : CandidateConfig) (xs : List CandidateConfig)
    → IsDistinct (ids (x ∷ xs))
    → first (has_id k) (x ∷ xs) ≡ some c
    → has_id k x ≡ true
    → c ∷ keep (other c.id) (x ∷ xs) ≡ x ∷ xs
first_here k c x xs d h e = ground (arith, keep_all_other x.id xs, eq_iff x.id x.id)

first_later :
    (k : String) (c x : CandidateConfig) (xs : List CandidateConfig)
    → first (has_id k) (x ∷ xs) ≡ some c
    → has_id k x ≡ false
    → (first (has_id k) xs ≡ some c) × (other c.id x ≡ true)
first_later k c x xs h e =
    ground (arith, first-has k c xs, eq_iff x.id c.id, eq_iff c.id k, eq_iff x.id k)

-- The candidate that is found, in front of those with another id, is a permutation of all.
front-perm :
    (k : String) (c : CandidateConfig) (cs : List CandidateConfig)
    → IsDistinct (ids cs)
    → first (has_id k) cs ≡ some c
    → Perm (c ∷ keep (other c.id) cs) cs
front-perm k c [] d h = absurd (cc)
front-perm k c (x ∷ xs) d h = elim (Bool-cases (has_id k x)) [
  | inl e ↦ rw (first_here k c x xs d h e) (Perm.refl (x ∷ xs))
  | inr e ↦
      let (later, kept) = first_later k c x xs h e in
      rw kept (
        Perm.trans (Perm.swap x c (keep (other c.id) xs))
          (Perm.cons x (front-perm k c xs d.1 later)))
]

pinned_candidate-first :
    (o : Option SessionRoute) (b : Bool) (es : List CandidateConfig) (c : CandidateConfig)
    → pinned_candidate o b es ≡ some c
    → (k : String) × (first (has_id k) es ≡ some c)
unfolding pinned_candidate
pinned_candidate-first none b es c h = absurd (cc)
pinned_candidate-first (some s) b es c h = (s.candidate_id, ground arith)

pin_order-perm :
    (o : Option SessionRoute) (b : Bool) (es : List CandidateConfig) (t : String)
    → IsTier t
    → All (λ c. IsTier c.tier) es
    → IsDistinct (ids es)
    → Perm (pin_order (pinned_candidate o b es) (ordered_candidates es t)) es
unfolding pin_order ordered_candidates
pin_order-perm o b es t k h d = elim (Option-cases (pinned_candidate o b es)) [
  | inl e ↦ rw e (ordered_candidates-perm t es k h)
  | inr (c, e) ↦
      let (i, found) = pinned_candidate-first o b es c e in
      rw (e, keep-by_tiers)
        (Perm.trans
          (Perm.cons c
            (ordered_candidates-perm t (keep (other c.id) es) k (keep-All _ (other c.id) es h)))
          (front-perm i c es d found))
]

module _ (keyed_digest : String → String → String) (message_digest : Option Fields → String) where
  pub explain_made :
      (body : Fields) (requested : String) (filtered : List (String × List String))
      (pinned : Option String) (l : List CandidateConfig) (d : RouteDecision)
      → explain keyed_digest message_digest body requested filtered pinned l ≡ ok d
      → (others : List CandidateConfig) × (l ≡ d.selected ∷ others)
        × (d.candidates ≡ l)
        × (d.pinned ≡ pinned)
  unfolding explain
  explain_made body requested filtered pinned [] d h = absurd (cc)
  explain_made body requested filtered pinned (c ∷ cs) d h =
      (cs, ground arith, ground arith, ground arith)

  module _ (r : DecisionRouter) (body : Fields) (root_session_id virtual_model : String) where
    abbrev requested : String
    requested = compatibility_tier virtual_model (detected_tier (complexity_score body))

    requested-IsTier : IsTier requested
    requested-IsTier =
        compatibility_tier-IsTier virtual_model (detected_tier (complexity_score body))
          (detected_tier-IsTier (complexity_score body))

    abbrev eligible : List CandidateConfig
    eligible = (eligible_candidates r.candidates body).0

    abbrev pin : Option CandidateConfig
    pin = pin_of keyed_digest message_digest r body root_session_id virtual_model eligible

    order-perm :
        All (λ c. IsTier c.tier) r.candidates
        → IsDistinct (ids r.candidates)
        → Perm
            (pin_order pin (ordered_candidates eligible requested))
            (keep (can_serve body) r.candidates)
    unfolding pin_of
    order-perm tiers distinct =
        subst (Perm (pin_order pin (ordered_candidates eligible requested)))
          (eligible_candidates-keep r.candidates body)
          (pin_order-perm
            (lookup (session_key keyed_digest message_digest r root_session_id) r.sessions)
            (pins_tool_loop body || pins_session virtual_model) eligible requested requested-IsTier
            (subst (All (λ c. IsTier c.tier)) (sym (eligible_candidates-keep r.candidates body))
              (keep-All _ (can_serve body) r.candidates tiers))
            (subst (λ l. IsDistinct (ids l)) (sym (eligible_candidates-keep r.candidates body))
              (keep-IsDistinct (can_serve body) r.candidates distinct)))

    -- Where the configured candidates have known tiers and distinct ids, a decision lists exactly the
    -- candidates that can serve the request, each once, the selected one first, and is stored in the
    -- heap under the identity that `route` returns.
    pub route-candidates :
        {r' : DecisionRouter} {x : Ref}
        → All (λ c. IsTier c.tier) r.candidates
        → IsDistinct (ids r.candidates)
        → route keyed_digest message_digest r body root_session_id virtual_model ≡ ok (r', x)
        → (d : RouteDecision) × (get_elem? r'.heap x ≡ some d)
          × Perm d.candidates (keep (can_serve body) r.candidates)
          × ((others : List CandidateConfig) × (d.candidates ≡ d.selected ∷ others))
    unfolding decide pin_of commit remember
    route-candidates {r'} {x} tiers distinct h =
        let (d, made, e) =
          route_made keyed_digest message_digest r body root_session_id virtual_model h in
        let (others, order, listed, _) =
          explain_made body requested (eligible_candidates r.candidates body).1
            (pin_reason pin (pins_tool_loop body))
            (pin_order pin (ordered_candidates eligible requested)) d made in
        (
          d,
          subst (λ (n : DecisionRouter × Ref). get_elem? n.0.heap n.1 ≡ some d) e
              (get_elem?-snoc r.heap d),
          subst (λ l. Perm l (keep (can_serve body) r.candidates)) (sym listed)
              (order-perm tiers distinct),
          (others, listed ∙ order),
        )
