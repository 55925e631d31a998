-- ===== src/Routing/Candidates/Turns.antt =====
-- The order of the candidates against the order of the tiers that the README gives.
use mathlib.Core.List.{Perm}
use hermes_auto.Config.{CandidateConfig}
use hermes_auto.Prelude.{
  ℕ, ◌-◌, ◌≤◌, leb, String, ◌≡◌, refl, inl, inr, List, [], ◌∷◌, ◌==◌, if◌then◌else◌, keep-All, All,
  All-append, Pairs,
}
use hermes_auto.Routing.Candidates.{tier_fallback_order, by_tiers, ordered_candidates}
use hermes_auto.Routing.Candidates.Order.{
  NoLater, in_tier, ordered_candidates-NoLater, ordered_candidates-perm, place,
}
use hermes_auto.Routing.Candidates.Tiers.{IsTier}

-- How strong a tier is.
abbrev pub strength : String → ℕ
strength t = if t == "strong" then 2 else if t == "balanced" then 1 else 0

-- After how many tiers this one has its turn: the requested tier first, then the stronger ones, then the
-- weaker ones, the nearest first of both.
abbrev pub turn : String → String → ℕ
turn requested t =
    if leb (strength requested) (strength t)
    then strength t - strength requested
    else 2 - strength t

turn-place : (t a : String) → IsTier t → IsTier a → turn t a ≡ place a (tier_fallback_order t)
unfolding tier_fallback_order
turn-place t a (inl e) (inl f) = rw (e, f) refl
turn-place t a (inl e) (inr (inl f)) = rw (e, f) refl
turn-place t a (inl e) (inr (inr f)) = rw (e, f) refl
turn-place t a (inr (inl e)) (inl f) = rw (e, f) refl
turn-place t a (inr (inl e)) (inr (inl f)) = rw (e, f) refl
turn-place t a (inr (inl e)) (inr (inr f)) = rw (e, f) refl
turn-place t a (inr (inr e)) (inl f) = rw (e, f) refl
turn-place t a (inr (inr e)) (inr (inl f)) = rw (e, f) refl
turn-place t a (inr (inr e)) (inr (inr f)) = rw (e, f) refl

module _ (t : String) (known : IsTier t) where
  Pairs-turn :
      (cs : List CandidateConfig)
      → All (λ c. IsTier c.tier) cs
      → Pairs (NoLater (tier_fallback_order t)) cs
      → Pairs (λ x y. turn t x.tier ≤ turn t y.tier) cs
  Pairs-turn [] h p = tt
  Pairs-turn (c ∷ cs) h p = (go cs h.1 p.0, Pairs-turn cs h.1 p.1)
    where
      go :
          (ds : List CandidateConfig)
          → All (λ d. IsTier d.tier) ds
          → All (NoLater (tier_fallback_order t) c) ds
          → All (λ d. turn t c.tier ≤ turn t d.tier) ds
      go [] k q = tt
      go (d ∷ ds) k q =
          (rw (turn-place t c.tier known h.0, turn-place t d.tier known k.0) q.0, go ds k.1 q.1)

  by_tiers-All :
      (ts : List String) (cs : List CandidateConfig)
      → All (λ c. IsTier c.tier) cs
      → All (λ c. IsTier c.tier) (by_tiers ts cs)
  unfolding by_tiers
  by_tiers-All [] cs h = tt
  by_tiers-All (u ∷ us) cs h =
      All-append _ _ (by_tiers us cs) (keep-All _ (in_tier u) cs h) (by_tiers-All us cs h)

  -- Where the requested tier and the tiers of the candidates are among the three, the order has every
  -- candidate once, and no candidate stands before one whose tier has an earlier turn: the requested
  -- tier first, then stronger tiers, the nearest first, then weaker tiers, the nearest first.
  pub ordered_candidates-sorted :
      (cs : List CandidateConfig)
      → All (λ c. IsTier c.tier) cs
      → Perm (ordered_candidates cs t) cs
        × Pairs (λ x y. turn t x.tier ≤ turn t y.tier) (ordered_candidates cs t)
  unfolding ordered_candidates
  ordered_candidates-sorted cs h = (
    ordered_candidates-perm t cs known h,
    Pairs-turn (by_tiers (tier_fallback_order t) cs) (by_tiers-All (tier_fallback_order t) cs h)
        (ordered_candidates-NoLater t cs known),
  )
