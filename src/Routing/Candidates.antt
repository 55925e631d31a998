-- ===== src/Routing/Candidates.antt =====
-- Tiers, eligibility and the order of the candidates (`routing/selector.py`).
pub mod Tiers
pub mod Eligible
pub mod Order
pub mod Turns
use hermes_auto.Config.{CandidateConfig}
use hermes_auto.Dict.{insert}
use hermes_auto.Json.{Fields}
use hermes_auto.Prelude.{
  ℕ, ◌+◌, ◌*◌, ◌/◌, String, Bool, true, false, ◌&&◌, List, [], ◌∷◌, ◌++◌, ◌==◌, leb, ltb, not, keep,
  take, drop, reverse, suc, if◌then◌else◌,
}
use hermes_auto.Routing.Request.{declares_tools, estimate_input_tokens, has_image_input}
use hermes_auto.Text.{lower, strip}

unfoldable pub detected_tier : ℕ → String
detected_tier score = if leb score 1 then "fast" else if leb score 3 then "balanced" else "strong"

-- `(virtual_model or "auto").strip().lower()`
unfoldable pub mode_of : String → String
unfolding lower strip
mode_of virtual_model = lower (strip (if virtual_model == "" then "auto" else virtual_model))

unfoldable pub compatibility_tier : String → String → String
unfolding mode_of
compatibility_tier virtual_model classified_tier =
    if mode_of virtual_model == "auto:quality"
    then "strong"
    else if mode_of virtual_model == "auto:economy"
    then "fast"
    else classified_tier

-- the reasons that `eligible_candidates` collects for one candidate. `floor(window * 0.9)` in binary
-- floating point is `window * 9 / 10` for every window below 2^50.
unfoldable pub reasons_against : Bool → Bool → ℕ → CandidateConfig → List String
reasons_against tools vision tokens c =
    (if tools && not c.supports_tools then "tools" ∷ [] else [])
    ++ ((if vision && not c.supports_vision then "vision" ∷ [] else [])
        ++ (if ltb (c.context_window * 9 / 10) tokens then "context" ∷ [] else []))

abbrev pub Sifted : Type 0
Sifted = List CandidateConfig × List (String × List String)

-- one round of the loop of `eligible_candidates`: `filtered[candidate.id] = tuple(reasons)`, or
-- `eligible.append(candidate)`
unfoldable pub sort_one : List String → CandidateConfig → Sifted → Sifted
sort_one [] c (eligible, filtered) = (eligible ++ c ∷ [], filtered)
sort_one (r ∷ rs) c (eligible, filtered) = (eligible, insert c.id (r ∷ rs) filtered)

-- the loop
unfoldable pub sift : Bool → Bool → ℕ → List CandidateConfig → Sifted → Sifted
sift tools vision tokens [] acc = acc
sift tools vision tokens (c ∷ cs) acc =
    sift tools vision tokens cs (sort_one (reasons_against tools vision tokens c) c acc)

unfoldable pub eligible_candidates : List CandidateConfig → Fields → Sifted
eligible_candidates candidates body =
    sift (declares_tools body) (has_image_input body) (estimate_input_tokens body) candidates
      ([], [])

-- `TIERS`
abbrev pub tiers : List String
tiers = "fast" ∷ "balanced" ∷ "strong" ∷ []

-- `_TIER_INDEX.get(tier, _TIER_INDEX["balanced"])`
unfoldable pub tier_index : String → ℕ
tier_index tier =
    if tier == "fast"
    then 0
    else if tier == "balanced"
    then 1
    else if tier == "strong"
    then 2
    else 1

-- `_tier_fallback_order`: `TIERS[index]`, then `TIERS[index + 1:]`, then `reversed(TIERS[:index])`
unfoldable pub tier_fallback_order : String → List String
unfolding tier_index
tier_fallback_order requested_tier =
    let index = tier_index requested_tier in
    take 1 (drop index tiers) ++ (drop (suc index) tiers ++ reverse (take index tiers))

-- the comprehension of `ordered_candidates`, over the tiers left
unfoldable pub by_tiers : List String → List CandidateConfig → List CandidateConfig
by_tiers [] configured = []
by_tiers (tier ∷ rest) configured =
    keep (λ c. c.tier == tier) configured ++ by_tiers rest configured

unfoldable pub ordered_candidates : List CandidateConfig → String → List CandidateConfig
unfolding by_tiers tier_fallback_order
ordered_candidates candidates requested_tier =
    by_tiers (tier_fallback_order requested_tier) candidates
