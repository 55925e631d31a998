-- ===== src/Routing/Candidates/Tiers.antt =====
-- Classification: the score's range, the tiers and the order in which they are tried.
use hermes_auto.Json.{Fields, length_items}
use hermes_auto.Prelude.{
  ℕ, ◌≤◌, ◌+◌, ◌||◌, String, ◌≡◌, refl, ◌⊎◌, inl, inr, Bool, [], ◌∷◌, ◌==◌, arith, if◌then◌else◌,
  Bool-cases, leb,
}
use hermes_auto.Routing.Candidates.{
  detected_tier, compatibility_tier, tier_fallback_order, tier_index,
}
use hermes_auto.Routing.Request.{
  score_of, complexity_score, declares_tools, text_length_and_fence, latest_user_message,
  estimate_input_tokens, has_image_input, messages,
}

-- One of the three names of `TIERS`.
abbrev pub IsTier : String → Type 0
IsTier t = (t ≡ "fast") ⊎ (t ≡ "balanced") ⊎ (t ≡ "strong")

abbrev points : Bool → ℕ → ℕ
points b n = if b then n else 0

-- The score as the README tells it: independent points, added up.
abbrev pub score_table : Bool → ℕ × Bool → ℕ → Bool → ℕ → ℕ
score_table tools (length, has_fence) tokens image messages =
    points tools 1
    + points (has_fence || leb 1500 length) 1
    + (points (leb 2000 tokens) 1 + points (leb 8000 tokens) 1)
    + points image 2
    + points (leb 20 messages) 1

score_of_lem :
    (tools : Bool) (m : ℕ × Bool) (tokens : ℕ) (image : Bool) (n : ℕ)
    → score_of tools m tokens image n ≡ score_table tools m tokens image n
unfolding score_of
score_of_lem tools m tokens image n = ground arith

score_table-le :
    (tools : Bool) (m : ℕ × Bool) (tokens : ℕ) (image : Bool) (n : ℕ)
    → score_table tools m tokens image n ≤ 7
score_table-le tools m tokens image n = ground arith

module _ (body : Fields) where
  abbrev pub table_of : ℕ
  table_of =
      score_table (declares_tools body) (text_length_and_fence (latest_user_message body))
        (estimate_input_tokens body) (has_image_input body) (length_items (messages body))

  -- The score of a request is the sum of the independent points of the routing table, and is at
  -- most 7.
  pub complexity_score-table : (complexity_score body ≡ table_of) × (complexity_score body ≤ 7)
  unfolding complexity_score
  complexity_score-table =
      let e =
        score_of_lem (declares_tools body) (text_length_and_fence (latest_user_message body))
          (estimate_input_tokens body) (has_image_input body) (length_items (messages body)) in
      (
        e,
        rw e (
            score_table-le (declares_tools body) (text_length_and_fence (latest_user_message body))
              (estimate_input_tokens body) (has_image_input body) (length_items (messages body))),
      )

tier_index-detected :
    (n : ℕ) → tier_index (detected_tier n) ≡ (if leb n 1 then 0 else if leb n 3 then 1 else 2)
unfolding detected_tier tier_index
tier_index-detected n = elim (Bool-cases (leb n 1)) [
  | inl e ↦ rw e refl
  | inr e ↦ elim (Bool-cases (leb n 3)) [ inl k ↦ rw (e, k) refl | inr k ↦ rw (e, k) refl ]
]

-- A higher score never asks for a weaker tier.
pub detected_tier_mono :
    (m n : ℕ) → m ≤ n → tier_index (detected_tier m) ≤ tier_index (detected_tier n)
detected_tier_mono m n h = ground (arith, tier_index-detected m, tier_index-detected n)

pub detected_tier-IsTier : (score : ℕ) → IsTier (detected_tier score)
unfolding detected_tier
detected_tier-IsTier score = ground arith

pub compatibility_tier-IsTier : (m t : String) → IsTier t → IsTier (compatibility_tier m t)
unfolding compatibility_tier
compatibility_tier-IsTier m t h = ground arith

pub tier_fallback_order_lem :
    (t : String)
    → IsTier t
    → tier_fallback_order t ≡ (
        if t == "fast"
        then "fast" ∷ "balanced" ∷ "strong" ∷ []
        else if t == "strong"
        then "strong" ∷ "balanced" ∷ "fast" ∷ []
        else "balanced" ∷ "strong" ∷ "fast" ∷ [])
unfolding tier_fallback_order
tier_fallback_order_lem t (inl e) = rw e refl
tier_fallback_order_lem t (inr (inl e)) = rw e refl
tier_fallback_order_lem t (inr (inr e)) = rw e refl
