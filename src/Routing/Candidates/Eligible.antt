-- ===== src/Routing/Candidates/Eligible.antt =====
-- Eligibility: exactly the candidates that can serve a request, and the reasons against the others.
use mathlib.Core.List.{append-nil, append_assoc}
use hermes_auto.Config.{CandidateConfig}
use hermes_auto.Dict.{lookup, insert, elem, IsDistinct}
use hermes_auto.Dict.Laws.{lookup-insert}
use hermes_auto.Json.{Fields}
use hermes_auto.Prelude.{
  ℕ, ◌*◌, ◌/◌, String, ◌≡◌, refl, Bool, true, false, ◌&&◌, ◌||◌, Option, none, some, List, [], ◌∷◌,
  ◌++◌, map, leb, not, eq_iff, eq_refl, arith, if◌then◌else◌, keep, All, All-of, Bool-cases,
  List-cases, false≢true, sym, subst, ◌∙◌, inl, inr,
}
use hermes_auto.Routing.Candidates.{reasons_against, Sifted, sort_one, sift, eligible_candidates}
use hermes_auto.Routing.Request.{declares_tools, estimate_input_tokens, has_image_input}

abbrev pub ids : List CandidateConfig → List String
ids = map (λ c. c.id)

-- What a candidate must offer.
abbrev pub can_serve_with : Bool → Bool → ℕ → CandidateConfig → Bool
can_serve_with tools vision tokens c =
    (not tools || c.supports_tools)
    && (not vision || c.supports_vision)
    && leb tokens (c.context_window * 9 / 10)

abbrev pub can_serve : Fields → CandidateConfig → Bool
can_serve body =
    can_serve_with (declares_tools body) (has_image_input body) (estimate_input_tokens body)

module _ (tools vision : Bool) (tokens : ℕ) where
  no_reasons :
      (c : CandidateConfig)
      → can_serve_with tools vision tokens c ≡ true
      → reasons_against tools vision tokens c ≡ []
  unfolding reasons_against
  no_reasons c h = ground arith

  serves_of_none :
      (c : CandidateConfig)
      → reasons_against tools vision tokens c ≡ []
      → can_serve_with tools vision tokens c ≡ true
  unfolding reasons_against
  serves_of_none c h = ground arith

  some_reasons :
      (c : CandidateConfig)
      → can_serve_with tools vision tokens c ≡ false
      → (r : String) × (rs : List String) × (reasons_against tools vision tokens c ≡ r ∷ rs)
  some_reasons c h = elim (List-cases (reasons_against tools vision tokens c)) [
    | inl e ↦ absurd (false≢true (sym h ∙ serves_of_none c e))
    | inr cons ↦ cons
  ]

  abbrev Filtered : Type 0
  Filtered = List (String × List String)

  sift-cons_eligible :
      (c : CandidateConfig) (cs : List CandidateConfig) (acc : Sifted)
      → can_serve_with tools vision tokens c ≡ true
      → sift tools vision tokens (c ∷ cs) acc ≡ sift tools vision tokens cs (acc.0 ++ c ∷ [], acc.1)
  unfolding sift sort_one
  sift-cons_eligible c cs (es, f) e = rw (no_reasons c e)

  sift-cons_filtered :
      (c : CandidateConfig) (cs : List CandidateConfig) (acc : Sifted)
      → can_serve_with tools vision tokens c ≡ false
      → sift tools vision tokens (c ∷ cs) acc
        ≡ sift tools vision tokens cs
            (acc.0, insert c.id (reasons_against tools vision tokens c) acc.1)
  unfolding sift sort_one
  sift-cons_filtered c cs (es, f) e = let (r, rs, p) = some_reasons c e in rw p

  sift-eligible :
      (cs : List CandidateConfig) (acc : Sifted)
      → (sift tools vision tokens cs acc).0 ≡ acc.0 ++ keep (can_serve_with tools vision tokens) cs
  unfolding sift
  sift-eligible [] acc = rw append-nil
  sift-eligible (c ∷ cs) acc = elim (Bool-cases (can_serve_with tools vision tokens c)) [
    | inl e ↦
        rw (
          sift-cons_eligible c cs acc e,
          e,
          sift-eligible cs (acc.0 ++ c ∷ [], acc.1),
          append_assoc,
        )
    | inr e ↦ rw (sift-cons_filtered c cs acc e, e, sift-eligible cs)
  ]

  sift-other :
      (k : String) (cs : List CandidateConfig) (acc : Sifted)
      → elem k (ids cs) ≡ false
      → lookup k (sift tools vision tokens cs acc).1 ≡ lookup k acc.1
  unfolding sift
  sift-other k [] acc h = refl
  sift-other k (c ∷ cs) acc h = elim (Bool-cases (can_serve_with tools vision tokens c)) [
    | inl e ↦
        rw (sift-cons_eligible c cs acc e) (sift-other k cs (acc.0 ++ c ∷ [], acc.1) (ground arith))
    | inr e ↦ rw (sift-cons_filtered c cs acc e) (
        ground (
          arith,
          sift-other k cs (acc.0, insert c.id (reasons_against tools vision tokens c) acc.1),
          lookup-insert c.id k (reasons_against tools vision tokens c) acc.1,
        ))
  ]

  -- what the map of the filtered candidates holds for one of them
  abbrev pub verdict : CandidateConfig → Option (List String)
  verdict c =
      if can_serve_with tools vision tokens c
      then none
      else some (reasons_against tools vision tokens c)

  absent-insert :
      (c : CandidateConfig) (r : List String) (f : Filtered) (cs : List CandidateConfig)
      → elem c.id (ids cs) ≡ false
      → All (λ x. lookup x.id f ≡ none) cs
      → All (λ x. lookup x.id (insert c.id r f) ≡ none) cs
  absent-insert c r f [] d h = tt
  absent-insert c r f (x ∷ xs) d h = (
    ground (arith, lookup-insert c.id x.id r f, eq_iff c.id x.id, eq_iff x.id c.id),
    absent-insert c r f xs (ground arith) h.1,
  )

  sift-filtered :
      (cs : List CandidateConfig) (acc : Sifted)
      → IsDistinct (ids cs)
      → All (λ c. lookup c.id acc.1 ≡ none) cs
      → All (λ c. lookup c.id (sift tools vision tokens cs acc).1 ≡ verdict c) cs
  sift-filtered [] acc d h = tt
  sift-filtered (c ∷ cs) acc d h = elim (Bool-cases (can_serve_with tools vision tokens c)) [
    | inl e ↦
        let next : Sifted = (acc.0 ++ c ∷ [], acc.1) in
        subst (λ (r : Sifted). All (λ x. lookup x.id r.1 ≡ verdict x) (c ∷ cs))
          (sym (sift-cons_eligible c cs acc e))
          (sift-other c.id cs next d.0 ∙ h.0 ∙ rw e refl, sift-filtered cs next d.1 h.1)
    | inr e ↦
        let against = reasons_against tools vision tokens c in
        let next : Sifted = (acc.0, insert c.id against acc.1) in
        subst (λ (r : Sifted). All (λ x. lookup x.id r.1 ≡ verdict x) (c ∷ cs))
          (sym (sift-cons_filtered c cs acc e))
          (
            sift-other c.id cs next d.0 ∙ rw (lookup-insert, eq_refl, e) refl,
            sift-filtered cs next d.1 (absent-insert c against acc.1 cs d.0 h.1),
          )
  ]

module _ (cs : List CandidateConfig) (body : Fields) where
  -- The eligible candidates are those that can serve the request, in the order of the
  -- configuration.
  pub eligible_candidates-keep : (eligible_candidates cs body).0 ≡ keep (can_serve body) cs
  unfolding eligible_candidates
  eligible_candidates-keep =
      sift-eligible (declares_tools body) (has_image_input body) (estimate_input_tokens body) cs
        ([], [])

  -- Where the ids are distinct, the map of the filtered candidates holds the reasons against each
  -- candidate that cannot serve the request, and nothing for one that can.
  pub eligible_candidates-filtered :
      IsDistinct (ids cs)
      → All
          (λ c.
            lookup c.id (eligible_candidates cs body).1
            ≡ verdict (declares_tools body) (has_image_input body) (estimate_input_tokens body) c)
          cs
  unfolding eligible_candidates
  eligible_candidates-filtered d =
      sift-filtered (declares_tools body) (has_image_input body) (estimate_input_tokens body) cs
        ([], []) d (All-of _ cs (λ c. refl))
