-- ===== src/Gateway/Relay/Fallback.antt =====
-- The fallback: candidates are tried in order up to the first that is not refused, and every refusal is
-- recorded.
use hermes_auto.Config.{CandidateConfig}
use hermes_auto.Gateway.Relay.{
  Response, Round, go_on, commit, abort, committed, exhausted, aborted, fall_back, candidate_id,
}
use hermes_auto.Prelude.{
  String, ◌≡◌, ◌⊎◌, refl, sym, ap, ◌∙◌, List, [], ◌∷◌, ◌++◌, map, All, arith, inl, inr,
}
use hermes_auto.Python.{Python}
use hermes_auto.Routing.Router.{Attempt}
use mathlib.Core.List.{append_assoc, append-nil}

abbrev pub reason_of : Round → String
reason_of (go_on reason) = reason
reason_of (commit response) = ""
reason_of (abort name) = ""

abbrev pub Refused : (CandidateConfig → Round) → CandidateConfig → Type 0
Refused round c = (reason : String) × (round c ≡ go_on reason)

abbrev pub attempt_of : Python → (CandidateConfig → Round) → CandidateConfig → Attempt
attempt_of python round c = record {
  candidate = candidate_id python c;
  reason = reason_of (round c);
}

pub Round-cases :
    (x : Round)
    → ((reason : String) × (x ≡ go_on reason))
      ⊎ (((response : Response) × (x ≡ commit response)) ⊎ ((name : String) × (x ≡ abort name)))
Round-cases (go_on reason) = inl (reason, refl)
Round-cases (commit response) = inr (inl (response, refl))
Round-cases (abort name) = inr (inr (name, refl))

module _ (python : Python) (round : CandidateConfig → Round) where
  fall_back-go_on :
      (c : CandidateConfig) (cs : List CandidateConfig) (acc : List Attempt) {reason : String}
      → round c ≡ go_on reason
      → fall_back python round acc (c ∷ cs)
        ≡ fall_back python round (acc ++ attempt_of python round c ∷ []) cs
  unfolding fall_back
  fall_back-go_on c cs acc e = ground arith

  fall_back-commit :
      (c : CandidateConfig) (cs : List CandidateConfig) (acc : List Attempt) {response : Response}
      → round c ≡ commit response
      → fall_back python round acc (c ∷ cs) ≡ committed c acc response
  unfolding fall_back
  fall_back-commit c cs acc e = ground arith

  fall_back-abort :
      (c : CandidateConfig) (cs : List CandidateConfig) (acc : List Attempt) {name : String}
      → round c ≡ abort name
      → fall_back python round acc (c ∷ cs) ≡ aborted name
  unfolding fall_back
  fall_back-abort c cs acc e = ground arith

  -- Candidates that are refused only add their attempts, in order.
  fall_back-Refused :
      (pre cs : List CandidateConfig) (acc : List Attempt)
      → All (Refused round) pre
      → fall_back python round acc (pre ++ cs)
        ≡ fall_back python round (acc ++ map (attempt_of python round) pre) cs
  fall_back-Refused [] cs acc h = rw append-nil
  fall_back-Refused (c ∷ pre) cs acc h =
      fall_back-go_on c (pre ++ cs) acc h.0.1
      ∙ fall_back-Refused pre cs (acc ++ attempt_of python round c ∷ []) h.1
      ∙ ap (λ a. fall_back python round a cs)
          (append_assoc acc (attempt_of python round c ∷ []) (map (attempt_of python round) pre))

  -- Where every candidate before `c` is refused and `c` is not, the loop commits to `c`, with the
  -- attempts on those before it in order, and no later candidate matters.
  pub fall_back_committed :
      (pre post : List CandidateConfig) (c : CandidateConfig) {response : Response}
      → All (Refused round) pre
      → round c ≡ commit response
      → fall_back python round [] (pre ++ c ∷ post)
        ≡ committed c (map (attempt_of python round) pre) response
  fall_back_committed pre post c h e =
      fall_back-Refused pre (c ∷ post) [] h
      ∙ fall_back-commit c post (map (attempt_of python round) pre) e

  -- Where every candidate before `c` is refused and an exception leaves the round of `c`, the loop ends
  -- with it.
  pub fall_back_aborted :
      (pre post : List CandidateConfig) (c : CandidateConfig) {name : String}
      → All (Refused round) pre
      → round c ≡ abort name
      → fall_back python round [] (pre ++ c ∷ post) ≡ aborted name
  fall_back_aborted pre post c h e =
      fall_back-Refused pre (c ∷ post) [] h
      ∙ fall_back-abort c post (map (attempt_of python round) pre) e

  -- Where every candidate is refused, the loop is exhausted with one attempt for each.
  pub fall_back_exhausted :
      (cs : List CandidateConfig)
      → All (Refused round) cs
      → fall_back python round [] cs ≡ exhausted (map (attempt_of python round) cs)
  unfolding fall_back
  fall_back_exhausted cs h =
      ap (fall_back python round []) (sym (append-nil cs)) ∙ fall_back-Refused cs [] [] h

  -- The first candidate that is not refused, and those before and after it.
  pub record Settled (cs : List CandidateConfig) (ending : Round → Type 0) : Type 0 where
    pub before : List CandidateConfig
    pub after : List CandidateConfig
    pub at : CandidateConfig
    pub split : cs ≡ before ++ at ∷ after
    pub refused : All (Refused round) before
    pub ends : ending (round at)

  Settled-cons :
      (c : CandidateConfig) (cs : List CandidateConfig) {ending : Round → Type 0}
      → Refused round c
      → Settled cs ending
      → Settled (c ∷ cs) ending
  Settled-cons c cs e s = record {
    before = c ∷ s.before;
    after = s.after;
    at = s.at;
    split = ap (◌∷◌ c) s.split;
    refused = (e, s.refused);
    ends = s.ends;
  }

  abbrev pub Commits : Round → Type 0
  Commits x = (response : Response) × (x ≡ commit response)

  abbrev pub Aborts : Round → Type 0
  Aborts x = (name : String) × (x ≡ abort name)

  -- Every list of candidates splits in one of the three ways.
  pub Refused-split :
      (cs : List CandidateConfig)
      → All (Refused round) cs ⊎ (Settled cs Commits ⊎ Settled cs Aborts)
  Refused-split [] = inl tt
  Refused-split (c ∷ cs) = elim (Round-cases (round c)) [
    | inr (inl e) ↦
        inr (inl (record { before = []; after = cs; at = c; split = refl; refused = tt; ends = e }))
    | inr (inr e) ↦
        inr (inr (record { before = []; after = cs; at = c; split = refl; refused = tt; ends = e }))
    | inl e ↦ elim (Refused-split cs) [
      | inl h ↦ inl (e, h)
      | inr (inl s) ↦ inr (inl (Settled-cons c cs e s))
      | inr (inr s) ↦ inr (inr (Settled-cons c cs e s))
    ]
  ]
