-- ===== src/Routing/Candidates/Order.antt =====
-- The order of the candidates: a permutation, sorted by the fallback order, stable within a tier.
use mathlib.Core.List.Perm
use mathlib.Core.List.{Perm, perm_middle, append-nil}
use hermes_auto.Config.{CandidateConfig}
use hermes_auto.Dict.{elem, IsDistinct}
use hermes_auto.Prelude.{
  ℕ, suc, ◌≤◌, String, ◌≡◌, refl, inl, inr, Bool, true, false, List, [], ◌∷◌, ◌==◌, eq_iff, arith,
  if◌then◌else◌, keep, All, Pairs, All-keep, All-append, All-map, Pairs-append, Pairs-of_All,
  Bool-cases, eq_refl, keep-append, All-of,
}
use hermes_auto.Routing.Candidates.{tier_fallback_order, by_tiers, ordered_candidates}
use hermes_auto.Routing.Candidates.Tiers.{IsTier}

abbrev pub in_tier : String → CandidateConfig → Bool
in_tier t c = c.tier == t

-- The place of a tier among the tiers to try.
abbrev pub place : String → List String → ℕ
place t [] = 0
place t (u ∷ us) = if t == u then 0 else suc (place t us)

by_tiers-nil : (ts : List String) → by_tiers ts [] ≡ []
unfolding by_tiers
by_tiers-nil [] = refl
by_tiers-nil (t ∷ ts) = by_tiers-nil ts

by_tiers_other :
    (ts : List String) (c : CandidateConfig) (cs : List CandidateConfig)
    → elem c.tier ts ≡ false
    → by_tiers ts (c ∷ cs) ≡ by_tiers ts cs
unfolding by_tiers
by_tiers_other [] c cs h = refl
by_tiers_other (t ∷ ts) c cs h =
    ground (arith, by_tiers_other ts c cs, eq_iff t c.tier, eq_iff c.tier t)

by_tiers-cons :
    (ts : List String) (c : CandidateConfig) (cs : List CandidateConfig)
    → IsDistinct ts
    → elem c.tier ts ≡ true
    → Perm (by_tiers ts (c ∷ cs)) (c ∷ by_tiers ts cs)
unfolding by_tiers
by_tiers-cons [] c cs d h = absurd (cc)
by_tiers-cons (t ∷ ts) c cs d h = elim (Bool-cases (c.tier == t)) [
  | inl e ↦ rw (e, by_tiers_other ts c cs (ground (arith, eq_iff c.tier t))) (Perm.refl _)
  | inr e ↦ rw e (
      Perm.trans
        (Perm.append_left (keep (in_tier t) cs)
          (by_tiers-cons ts c cs d.1 (ground (arith, eq_iff t c.tier, eq_iff c.tier t))))
        (perm_middle _ _))
]

by_tiers-perm :
    (ts : List String) (cs : List CandidateConfig)
    → IsDistinct ts
    → All (λ c. elem c.tier ts ≡ true) cs
    → Perm (by_tiers ts cs) cs
by_tiers-perm ts [] d h = rw by_tiers-nil (Perm.refl [])
by_tiers-perm ts (c ∷ cs) d h =
    Perm.trans (by_tiers-cons ts c cs d h.0) (Perm.cons c (by_tiers-perm ts cs d h.1))

in_tiers :
    (t : String) (cs : List CandidateConfig) (ts : List String)
    → elem t ts ≡ true
    → All (λ c. elem c.tier ts ≡ true) (keep (in_tier t) cs)
in_tiers t cs ts h = All-keep _ (in_tier t) cs (λ c e. rw ((eq_iff c.tier t).0 e) h)

by_tiers-elem :
    (us ts : List String) (cs : List CandidateConfig)
    → All (λ t. elem t us ≡ true) ts
    → All (λ c. elem c.tier us ≡ true) (by_tiers ts cs)
unfolding by_tiers
by_tiers-elem us [] cs h = tt
by_tiers-elem us (t ∷ ts) cs h =
    All-append _ (keep (in_tier t) cs) (by_tiers ts cs) (in_tiers t cs us h.0)
      (by_tiers-elem us ts cs h.1)

elem-All :
    (ts us : List String)
    → ((t : String) → elem t ts ≡ true → elem t us ≡ true)
    → All (λ t. elem t us ≡ true) ts
elem-All [] us f = tt
elem-All (t ∷ ts) us f =
    (f t (rw eq_refl refl), elem-All ts us (λ x h. f x (ground (arith, eq_iff t x))))

-- `x` is to be tried no later than `y`.
abbrev pub NoLater : List String → CandidateConfig → CandidateConfig → Type 0
NoLater ts x y = place x.tier ts ≤ place y.tier ts

first-NoLater :
    (t : String) (ts : List String) (x y : CandidateConfig)
    → in_tier t x ≡ true
    → NoLater (t ∷ ts) x y
first-NoLater t ts x y h = ground arith

later-NoLater :
    (t : String) (ts : List String) (x y : CandidateConfig)
    → elem t ts ≡ false
    → elem y.tier ts ≡ true
    → NoLater ts x y
    → NoLater (t ∷ ts) x y
later-NoLater t ts x y d h k = ground (arith, eq_iff y.tier t)

Pairs-later :
    (t : String) (ts : List String) (cs : List CandidateConfig)
    → elem t ts ≡ false
    → All (λ c. elem c.tier ts ≡ true) cs
    → Pairs (NoLater ts) cs
    → Pairs (NoLater (t ∷ ts)) cs
Pairs-later t ts [] d h k = tt
Pairs-later t ts (c ∷ cs) d h k = (go cs h.1 k.0, Pairs-later t ts cs d h.1 k.1)
  where
    go :
        (ds : List CandidateConfig)
        → All (λ c. elem c.tier ts ≡ true) ds
        → All (NoLater ts c) ds
        → All (NoLater (t ∷ ts) c) ds
    go [] h k = tt
    go (y ∷ ys) h k = (later-NoLater t ts c y d h.0 k.0, go ys h.1 k.1)

by_tiers-sorted :
    (ts : List String) (cs : List CandidateConfig)
    → IsDistinct ts
    → Pairs (NoLater ts) (by_tiers ts cs)
unfolding by_tiers
by_tiers-sorted [] cs d = tt
by_tiers-sorted (t ∷ ts) cs d =
    Pairs-append (NoLater (t ∷ ts)) (keep (in_tier t) cs) (by_tiers ts cs)
      (Pairs-of_All (λ c. in_tier t c ≡ true) (NoLater (t ∷ ts)) (keep (in_tier t) cs)
        (λ x y p q. first-NoLater t ts x y p) (All-keep _ (in_tier t) cs (λ c e. e)))
      (Pairs-later t ts (by_tiers ts cs) d.0 (by_tiers-elem ts ts cs (elem-All ts ts (λ t h. h)))
        (by_tiers-sorted ts cs d.1))
      (All-keep _ (in_tier t) cs (λ x e. All-of _ (by_tiers ts cs) (λ y. first-NoLater t ts x y e)))

keep-keep :
    (t u : String) (cs : List CandidateConfig)
    → keep (in_tier u) (keep (in_tier t) cs) ≡ (if t == u then keep (in_tier t) cs else [])
keep-keep t u [] = ground arith
keep-keep t u (c ∷ cs) =
    ground (arith, keep-keep t u cs, eq_iff c.tier t, eq_iff c.tier u, eq_iff t u)

by_tiers_none :
    (u : String) (ts : List String) (cs : List CandidateConfig)
    → elem u ts ≡ false
    → keep (in_tier u) (by_tiers ts cs) ≡ []
unfolding by_tiers
by_tiers_none u [] cs h = refl
by_tiers_none u (t ∷ ts) cs h = ground (
  arith,
  keep-append (in_tier u) (keep (in_tier t) cs) (by_tiers ts cs),
  keep-keep t u cs,
  by_tiers_none u ts cs,
)

by_tiers-stable :
    (u : String) (ts : List String) (cs : List CandidateConfig)
    → IsDistinct ts
    → elem u ts ≡ true
    → keep (in_tier u) (by_tiers ts cs) ≡ keep (in_tier u) cs
unfolding by_tiers
by_tiers-stable u [] cs d h = absurd (cc)
by_tiers-stable u (t ∷ ts) cs d h = ground (
  arith,
  keep-append (in_tier u) (keep (in_tier t) cs) (by_tiers ts cs),
  keep-keep t u cs,
  by_tiers_none u ts cs,
  by_tiers-stable u ts cs,
  append-nil (keep (in_tier t) cs),
  append-nil (keep (in_tier u) cs),
  eq_iff t u,
)

elem_tier :
    (ts : List String)
    → elem "fast" ts ≡ true
    → elem "balanced" ts ≡ true
    → elem "strong" ts ≡ true
    → (u : String) → IsTier u
    → elem u ts ≡ true
elem_tier ts f b s u (inl e) = rw e f
elem_tier ts f b s u (inr (inl e)) = rw e b
elem_tier ts f b s u (inr (inr e)) = rw e s

-- The fallback order of a tier names each tier exactly once.
tier_fallback_order-tiers :
    (t : String)
    → IsTier t
    → IsDistinct (tier_fallback_order t)
      × ((u : String) → IsTier u → elem u (tier_fallback_order t) ≡ true)
unfolding tier_fallback_order
tier_fallback_order-tiers t (inl e) =
    rw e ((refl, (refl, (refl, tt))), elem_tier (tier_fallback_order "fast") refl refl refl)
tier_fallback_order-tiers t (inr (inl e)) =
    rw e ((refl, (refl, (refl, tt))), elem_tier (tier_fallback_order "balanced") refl refl refl)
tier_fallback_order-tiers t (inr (inr e)) =
    rw e ((refl, (refl, (refl, tt))), elem_tier (tier_fallback_order "strong") refl refl refl)

All-elem :
    (t : String) (cs : List CandidateConfig)
    → IsTier t
    → All (λ c. IsTier c.tier) cs
    → All (λ c. elem c.tier (tier_fallback_order t) ≡ true) cs
All-elem t cs h k = All-map _ _ cs (λ c m. (tier_fallback_order-tiers t h).1 c.tier m) k

module _ (t : String) (cs : List CandidateConfig) (known : IsTier t) where
  -- Where the requested tier and the tiers of the candidates are among the three, ordering the
  -- candidates loses none and adds none.
  pub ordered_candidates-perm : All (λ c. IsTier c.tier) cs → Perm (ordered_candidates cs t) cs
  unfolding ordered_candidates
  ordered_candidates-perm h =
      by_tiers-perm (tier_fallback_order t) cs (tier_fallback_order-tiers t known).0
        (All-elem t cs known h)

  -- The candidates stand in the fallback order of their tiers.
  pub ordered_candidates-NoLater : Pairs (NoLater (tier_fallback_order t)) (ordered_candidates cs t)
  unfolding ordered_candidates
  ordered_candidates-NoLater =
      by_tiers-sorted (tier_fallback_order t) cs (tier_fallback_order-tiers t known).0

  -- The candidates of one tier stand in the order of the configuration.
  pub ordered_candidates-stable :
      (u : String) → IsTier u → keep (in_tier u) (ordered_candidates cs t) ≡ keep (in_tier u) cs
  unfolding ordered_candidates
  ordered_candidates-stable u m =
      by_tiers-stable u (tier_fallback_order t) cs (tier_fallback_order-tiers t known).0
        ((tier_fallback_order-tiers t known).1 u m)
