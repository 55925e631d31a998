-- ===== src/Gateway/Upstream/Pool.antt =====
-- The pool of clients.
use hermes_auto.Config.{CandidateConfig}
use hermes_auto.Dict.{lookup, insert}
use hermes_auto.Dict.Laws.{lookup-insert}
use hermes_auto.Gateway.Upstream.{Failure, Pool, UpstreamClient, get_client, new_client}
use hermes_auto.Prelude.Result.{Result, ok, Result-cases, ok-injective}
use hermes_auto.Prelude.{
  if◌then◌else◌, Bool, String, ◌≡◌, ap, ◌∙◌, subst, Option, some, Option-cases, inl, inr, arith,
  eq_refl,
}

get_client-kept :
    (environ : String → Option String) (clients clients' : Pool) (candidate : CandidateConfig)
    (client : UpstreamClient)
    → get_client environ clients candidate ≡ ok (client, clients')
    → lookup candidate.id clients' ≡ some client
unfolding get_client
get_client-kept environ clients clients' candidate client h =
    elim (Option-cases (lookup candidate.id clients)) [
      | inr (c, e) ↦ ground (arith, e, h)
      | inl e ↦ elim (Result-cases (new_client environ candidate)) [
        | inl (x, k) ↦ absurd (ground (arith, e, h, k))
        | inr (c, k) ↦
            let both : ◌≡◌ {A = Result Failure (UpstreamClient × Pool)}
                (ok (c, insert candidate.id c clients)) (ok (client, clients')) =
              ground (arith, e, h, k) in
            let pair = ok-injective both in
            subst (λ (p : UpstreamClient × Pool). lookup candidate.id p.1 ≡ some p.0) pair
              (lookup-insert candidate.id candidate.id c clients
                ∙ ap (λ (b : Bool). if b then some c else lookup candidate.id clients)
                    (eq_refl candidate.id))
      ]
    ]

get_client-known :
    (environ : String → Option String) (clients : Pool) (candidate : CandidateConfig)
    (client : UpstreamClient)
    → lookup candidate.id clients ≡ some client
    → get_client environ clients candidate ≡ ok (client, clients)
unfolding get_client
get_client-known environ clients candidate client e = ground (arith, e)

-- A client that `get_client` returns is the one that the pool then keeps under the candidate's id,
-- so that the next call for this id returns it again and leaves the pool as it is.
pub get_client-again :
    (environ : String → Option String) (clients clients' : Pool) (candidate : CandidateConfig)
    (client : UpstreamClient)
    → get_client environ clients candidate ≡ ok (client, clients')
    → (lookup candidate.id clients' ≡ some client)
      × (get_client environ clients' candidate ≡ ok (client, clients'))
unfolding get_client
get_client-again environ clients clients' candidate client h = (
  get_client-kept environ clients clients' candidate client h,
  get_client-known environ clients' candidate client
      (get_client-kept environ clients clients' candidate client h),
)
