-- ===== src/Config/Loading.antt =====
-- What every configuration that `load_config` returns offers to the router.
use hermes_auto.Config.Build.{build_gateway, build_upstream}
use hermes_auto.Config.Candidates.{IsAdmitted, build_candidates-IsAdmitted}
use hermes_auto.Config.Checks.{as_mapping, reject_unknown, LoadError, unknown_keys}
use hermes_auto.Config.Load.{
  default_config, load_candidates, load_config, load_document, load_path, load_root, read_yaml,
  resolve_path, root_keys,
}
use hermes_auto.Config.Yaml.{Entries, Loader, get, has_key}
use hermes_auto.Config.{
  AutoRouterConfig, CandidateConfig, UpstreamConfig, migrate_upstream, resolved_candidates,
}
use hermes_auto.Dict.{IsDistinct}
use hermes_auto.Json.{Fields}
use hermes_auto.Prelude.Result.{ok, >>=-eq-ok, ok-injective, raise_if}
use hermes_auto.Prelude.{
  String, Bool, Option, none, some, List, [], ◌∷◌, ◌≡◌, ◌≢◌, refl, sym, subst, All, All-map, keep,
  Bool-cases, Option-cases, List-cases, ap, ◌⊎◌, is_empty, not, ◌&&◌, inl, inr, arith, get_elem?,
}
use hermes_auto.Routing.Candidates.Eligible.{can_serve, ids}
use hermes_auto.Routing.Candidates.Tiers.{IsTier}
use hermes_auto.Routing.Router.Pinning.{route-candidates}
use hermes_auto.Routing.Router.ToolLoop.{route_total}
use hermes_auto.Routing.Router.{DecisionRouter, Ref, RouteDecision, route}
use mathlib.Core.List.{Perm}

-- What the router needs of its candidates.
abbrev pub IsRoutable : List CandidateConfig → Type 0
IsRoutable cs = (cs ≢ []) × All (λ c. IsTier c.tier) cs × IsDistinct (ids cs)

migrate_upstream-IsRoutable : (upstream : UpstreamConfig) → IsRoutable (migrate_upstream upstream)
unfolding migrate_upstream
migrate_upstream-IsRoutable upstream = ((λ h. absurd (cc)), (inr (inl refl), tt), (refl, tt))

resolved_candidates-IsRoutable :
    (config : AutoRouterConfig)
    → (config.candidates ≡ []) ⊎ IsRoutable config.candidates
    → IsRoutable (resolved_candidates config)
unfolding resolved_candidates
resolved_candidates-IsRoutable config (inl e) = rw e (migrate_upstream-IsRoutable config.upstream)
resolved_candidates-IsRoutable config (inr h) = elim (List-cases config.candidates) [
  | inl e ↦ absurd (h.0 e)
  | inr (c, cs, e) ↦ rw e (subst IsRoutable e h)
]

module _ (py : Loader) where
  load_candidates-IsRoutable :
      (source : String) (root : Entries) (upstream : UpstreamConfig) (cs : List CandidateConfig)
      → load_candidates py source root upstream ≡ ok cs
      → (cs ≡ []) ⊎ IsRoutable cs
  unfolding load_candidates
  load_candidates-IsRoutable source root upstream cs h =
      elim (Option-cases (get "candidates" root)) [
        | inr (raw, e) ↦
            let (some_cs, admitted, distinct) =
              build_candidates-IsAdmitted py (some source) raw cs (ground arith) in
            inr (some_cs, All-map (IsAdmitted py) _ cs (λ c a. a.tiered) admitted, distinct)
        | inl e ↦ elim (Bool-cases (has_key "upstream" root)) [
          | inl k ↦
              let same : migrate_upstream upstream ≡ cs =
                ok-injective {E = LoadError} (ground arith) in
              inr (subst IsRoutable same (migrate_upstream-IsRoutable upstream))
          | inr k ↦ inl (sym (ok-injective {E = LoadError} (ground arith)))
        ]
      ]

  load_root-IsRoutable :
      (source : String) (root : Entries) (config : AutoRouterConfig)
      → load_root py source root ≡ ok config
      → IsRoutable (resolved_candidates config)
  unfolding load_root
  load_root-IsRoutable source root config h =
      let (_, _, h0) =
        >>=-eq-ok (reject_unknown py (some source) root root_keys "auto_router") _ h in
      let (gateway, _, h1) =
        >>=-eq-ok (as_mapping py (some source) (get "gateway" root) "gateway") _ h0 in
      let (legacy, _, h2) =
        >>=-eq-ok (as_mapping py (some source) (get "upstream" root) "upstream") _ h1 in
      let (upstream, _, h3) = >>=-eq-ok (build_upstream py (some source) legacy) _ h2 in
      let (_, _, h4) =
        >>=-eq-ok (raise_if (has_key "candidates" root && has_key "upstream" root) _) _ h3 in
      let (cs, e, h5) = >>=-eq-ok (load_candidates py source root upstream) _ h4 in
      let (built, _, h6) = >>=-eq-ok (build_gateway py (some source) gateway) _ h5 in
      resolved_candidates-IsRoutable config (
        subst (λ (c : AutoRouterConfig). (c.candidates ≡ []) ⊎ IsRoutable c.candidates)
          (ok-injective h6) (load_candidates-IsRoutable source root upstream cs e))

  default_config-IsRoutable :
      (source : Option String) (config : AutoRouterConfig)
      → default_config source ≡ config
      → IsRoutable (resolved_candidates config)
  unfolding default_config
  default_config-IsRoutable source config h =
      resolved_candidates-IsRoutable config (inl (sym (ap (λ c. c.candidates) h)))

  load_document-IsRoutable :
      (source : String) (must_exist : Bool) (document : Entries) (config : AutoRouterConfig)
      → load_document py source must_exist document ≡ ok config
      → IsRoutable (resolved_candidates config)
  unfolding load_document
  load_document-IsRoutable source must_exist document config h =
      elim (Option-cases (get "auto_router" document)) [
        | inr (block, e) ↦
            let (root, _, k) =
              >>=-eq-ok (as_mapping py (some source) (some block) "auto_router")
                (load_root py source) (ground arith) in
            load_root-IsRoutable source root config k
        | inl e ↦
            elim (Bool-cases (not must_exist && not (is_empty (unknown_keys root_keys document)))) [
              | inl k ↦
                  default_config-IsRoutable (some source) config
                    (ok-injective {E = LoadError} (ground arith))
              | inr k ↦ load_root-IsRoutable source document config (ground arith)
            ]
      ]

  load_path-IsRoutable :
      (resolved : Option String × Bool) (config : AutoRouterConfig)
      → load_path py resolved ≡ ok config
      → IsRoutable (resolved_candidates config)
  unfolding load_path
  load_path-IsRoutable (none, must_exist) config h =
      default_config-IsRoutable none config (ok-injective h)
  load_path-IsRoutable (some source, must_exist) config h = elim (Bool-cases (py.is_file source)) [
    | inl e ↦
        let (document, _, k) =
          >>=-eq-ok (read_yaml py source) (load_document py source must_exist) (ground arith) in
        load_document-IsRoutable source must_exist document config k
    | inr e ↦ elim (Bool-cases must_exist) [
      | inl k ↦ absurd (ground arith)
      | inr k ↦ default_config-IsRoutable none config (ok-injective {E = LoadError} (ground arith))
    ]
  ]

  -- The candidates that the router is built from, of every configuration that is loaded: there is
  -- one at least, their tiers are known and their ids differ.
  pub load_config-IsRoutable :
      (path : Option String) (config : AutoRouterConfig)
      → load_config py path ≡ ok config
      → IsRoutable (resolved_candidates config)
  unfolding load_config
  load_config-IsRoutable path config h = load_path-IsRoutable (resolve_path py path) config h

  -- In a router that serves a loaded configuration, a request that some candidate can serve is
  -- routed, whatever sessions the router holds; the decision that it stores lists exactly the
  -- candidates that can serve the request, each once and the selected one first.
  pub loaded_router-routes :
      (keyed_digest : String → String → String) (message_digest : Option Fields → String)
      (path : Option String) (config : AutoRouterConfig) (r : DecisionRouter) (body : Fields)
      (root_session_id virtual_model : String)
      → load_config py path ≡ ok config
      → r.candidates ≡ resolved_candidates config
      → keep (can_serve body) (resolved_candidates config) ≢ []
      → (after : DecisionRouter × Ref) × (d : RouteDecision) × (route keyed_digest message_digest r
            body root_session_id virtual_model
          ≡ ok after)
        × (get_elem? after.0.heap after.1 ≡ some d)
        × Perm d.candidates (keep (can_serve body) (resolved_candidates config))
        × ((others : List CandidateConfig) × (d.candidates ≡ d.selected ∷ others))
  loaded_router-routes keyed message path config r body root virtual_model h same serves =
      let (_, tiers, distinct) =
        subst IsRoutable (sym same) (load_config-IsRoutable path config h) in
      let (made, routed) =
        route_total keyed message r body root virtual_model tiers
          (subst (λ cs. keep (can_serve body) cs ≢ []) (sym same) serves) in
      let (d, kept, listed, front) =
        route-candidates keyed message r body root virtual_model tiers distinct routed in
      (
        _,
        d,
        routed,
        kept,
        subst (λ cs. Perm d.candidates (keep (can_serve body) cs)) same listed,
        front,
      )
