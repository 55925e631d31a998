-- ===== src/Gateway/Upstream.antt =====
-- gateway/upstream.py: header filtering, the outbound request, credentials and the client pool.
pub mod Headers
pub mod Pool
use hermes_auto.Config.{CandidateConfig, credential_env_var}
use hermes_auto.Dict.{lookup, insert, elem}
use hermes_auto.Gateway.Errors.{GatewayError}
use hermes_auto.Prelude.Result.{Result, ok, raise}
use hermes_auto.Prelude.{
  String, Bool, true, false, not, ◌||◌, Option, none, some, List, [], ◌∷◌, ◌++◌, ◌==◌, keep,
  reverse, if◌then◌else◌,
}
use hermes_auto.Text.{concat, lower}

abbrev pub Header : Type 0
Header = String × String

abbrev pub hop_by_hop_headers : List String
hop_by_hop_headers =
    "connection" ∷ "keep-alive" ∷ "transfer-encoding" ∷ "upgrade" ∷ "proxy-authenticate"
    ∷ "proxy-authorization" ∷ "te" ∷ "trailer" ∷ []

abbrev pub request_drop_headers : List String
request_drop_headers =
    "connection" ∷ "keep-alive" ∷ "transfer-encoding" ∷ "upgrade" ∷ "proxy-authenticate"
    ∷ "proxy-authorization" ∷ "te" ∷ "trailer" ∷ "authorization" ∷ "host" ∷ "content-length"
    ∷ "accept-encoding" ∷ []

abbrev pub response_drop_headers : List String
response_drop_headers = hop_by_hop_headers

-- `_filter`
unfoldable pub filter_headers : List String → List Header → List Header
filter_headers drop headers = keep (λ h. not (elem (lower h.0) drop)) headers

abbrev pub filter_request_headers : List Header → List Header
filter_request_headers = filter_headers request_drop_headers

abbrev pub filter_response_headers : List Header → List Header
filter_response_headers = filter_headers response_drop_headers

-- An exception of an upstream call that the relay catches.
pub data Failure : Type 0 where
  gateway_error : GatewayError → Failure
  upstream_config_error : String → Failure

-- `_resolve_credential`; `environ` is `os.environ.get`
unfoldable pub resolve_credential :
    (String → Option String) → String → Result Failure (Option String)
unfolding credential_env_var concat
resolve_credential environ credential_ref = elim (credential_env_var credential_ref) [
  | none ↦ ok none
  | some variable ↦
      let unset = upstream_config_error (
        concat (
          "upstream.credential_ref names environment variable " ∷ variable
          ∷ ", which is unset or empty. Set it in the environment -- credentials never belong in config.yaml."
          ∷ [])) in
      elim (environ variable) [
        | none ↦ raise unset
        | some value ↦ if value == "" then raise unset else ok (some value)
      ]
]

abbrev pub is_single : String → Bool
is_single name = name == "content-type" || name == "accept-encoding" || name == "authorization"

-- the loop of `_build` over the reversed headers: `seen` holds the single-value names met so far
unfoldable pub dedupe : List String → List Header → List Header
unfolding lower
dedupe seen [] = []
dedupe seen ((name, value) ∷ headers) =
    let next = dedupe (lower name ∷ seen) headers in
    let same = dedupe seen headers in
    if is_single (lower name)
    then (if elem (lower name) seen then same else (name, value) ∷ next)
    else (name, value) ∷ same

abbrev pub credential_header : Option String → List Header
credential_header none = []
credential_header (some credential) = ("authorization", concat ("Bearer " ∷ credential ∷ [])) ∷ []

-- the headers that `_build` appends, after those of the client
abbrev pub own_headers : Option String → List Header
own_headers credential =
    ("content-type", "application/json")
    ∷ ("accept-encoding", "identity")
    ∷ credential_header credential

-- the headers of the request that `_build` makes
unfoldable pub build_headers : Option String → List Header → List Header
unfolding filter_headers dedupe
build_headers credential headers =
    reverse (dedupe [] (reverse (filter_request_headers headers ++ own_headers credential)))

-- `UpstreamClient`, as far as the pool tells clients apart
pub record UpstreamClient : Type 0 where
  pub config : CandidateConfig
  pub credential : Option String

abbrev pub Pool : Type 0
Pool = List (String × UpstreamClient)

-- `UpstreamClient(candidate)`
unfoldable pub new_client :
    (String → Option String) → CandidateConfig → Result Failure UpstreamClient
unfolding resolve_credential
new_client environ candidate = elim (resolve_credential environ candidate.credential_ref) [
  | raise e ↦ raise e
  | ok credential ↦ ok (record { config = candidate; credential = credential })
]

-- `UpstreamClientPool._get`: the client, and the pool that keeps it
unfoldable pub get_client :
    (String → Option String) → Pool → CandidateConfig → Result Failure (UpstreamClient × Pool)
unfolding new_client
get_client environ clients candidate = elim (lookup candidate.id clients) [
  | some client ↦ ok (client, clients)
  | none ↦ elim (new_client environ candidate) [
    | raise e ↦ raise e
    | ok client ↦ ok (client, insert candidate.id client clients)
  ]
]

pub record ProbeResult : Type 0 where
  pub ready : Bool
  pub reason : String

abbrev no_credential : ProbeResult
no_credential = record { ready = false; reason = "no candidate has an available credential" }

-- the loop of `UpstreamClientPool.reachable`, from the last result so far; `probe` is the
-- reachability check of a client's endpoint
unfoldable pub reachable_from :
    (String → Option String)
    → (CandidateConfig → ProbeResult)
    → Option ProbeResult
    → List CandidateConfig
    → Pool
    → ProbeResult × Pool
reachable_from environ probe none [] clients = (no_credential, clients)
reachable_from environ probe (some last) [] clients = (last, clients)
reachable_from environ probe last (c ∷ cs) clients = elim (get_client environ clients c) [
  | raise e ↦ reachable_from environ probe last cs clients
  | ok (client, clients') ↦
      let rest = reachable_from environ probe (some (probe client.config)) cs clients' in
      if (probe client.config).ready then (probe client.config, clients') else rest
]

unfoldable pub reachable :
    (String → Option String)
    → (CandidateConfig → ProbeResult)
    → List CandidateConfig
    → Pool
    → ProbeResult × Pool
unfolding reachable_from
reachable environ probe candidates clients = reachable_from environ probe none candidates clients
