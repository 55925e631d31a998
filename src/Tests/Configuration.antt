-- ===== src/Tests/Configuration.antt =====
-- The theorems on the configuration at concrete inputs.
use mathlib.Core.List.{Perm}
use hermes_auto.Config.Build.{
  build_candidate, build_candidates, build_gateway, build_items, build_port, build_ports,
  build_admin_port, build_state_dir, located_candidate, positive_timeout, positive_window,
  required_candidate_string, required_value, sized_candidate, build_upstream,
}
use hermes_auto.Config.Candidates.{IsAdmitted, build_candidates-IsAdmitted}
use hermes_auto.Config.Checks.{
  all_ref_chars, as_bool, as_int, as_mapping, as_str, before_newline, check_base_url,
  check_credential_ref, check_port, check_split, is_credential_ref, matches_credential_ref,
  port_from_url, port_of_split, reject_unknown, unknown_keys,
}
use hermes_auto.Config.Load.{
  load_candidates, load_config, load_document, load_path, load_root, read_yaml, resolve_path,
  document_of,
}
use hermes_auto.Config.Loading.{loaded_router-routes}
use hermes_auto.Config.Ports.{IsSound, build_gateway-IsSound}
use hermes_auto.Config.Yaml.{
  Yaml, Entries, Loader, SplitUrl, text, contents, bool, int, str, seq, map, cons, nil, entry, end,
  get, get_or, has_key,
}
use hermes_auto.Config.{AutoRouterConfig, CandidateConfig, GatewayConfig, resolved_candidates}
use hermes_auto.Dict.{IsDistinct}
use hermes_auto.Json.{pos}
use hermes_auto.Prelude.Result.{ok}
use hermes_auto.Prelude.{
  String, true, false, none, some, List, [], ◌∷◌, ◌≡◌, ◌≢◌, refl, subst, sym, All, keep, get_elem?,
}
use hermes_auto.Routing.Candidates.Eligible.{can_serve, ids}
use hermes_auto.Routing.Request.{declares_tools, estimate_input_tokens, has_image_input}
use hermes_auto.Routing.Router.{DecisionRouter, Ref, RouteDecision, route}
use hermes_auto.Tests.{hello, keyed_digest, message_digest, router}
use hermes_auto.Text.{partition, strip, lstrip, rstrip}

abbrev set_to : String → Yaml → Entries → Entries
set_to key value rest = entry (text key) value rest

abbrev local : Yaml
local = map (
    set_to "id" (str "local") (
      set_to "provider" (str "openai-compatible") (
        set_to "model" (str "m") (
          set_to "base_url" (str "http://127.0.0.1:11434/v1") (
            set_to "credential_ref" (str "env:KEY_1") (
              set_to "tier" (str "fast") (
                set_to "context_window" (int (pos 8000)) (
                  set_to "supports_tools" (bool true)
                    (set_to "supports_vision" (bool false) end)))))))))

abbrev raw_candidates : Yaml
raw_candidates = seq (cons local nil)

abbrev document : Yaml
document = map (set_to "auto_router" (map (set_to "candidates" raw_candidates end)) end)

abbrev split : SplitUrl
split = record {
  scheme = "http";
  username = none;
  password = none;
  hostname = some "127.0.0.1";
  port = ok (some 8787);
  path = "";
  query = "";
  fragment = "";
}

abbrev loader : Loader
loader = record {
  least_key = λ keys. none;
  repr = λ value. "";
  urlsplit = λ url. ok split;
  lower = λ s. s;
  environ = λ name. none;
  expanduser = λ path. path;
  expandvars = λ path. path;
  child_of = λ path name. path;
  is_file = λ path. true;
  read_text = λ path. contents "";
  safe_load = λ written. ok document;
}

abbrev built : CandidateConfig
built = record {
  id = "local";
  provider = "openai-compatible";
  model = "m";
  base_url = "http://127.0.0.1:11434/v1";
  credential_ref = "env:KEY_1";
  tier = "fast";
  context_window = 8000;
  supports_tools = true;
  supports_vision = false;
}

built_candidates : build_candidates loader none raw_candidates ≡ ok (built ∷ [])
unfolding build_candidates build_items build_candidate sized_candidate located_candidate as_mapping
    reject_unknown unknown_keys required_candidate_string required_value as_str as_int as_bool
    positive_window check_base_url check_split check_credential_ref matches_credential_ref
    is_credential_ref all_ref_chars before_newline partition strip lstrip rstrip get
built_candidates = refl

build_candidates-IsAdmitted_example :
    (built ∷ [] ≢ []) × All (IsAdmitted loader) (built ∷ []) × IsDistinct (ids (built ∷ []))
build_candidates-IsAdmitted_example =
    build_candidates-IsAdmitted loader none raw_candidates (built ∷ []) built_candidates

abbrev gateway : GatewayConfig
gateway = record {
  url = "http://127.0.0.1:8787";
  port = 8787;
  admin_port = 8788;
  auto_start = true;
  startup_timeout_seconds = 10;
  state_dir = none;
  strict_validation = false;
}

built_gateway : build_gateway loader none end ≡ ok gateway
unfolding build_gateway build_ports build_port build_admin_port build_state_dir port_from_url
    port_of_split check_port reject_unknown unknown_keys as_str as_int as_bool positive_timeout get
    get_or
built_gateway = refl

build_gateway-IsSound_example : IsSound loader none gateway
build_gateway-IsSound_example = build_gateway-IsSound loader none end gateway built_gateway

abbrev loaded : AutoRouterConfig
loaded = record {
  gateway = gateway;
  upstream = record { base_url = "http://127.0.0.1:11434/v1"; model = ""; credential_ref = "none" };
  candidates = built ∷ [];
  source_path = some "router.yaml";
}

document_loaded : load_config loader (some "router.yaml") ≡ ok loaded
unfolding load_config load_path resolve_path read_yaml document_of load_document load_root
    load_candidates build_upstream build_gateway build_ports build_port build_admin_port
    build_state_dir port_from_url port_of_split check_port positive_timeout get_or has_key
    build_candidates build_items build_candidate sized_candidate located_candidate as_mapping
    reject_unknown unknown_keys required_candidate_string required_value as_str as_int as_bool
    positive_window check_base_url check_split check_credential_ref matches_credential_ref
    is_credential_ref all_ref_chars before_newline partition strip lstrip rstrip get
document_loaded = refl

serves : keep (can_serve hello) (built ∷ []) ≢ []
unfolding declares_tools has_image_input estimate_input_tokens
serves h = cc

resolved : resolved_candidates loaded ≡ built ∷ []
unfolding resolved_candidates
resolved = refl

abbrev serving : DecisionRouter
serving = record router { candidates = resolved_candidates loaded }

loaded_router-routes_example :
    (after : DecisionRouter × Ref) × (d : RouteDecision) × (route keyed_digest message_digest
        serving hello "session" "auto"
      ≡ ok after)
    × (get_elem? after.0.heap after.1 ≡ some d)
    × Perm d.candidates (keep (can_serve hello) (resolved_candidates loaded))
    × ((others : List CandidateConfig) × (d.candidates ≡ d.selected ∷ others))
loaded_router-routes_example =
    loaded_router-routes loader keyed_digest message_digest (some "router.yaml") loaded serving
      hello "session" "auto" document_loaded refl
      (subst (λ cs. keep (can_serve hello) cs ≢ []) (sym resolved) serves)
