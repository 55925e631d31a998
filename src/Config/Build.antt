-- ===== src/Config/Build.antt =====
-- src/hermes_auto/config.py: the builders of the gateway, the upstream and the candidates.
use hermes_auto.Config.Checks.{
  Checked, LoadError, fail, as_mapping, as_bool, as_int, as_str, reject_unknown, check_port,
  port_from_url, check_base_url, check_credential_ref,
}
use hermes_auto.Config.Yaml.{
  Elements, Entries, Loader, Yaml, bool, cons, get, get_or, int, nil, null, seq, str, type_name,
}
use hermes_auto.Config.{CandidateConfig, GatewayConfig, UpstreamConfig}
use hermes_auto.Dict.{elem}
use hermes_auto.Json.Dumps.{show_int}
use hermes_auto.Json.{ℤ, pos, negsuc}
use hermes_auto.Prelude.Result.{ok, raise, raise_if, ◌>>=◌, ◌>>◌}
use hermes_auto.Prelude.{
  ℕ, zero, suc, ◌+◌, String, true, false, not, ◌&&◌, Option, none, some, List, [], ◌∷◌, ◌==◌, ◌=ℕ◌,
  if◌then◌else◌,
}
use hermes_auto.Text.{concat, show, strip}

abbrev pub gateway_keys : List String
gateway_keys =
    "admin_port" ∷ "auto_start" ∷ "port" ∷ "startup_timeout_seconds" ∷ "state_dir"
    ∷ "strict_validation" ∷ "url" ∷ []

abbrev pub upstream_keys : List String
upstream_keys = "base_url" ∷ "credential_ref" ∷ "model" ∷ []

abbrev pub candidate_keys : List String
candidate_keys =
    "base_url" ∷ "context_window" ∷ "credential_ref" ∷ "id" ∷ "model" ∷ "provider"
    ∷ "supports_tools" ∷ "supports_vision" ∷ "tier" ∷ []

abbrev pub candidate_tiers : List String
candidate_tiers = "fast" ∷ "balanced" ∷ "strong" ∷ []

module _ (py : Loader) (source : Option String) where
  -- the port of `_build_gateway`
  unfoldable pub build_port : Entries → String → Checked ℕ
  unfolding get as_int check_port port_from_url
  build_port block url = elim (get "port" block) [
    | some v ↦ as_int py source v "gateway.port" >>= λ n. check_port py source n "gateway.port"
    | none ↦ port_from_url py source url >>= λ n. check_port py source (pos n) "gateway.url"
  ]

  -- its admin port
  unfoldable pub build_admin_port : Entries → ℕ → Checked ℕ
  unfolding get as_int check_port
  build_admin_port block port = elim (get "admin_port" block) [
    | some v ↦
        as_int py source v "gateway.admin_port" >>= λ n. check_port py source n "gateway.admin_port"
    | none ↦ if port =ℕ 0 then ok 0 else check_port py source (pos (port + 1)) "gateway.admin_port"
  ]

  -- its state directory
  unfoldable pub build_state_dir : Option Yaml → Checked (Option String)
  unfolding as_str strip
  build_state_dir none = ok none
  build_state_dir (some null) = ok none
  build_state_dir (some v) = do
    path ← as_str py source v "gateway.state_dir"
    ok (if strip path == "" then none else some (py.expanduser (py.expandvars path)))

  abbrev pub timeout_key : String
  timeout_key = "gateway.startup_timeout_seconds"

  abbrev not_positive : ℤ → LoadError
  not_positive n =
      fail source timeout_key
        (concat ("must be a positive number of seconds, got " ∷ show_int n ∷ []))

  -- `if timeout <= 0`
  unfoldable pub positive_timeout : ℤ → Checked ℕ
  unfolding fail concat show_int
  positive_timeout (pos zero) = raise (not_positive (pos 0))
  positive_timeout (pos (suc n)) = ok (suc n)
  positive_timeout (negsuc n) = raise (not_positive (negsuc n))

  abbrev same_ports : LoadError
  same_ports =
      fail source "gateway.admin_port"
        "must differ from gateway.port: the admin API is a separate authentication scope on its own listener (design.md 5.3)"

  -- its two ports
  unfoldable pub build_ports : Entries → String → Checked (ℕ × ℕ)
  unfolding build_port build_admin_port fail
  build_ports block url = do
    port ← build_port block url
    admin_port ← build_admin_port block port
    raise_if (not (admin_port =ℕ 0) && admin_port =ℕ port) same_ports
    ok (port, admin_port)

  -- `_build_gateway`
  unfoldable pub build_gateway : Entries → Checked GatewayConfig
  unfolding reject_unknown get get_or as_str build_ports build_state_dir as_int positive_timeout
      as_bool fail
  build_gateway block = do
    reject_unknown py source block gateway_keys "gateway"
    url ← as_str py source (get_or "url" (str "http://127.0.0.1:8787") block) "gateway.url"
    (port, admin_port) ← build_ports block url
    state_dir ← build_state_dir (get "state_dir" block)
    seconds ← as_int py source (get_or "startup_timeout_seconds" (int (pos 10)) block) timeout_key
    timeout ← positive_timeout seconds
    auto_start ← as_bool py source (get_or "auto_start" (bool true) block) "gateway.auto_start"
    strict ←
        as_bool py source (get_or "strict_validation" (bool false) block)
          "gateway.strict_validation"
    ok (record {
      url = url;
      port = port;
      admin_port = admin_port;
      auto_start = auto_start;
      startup_timeout_seconds = timeout;
      state_dir = state_dir;
      strict_validation = strict;
    })

  -- `_build_upstream`
  unfoldable pub build_upstream : Entries → Checked UpstreamConfig
  unfolding reject_unknown get_or as_str check_base_url check_credential_ref
  build_upstream block = do
    reject_unknown py source block upstream_keys "upstream"
    ref ← as_str py source (get_or "credential_ref" (str "none") block) "upstream.credential_ref"
    raw_url ←
        as_str py source (get_or "base_url" (str "http://127.0.0.1:11434/v1") block)
          "upstream.base_url"
    base_url ← check_base_url py source raw_url "upstream.base_url"
    model ← as_str py source (get_or "model" (str "") block) "upstream.model"
    credential_ref ← check_credential_ref py source ref "upstream.credential_ref"
    ok (record { base_url = base_url; model = model; credential_ref = credential_ref })

  -- `f"candidates[{index}].{key}"`
  unfoldable pub candidate_path : ℕ → String → String
  unfolding concat show
  candidate_path index key = concat ("candidates[" ∷ show index ∷ "]." ∷ key ∷ [])

  abbrev pub stripped : String → String → Checked String
  stripped path value =
      if strip value == ""
      then raise (fail source path "must be a non-empty string")
      else ok (strip value)

  -- `_required_candidate_string`
  unfoldable pub required_candidate_string : Entries → ℕ → String → Checked String
  unfolding get as_str fail strip candidate_path
  required_candidate_string block index key = elim (get key block) [
    | none ↦ raise (fail source (candidate_path index key) "is required")
    | some v ↦ as_str py source v (candidate_path index key) >>= stripped (candidate_path index key)
  ]

  -- `if key not in block`, and `block[key]`
  unfoldable pub required_value : Entries → ℕ → String → Checked Yaml
  unfolding get fail candidate_path
  required_value block index key = elim (get key block) [
    | none ↦ raise (fail source (candidate_path index key) "is required")
    | some v ↦ ok v
  ]

  -- `if context_window <= 0`
  unfoldable pub positive_window : ℕ → ℤ → Checked ℕ
  unfolding fail candidate_path
  positive_window index (pos (suc n)) = ok (suc n)
  positive_window index n =
      raise (fail source (candidate_path index "context_window") "must be a positive integer")

  abbrev duplicate_id : ℕ → String → LoadError
  duplicate_id index id =
      fail source (candidate_path index "id")
        (concat ("duplicates candidate id " ∷ py.repr (str id) ∷ []))

  -- an iteration of the loop of `_build_candidates`, from the base URL on
  unfoldable pub located_candidate :
      ℕ → Entries → String → String → ℕ → Yaml → Yaml → Checked CandidateConfig
  unfolding required_candidate_string check_base_url check_credential_ref as_bool candidate_path
  located_candidate index block id tier context_window raw_tools raw_vision = do
    raw_url ← required_candidate_string block index "base_url"
    base_url ← check_base_url py source raw_url (candidate_path index "base_url")
    raw_ref ← required_candidate_string block index "credential_ref"
    credential_ref ← check_credential_ref py source raw_ref (candidate_path index "credential_ref")
    provider ← required_candidate_string block index "provider"
    model ← required_candidate_string block index "model"
    supports_tools ← as_bool py source raw_tools (candidate_path index "supports_tools")
    supports_vision ← as_bool py source raw_vision (candidate_path index "supports_vision")
    ok (record {
      id = id;
      provider = provider;
      model = model;
      base_url = base_url;
      credential_ref = credential_ref;
      tier = tier;
      context_window = context_window;
      supports_tools = supports_tools;
      supports_vision = supports_vision;
    })

  -- an iteration, from the context window on
  unfoldable pub sized_candidate : ℕ → Entries → String → String → Checked CandidateConfig
  unfolding required_value as_int positive_window located_candidate candidate_path
  sized_candidate index block id tier = do
    raw_window ← required_value block index "context_window"
    window ← as_int py source raw_window (candidate_path index "context_window")
    context_window ← positive_window index window
    raw_tools ← required_value block index "supports_tools"
    raw_vision ← required_value block index "supports_vision"
    located_candidate index block id tier context_window raw_tools raw_vision

  -- one iteration of the loop of `_build_candidates`, with the ids seen before it
  unfoldable pub build_candidate : ℕ → List String → Yaml → Checked CandidateConfig
  unfolding as_mapping reject_unknown required_candidate_string sized_candidate candidate_path fail
      concat show
  build_candidate index seen_ids item = do
    block ← as_mapping py source (some item) (concat ("candidates[" ∷ show index ∷ "]" ∷ []))
    reject_unknown py source block candidate_keys (concat ("candidates[" ∷ show index ∷ "]" ∷ []))
    id ← required_candidate_string block index "id"
    raise_if (elem id seen_ids) (duplicate_id index id)
    tier ← required_candidate_string block index "tier"
    raise_if (not (elem tier candidate_tiers))
        (fail source (candidate_path index "tier") "expected one of fast, balanced, strong")
    sized_candidate index block id tier

  -- the loop, from an index and the ids seen so far
  unfoldable pub build_items : ℕ → List String → Elements → Checked (List CandidateConfig)
  unfolding build_candidate
  build_items index seen_ids nil = ok []
  build_items index seen_ids (cons item items) = do
    c ← build_candidate index seen_ids item
    cs ← build_items (suc index) (c.id ∷ seen_ids) items
    ok (c ∷ cs)

  -- `_build_candidates`, without its warning on a single candidate
  unfoldable pub build_candidates : Yaml → Checked (List CandidateConfig)
  unfolding build_items fail concat type_name
  build_candidates (seq nil) =
      raise (fail source "candidates" "must contain at least one candidate")
  build_candidates (seq (cons item items)) = build_items 0 [] (cons item items)
  build_candidates v =
      raise (fail source "candidates" (concat ("expected a list, got " ∷ type_name v ∷ [])))
