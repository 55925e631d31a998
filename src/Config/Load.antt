-- ===== src/Config/Load.antt =====
-- src/hermes_auto/config.py: the resolution of the path, the file, and `load_config`.
use hermes_auto.Config.Build.{build_candidates, build_gateway, build_upstream}
use hermes_auto.Config.Checks.{
  Checked, LoadError, as_mapping, config_error, fail, reject_unknown, unknown_keys,
}
use hermes_auto.Config.Yaml.{
  Entries, Loader, Yaml, contents, end, get, has_key, map, not_utf8, null, type_name, unreadable,
}
use hermes_auto.Config.{
  AutoRouterConfig, CandidateConfig, GatewayConfig, UpstreamConfig, migrate_upstream,
}
use hermes_auto.Prelude.Result.{Result, ok, raise, raise_if, ◌>>=◌, ◌>>◌}
use hermes_auto.Prelude.{
  String, Bool, true, false, not, is_empty, ◌&&◌, Option, none, some, List, [], ◌∷◌, ◌==◌,
  if◌then◌else◌,
}
use hermes_auto.Text.{concat, strip}

abbrev pub root_keys : List String
root_keys = "candidates" ∷ "gateway" ∷ "upstream" ∷ []

unfoldable pub default_gateway : GatewayConfig
default_gateway = record {
  url = "http://127.0.0.1:8787";
  port = 8787;
  admin_port = 8788;
  auto_start = true;
  startup_timeout_seconds = 10;
  state_dir = none;
  strict_validation = false;
}

unfoldable pub default_upstream : UpstreamConfig
default_upstream = record {
  base_url = "http://127.0.0.1:11434/v1";
  model = "";
  credential_ref = "none";
}

-- `AutoRouterConfig(source_path=source)`
unfoldable pub default_config : Option String → AutoRouterConfig
unfolding default_gateway default_upstream
default_config source = record {
  gateway = default_gateway;
  upstream = default_upstream;
  candidates = [];
  source_path = source;
}

-- `value and value.strip()`, of an environment variable
unfoldable pub set_variable : Option String → Option String
unfolding strip
set_variable none = none
set_variable (some v) = if strip v == "" then none else some v

module _ (py : Loader) where
  -- the environment, in `_resolve_path`
  unfoldable pub path_of_environ : Option String × Bool
  unfolding set_variable
  path_of_environ = elim (set_variable (py.environ "HERMES_AUTO_CONFIG")) [
    | some path ↦ (some (py.expanduser path), true)
    | none ↦ elim (set_variable (py.environ "HERMES_HOME")) [
      | some home ↦ (some (py.child_of (py.expanduser home) "config.yaml"), false)
      | none ↦ (none, false)
    ]
  ]

  -- `_resolve_path`
  unfoldable pub resolve_path : Option String → Option String × Bool
  unfolding path_of_environ
  resolve_path (some path) = (some (py.expanduser path), true)
  resolve_path none = path_of_environ

  -- `_read_yaml`, of the parsed document
  unfoldable pub document_of : String → Result String Yaml → Checked Entries
  unfolding concat type_name
  document_of source (raise e) =
      raise (config_error (concat (source ∷ ": is not valid YAML: " ∷ e ∷ [])))
  document_of source (ok null) = ok end
  document_of source (ok (map document)) = ok document
  document_of source (ok v) =
      raise
        (config_error (concat (source ∷ ": top level must be a mapping, got " ∷ type_name v ∷ [])))

  -- `_read_yaml`
  unfoldable pub read_yaml : String → Checked Entries
  unfolding document_of concat
  read_yaml source = elim (py.read_text source) [
    | unreadable e ↦ raise (config_error (concat (source ∷ ": cannot be read: " ∷ e ∷ [])))
    | not_utf8 e ↦ raise (config_error (concat (source ∷ ": is not valid UTF-8: " ∷ e ∷ [])))
    | contents written ↦ document_of source (py.safe_load written)
  ]

  -- the candidates of `load_config`, without its warning on a migration
  unfoldable pub load_candidates :
      String → Entries → UpstreamConfig → Checked (List CandidateConfig)
  unfolding get build_candidates migrate_upstream
  load_candidates source root upstream = elim (get "candidates" root) [
    | some raw ↦ build_candidates py (some source) raw
    | none ↦ ok (if has_key "upstream" root then migrate_upstream upstream else [])
  ]

  -- `load_config`, from the root block on
  unfoldable pub load_root : String → Entries → Checked AutoRouterConfig
  unfolding reject_unknown as_mapping get build_upstream fail load_candidates build_gateway has_key
  load_root source root = do
    reject_unknown py (some source) root root_keys "auto_router"
    gateway_block ← as_mapping py (some source) (get "gateway" root) "gateway"
    upstream_block ← as_mapping py (some source) (get "upstream" root) "upstream"
    upstream ← build_upstream py (some source) upstream_block
    raise_if (has_key "candidates" root && has_key "upstream" root)
        (fail (some source) "auto_router" "configure candidates or legacy upstream, not both")
    candidates ← load_candidates source root upstream
    gateway ← build_gateway py (some source) gateway_block
    ok (record {
      gateway = gateway;
      upstream = upstream;
      candidates = candidates;
      source_path = some source;
    })

  -- `load_config`, of the document
  unfoldable pub load_document : String → Bool → Entries → Checked AutoRouterConfig
  unfolding get as_mapping load_root unknown_keys default_config
  load_document source must_exist document = elim (get "auto_router" document) [
    | some block ↦ as_mapping py (some source) (some block) "auto_router" >>= load_root source
    | none ↦
        if not must_exist && not (is_empty (unknown_keys root_keys document))
        then ok (default_config (some source))
        else load_root source document
  ]

  abbrev missing_file : String → LoadError
  missing_file source = config_error (
      concat (
        source
        ∷ ": configuration file does not exist. It was named explicitly (argument or HERMES_AUTO_CONFIG), so it is required; omit it to fall back to built-in defaults."
        ∷ []))

  abbrev absent : String → Bool → Checked AutoRouterConfig
  absent source must_exist =
      if must_exist then raise (missing_file source) else ok (default_config none)

  -- `load_config`, of the resolved path
  unfoldable pub load_path : Option String × Bool → Checked AutoRouterConfig
  unfolding read_yaml load_document default_config concat
  load_path (none, must_exist) = ok (default_config none)
  load_path (some source, must_exist) =
      if py.is_file source
      then (read_yaml source >>= load_document source must_exist)
      else absent source must_exist

  unfoldable pub load_config : Option String → Checked AutoRouterConfig
  unfolding resolve_path load_path
  load_config path = load_path (resolve_path path)
