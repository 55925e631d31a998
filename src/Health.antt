-- ===== src/Health.antt =====
-- src/hermes_auto/health/probe.py: the reachability probe of an upstream.
use hermes_auto.Config.Yaml.{SplitUrl, UrlError}
use hermes_auto.Gateway.Upstream.{ProbeResult}
use hermes_auto.Prelude.Result.{Result, ok, raise}
use hermes_auto.Prelude.{ℕ, String, true, false, none, some, [], ◌∷◌, ◌==◌, if◌then◌else◌}
use hermes_auto.Telemetry.Sink.{sanitize_url}
use hermes_auto.Text.{concat, lower, show}

-- How `open_connection` ended: it connected, it ran out of time, or it raised an `OSError` of a type.
pub data Connection : Type 0 where
  connected : Connection
  timed_out : Connection
  os_error : String → Connection

-- `urlsplit`, `urlunsplit` and the `repr` of a text
module _ (urlsplit : String → Result UrlError SplitUrl) (urlunsplit : SplitUrl → String → String)
    (repr : String → String) where
  -- the text of a `ValueError` that `upstream_endpoint` raises
  abbrev quoting : String → String → String
  quoting told base_url =
      concat (told ∷ ": " ∷ repr (sanitize_url urlsplit urlunsplit base_url) ∷ [])

  abbrev default_port : String → ℕ
  default_port scheme = if lower scheme == "https" then 443 else 80

  -- `upstream_endpoint`, from the host on
  unfoldable pub endpoint_port : String → SplitUrl → String → Result String (String × ℕ)
  unfolding concat lower sanitize_url
  endpoint_port base_url parsed host = elim parsed.port [
    | raise e ↦ raise (quoting "upstream base_url has an invalid port" base_url)
    | ok none ↦ ok (host, default_port parsed.scheme)
    | ok (some port) ↦ ok (host, port)
  ]

  -- `upstream_endpoint`, of the split URL; reading its host does not raise
  unfoldable pub endpoint_of : String → SplitUrl → Result String (String × ℕ)
  unfolding endpoint_port concat sanitize_url
  endpoint_of base_url parsed = elim parsed.hostname [
    | none ↦ raise (quoting "upstream base_url has no host" base_url)
    | some host ↦
        if host == ""
        then raise (quoting "upstream base_url has no host" base_url)
        else endpoint_port base_url parsed host
  ]

  -- `upstream_endpoint`; the error is the text of the `ValueError`, which may be that of `urlsplit`
  unfoldable pub upstream_endpoint : String → Result String (String × ℕ)
  unfolding endpoint_of
  upstream_endpoint base_url = elim (urlsplit base_url) [
    | raise e ↦ raise e.message
    | ok parsed ↦ endpoint_of base_url parsed
  ]

  -- the result for a connection; `timeout` is the `str` of the time that is allowed
  unfoldable pub connection_result : String → String × ℕ → Connection → ProbeResult
  unfolding concat show
  connection_result timeout (host, port) connected = record {
    ready = true;
    reason = concat ("upstream " ∷ host ∷ ":" ∷ show port ∷ " accepted a TCP connection" ∷ []);
  }
  connection_result timeout (host, port) timed_out = record {
    ready = false;
    reason = concat (
        "upstream "
        ∷ host
        ∷ ":"
        ∷ show port
        ∷ " did not accept a connection within "
        ∷ timeout
        ∷ "s"
        ∷ []);
  }
  connection_result timeout (host, port) (os_error name) = record {
    ready = false;
    reason = concat (
        "upstream " ∷ host ∷ ":" ∷ show port ∷ " is not accepting connections (" ∷ name ∷ ")" ∷ []);
  }

  -- `check_upstream_reachable`; `connect` is `open_connection` within the timeout
  unfoldable pub check_upstream_reachable :
      (String × ℕ → Connection) → String → String → ProbeResult
  unfolding upstream_endpoint connection_result
  check_upstream_reachable connect timeout base_url = elim (upstream_endpoint base_url) [
    | raise e ↦ record { ready = false; reason = e }
    | ok endpoint ↦ connection_result timeout endpoint (connect endpoint)
  ]
