-- ===== src/Gateway/Loopback.antt =====
-- gateway/main.py: `require_loopback`.
use hermes_auto.Config.Yaml.{UrlError}
use hermes_auto.Prelude.Result.{Result, ok, raise}
use hermes_auto.Prelude.{String, Bool, Option, none, some, [], ◌∷◌, ◌==◌, if◌then◌else◌}
use hermes_auto.Text.{concat}

-- What Python reads of a URL's host: `urlsplit(url).hostname`, and `ip_address(host).is_loopback`,
-- where `none` is a `ValueError`. `repr` is that of a text.
pub record Addresses : Type 0 where
  pub hostname : String → Result UrlError (Option String)
  pub is_loopback : String → Option Bool
  pub repr : String → String

-- A `StartupError`, or the `ValueError` of a URL that cannot be split.
pub data HostError : Type 0 where
  startup_error : String → HostError
  value_error : UrlError → HostError

module _ (net : Addresses) where
  abbrev no_host : String → HostError
  no_host url = startup_error (
      concat (
        "gateway.url has no host: "
        ∷ net.repr url
        ∷ ". Expected something like http://127.0.0.1:8787."
        ∷ []))

  abbrev not_an_address : String → HostError
  not_an_address host = startup_error (
      concat (
        "gateway.url host "
        ∷ net.repr host
        ∷ " is not a loopback address. The gateway binds loopback only: use 127.0.0.1, ::1, or localhost. Exposing the inference port to a network would put a locally-authenticated endpoint on it."
        ∷ []))

  abbrev not_loopback : String → HostError
  not_loopback host = startup_error (
      concat (
        "gateway.url host "
        ∷ net.repr host
        ∷ " is not a loopback address. The gateway binds loopback only: use 127.0.0.1, ::1, or localhost."
        ∷ []))

  abbrev check_address : String → Option Bool → Result HostError String
  check_address host none = raise (not_an_address host)
  check_address host (some loopback) = if loopback then ok host else raise (not_loopback host)

  -- `require_loopback`, of the host
  unfoldable pub require_loopback_host : String → Option String → Result HostError String
  unfolding concat
  require_loopback_host url none = raise (no_host url)
  require_loopback_host url (some host) =
      if host == ""
      then raise (no_host url)
      else if host == "localhost"
      then ok host
      else check_address host (net.is_loopback host)

  -- `require_loopback`, of what `urlsplit(url).hostname` gives
  unfoldable pub require_loopback_of :
      String → Result UrlError (Option String) → Result HostError String
  unfolding require_loopback_host
  require_loopback_of url (raise e) = raise (value_error e)
  require_loopback_of url (ok host) = require_loopback_host url host

  unfoldable pub require_loopback : String → Result HostError String
  unfolding require_loopback_of
  require_loopback url = require_loopback_of url (net.hostname url)
