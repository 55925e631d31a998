-- ===== src/Supervisor/Hosts.antt =====
-- supervisor.py: `probe_host`, and what it has in common with the host that the gateway binds.
use hermes_auto.Config.Yaml.{UrlError}
use hermes_auto.Config.{AutoRouterConfig}
use hermes_auto.Gateway.Loopback.{
  Addresses, HostError, require_loopback, require_loopback_host, require_loopback_of,
}
use hermes_auto.Prelude.Result.{Result, ok, raise}
use hermes_auto.Prelude.{
  String, Bool, true, false, Option, none, some, ◌==◌, ◌≡◌, refl, Bool-cases, Option-cases, inl,
  inr, if◌then◌else◌,
}

module _ (net : Addresses) where
  abbrev loopback_or_default : String → Option Bool → String
  loopback_or_default host none = "127.0.0.1"
  loopback_or_default host (some loopback) = if loopback then host else "127.0.0.1"

  -- `probe_host`, of the host
  unfoldable pub probe_host_of : Option String → String
  probe_host_of none = "127.0.0.1"
  probe_host_of (some host) =
      if host == ""
      then "127.0.0.1"
      else if host == "localhost"
      then host
      else loopback_or_default host (net.is_loopback host)

  -- `probe_host`, of what `urlsplit(url).hostname` gives
  unfoldable pub probe_host_from : Result UrlError (Option String) → String
  unfolding probe_host_of
  probe_host_from (raise e) = "127.0.0.1"
  probe_host_from (ok host) = probe_host_of host

  unfoldable pub probe_host : Option AutoRouterConfig → String
  unfolding probe_host_from
  probe_host none = "127.0.0.1"
  probe_host (some config) = probe_host_from (net.hostname config.gateway.url)

  -- the host that the gateway binds, or the documented default where it refuses to start
  abbrev pub bound_host : Result HostError String → String
  bound_host (ok host) = host
  bound_host (raise e) = "127.0.0.1"

  host-bound :
      (url : String) (host : Option String)
      → probe_host_of host ≡ bound_host (require_loopback_host net url host)
  unfolding probe_host_of require_loopback_host
  host-bound url none = refl
  host-bound url (some host) = elim (Bool-cases (host == "")) [
    | inl e ↦ rw e refl
    | inr e ↦ elim (Bool-cases (host == "localhost")) [
      | inl k ↦ rw (e, k) refl
      | inr k ↦ elim (Option-cases (net.is_loopback host)) [
        | inl a ↦ rw (e, k, a) refl
        | inr (true, a) ↦ rw (e, k, a) refl
        | inr (false, a) ↦ rw (e, k, a) refl
      ]
    ]
  ]

  hostname-bound :
      (url : String) (host : Result UrlError (Option String))
      → probe_host_from host ≡ bound_host (require_loopback_of net url host)
  unfolding probe_host_from require_loopback_of
  hostname-bound url (raise e) = refl
  hostname-bound url (ok host) = host-bound url host

  -- Supervision probes the host that the gateway binds, for every configured URL: `probe_host` is what
  -- `require_loopback` returns, or the documented default where that raises.
  pub probe_host-bound :
      (config : AutoRouterConfig)
      → probe_host (some config) ≡ bound_host (require_loopback net config.gateway.url)
  unfolding probe_host require_loopback
  probe_host-bound config = hostname-bound config.gateway.url (net.hostname config.gateway.url)
