-- ===== src/Config/Ports.antt =====
-- The listeners and the timeout that `_build_gateway` accepts.
use hermes_auto.Config.Build.{
  build_ports, build_admin_port, build_gateway, build_port, build_state_dir, gateway_keys,
  positive_timeout, timeout_key,
}
use hermes_auto.Config.Checks.{
  LoadError, allows_ephemeral, as_bool, as_int, as_str, check_port, port_from_url, reject_unknown,
}
use hermes_auto.Config.Yaml.{Entries, Loader, bool, get, get_or, int, str}
use hermes_auto.Config.{GatewayConfig}
use hermes_auto.Json.{ℤ, pos, negsuc}
use hermes_auto.Prelude.Result.{ok, >>=-eq-ok, ok-injective, raise_if-eq-ok}
use hermes_auto.Prelude.{
  ℕ, zero, suc, ◌+◌, ◌≤◌, ◌<◌, String, ◌≡◌, ◌≢◌, ◌⊎◌, inl, inr, subst, true, false, not, ◌&&◌, ◌=ℕ◌,
  leb, Option, Bool-cases, Option-cases, arith,
}

module _ (py : Loader) (source : Option String) where
  -- The ports can be bound and differ; port 0, which asks for any port, only where the environment
  -- allows it.
  pub record IsSound (g : GatewayConfig) : Type 0 where
    pub bound : g.port ≤ 65535
    pub fixed : (0 < g.port) ⊎ (allows_ephemeral py source ≡ true)
    pub admin_bound : g.admin_port ≤ 65535
    pub admin_fixed : (0 < g.admin_port) ⊎ (allows_ephemeral py source ≡ true)
    pub apart : (g.admin_port ≡ 0) ⊎ (g.admin_port ≢ g.port)
    pub patient : 0 < g.startup_timeout_seconds

  abbrev IsPort : ℕ → Type 0
  IsPort n = (n ≤ 65535) × ((0 < n) ⊎ (allows_ephemeral py source ≡ true))

  check_port-IsPort :
      (n : ℤ) (key : String) (port : ℕ) → check_port py source n key ≡ ok port → IsPort port
  unfolding check_port
  check_port-IsPort (negsuc n) key port h = absurd (cc)
  check_port-IsPort (pos zero) key port h = elim (Bool-cases (allows_ephemeral py source)) [
    | inl e ↦
        let same : 0 ≡ port = ok-injective {E = LoadError} (ground arith) in (ground arith, inr e)
    | inr e ↦ absurd (ground arith)
  ]
  check_port-IsPort (pos (suc n)) key port h = elim (Bool-cases (leb (suc n) 65535)) [
    | inl e ↦
        let same : suc n ≡ port = ok-injective {E = LoadError} (ground arith) in
        (ground arith, inl (ground arith))
    | inr e ↦ absurd (ground arith)
  ]

  build_port-IsPort :
      (block : Entries) (url : String) (port : ℕ)
      → build_port py source block url ≡ ok port
      → IsPort port
  unfolding build_port
  build_port-IsPort block url port h = elim (Option-cases (get "port" block)) [
    | inl e ↦
        let (n, _, k) =
          >>=-eq-ok (port_from_url py source url) (λ n. check_port py source (pos n) "gateway.url")
            (ground arith) in
        check_port-IsPort (pos n) "gateway.url" port k
    | inr (v, e) ↦
        let (n, _, k) =
          >>=-eq-ok (as_int py source v "gateway.port") (λ n. check_port py source n "gateway.port")
            (ground arith) in
        check_port-IsPort n "gateway.port" port k
  ]

  build_admin_port-IsPort :
      (block : Entries) (port admin_port : ℕ)
      → IsPort port
      → build_admin_port py source block port ≡ ok admin_port
      → IsPort admin_port
  unfolding build_admin_port
  build_admin_port-IsPort block port admin_port p h = elim (Option-cases (get "admin_port" block)) [
    | inr (v, e) ↦
        let (n, _, k) =
          >>=-eq-ok (as_int py source v "gateway.admin_port")
            (λ n. check_port py source n "gateway.admin_port") (ground arith) in
        check_port-IsPort n "gateway.admin_port" admin_port k
    | inl e ↦ elim (Bool-cases (port =ℕ 0)) [
      | inl z ↦
          let same : 0 ≡ admin_port = ok-injective {E = LoadError} (ground arith) in ground arith
      | inr z ↦ check_port-IsPort (pos (port + 1)) "gateway.admin_port" admin_port (ground arith)
    ]
  ]

  different : (a b : ℕ) → (not (a =ℕ 0) && a =ℕ b) ≡ false → (a ≡ 0) ⊎ (a ≢ b)
  different a b h = elim (Bool-cases (a =ℕ 0)) [
    | inl e ↦ inl (ground arith)
    | inr e ↦ inr (λ same. ground arith)
  ]

  positive_timeout-lt : (n : ℤ) (t : ℕ) → positive_timeout py source n ≡ ok t → 0 < t
  unfolding positive_timeout
  positive_timeout-lt (pos zero) t h = absurd (cc)
  positive_timeout-lt (pos (suc n)) t h = subst (λ m. 0 < m) (ok-injective h) (omega arith)
  positive_timeout-lt (negsuc n) t h = absurd (cc)

  build_ports-IsPort :
      (block : Entries) (url : String) (ports : ℕ × ℕ)
      → build_ports py source block url ≡ ok ports
      → IsPort ports.0 × IsPort ports.1 × ((ports.1 ≡ 0) ⊎ (ports.1 ≢ ports.0))
  unfolding build_ports
  build_ports-IsPort block url ports h =
      let (port, e, h0) = >>=-eq-ok (build_port py source block url) _ h in
      let (admin_port, f, h1) = >>=-eq-ok (build_admin_port py source block port) _ h0 in
      let (differ, same) = raise_if-eq-ok _ _ h1 in
      let p = build_port-IsPort block url port e in
      subst (λ (ps : ℕ × ℕ). IsPort ps.0 × IsPort ps.1 × ((ps.1 ≡ 0) ⊎ (ps.1 ≢ ps.0))) same
        (p, build_admin_port-IsPort block port admin_port p f, different admin_port port differ)

  -- Where `_build_gateway` returns, both ports are at most 65535, a port is 0 only where the
  -- environment allows it, the admin port is 0 or differs from the port, and the timeout is positive.
  pub build_gateway-IsSound :
      (block : Entries) (g : GatewayConfig) → build_gateway py source block ≡ ok g → IsSound g
  unfolding build_gateway
  build_gateway-IsSound block g h =
      let url_value = get_or "url" (str "http://127.0.0.1:8787") block in
      let seconds_value = get_or "startup_timeout_seconds" (int (pos 10)) block in
      let start_value = get_or "auto_start" (bool true) block in
      let strict_value = get_or "strict_validation" (bool false) block in
      let (_, _, h0) = >>=-eq-ok (reject_unknown py source block gateway_keys "gateway") _ h in
      let (url, _, h1) = >>=-eq-ok (as_str py source url_value "gateway.url") _ h0 in
      let (ports, e_ports, h2) = >>=-eq-ok (build_ports py source block url) _ h1 in
      let (dir, _, h5) = >>=-eq-ok (build_state_dir py source (get "state_dir" block)) _ h2 in
      let (seconds, _, h6) =
        >>=-eq-ok (as_int py source seconds_value (timeout_key py source)) _ h5 in
      let (timeout, e_timeout, h7) = >>=-eq-ok (positive_timeout py source seconds) _ h6 in
      let (auto_start, _, h8) =
        >>=-eq-ok (as_bool py source start_value "gateway.auto_start") _ h7 in
      let (strict, _, h9) =
        >>=-eq-ok (as_bool py source strict_value "gateway.strict_validation") _ h8 in
      let (p, q, differ) = build_ports-IsPort block url ports e_ports in
      subst IsSound (ok-injective h9) (record {
        bound = p.0;
        fixed = p.1;
        admin_bound = q.0;
        admin_fixed = q.1;
        apart = differ;
        patient = positive_timeout-lt seconds timeout e_timeout;
      })
