-- ===== src/Config/Candidates.antt =====
-- The candidates that `_build_candidates` accepts.
use hermes_auto.Config.Build.{
  located_candidate, sized_candidate, build_candidate, build_candidates, build_items,
  candidate_keys, candidate_path, candidate_tiers, positive_window, required_candidate_string,
  required_value, stripped,
}
use hermes_auto.Config.Checks.{
  LoadError, as_bool, as_int, as_mapping, as_str, check_base_url, check_credential_ref, check_split,
  matches_credential_ref, reject_unknown,
}
use hermes_auto.Config.Yaml.{
  Elements, Entries, Loader, SplitUrl, Yaml, bool, cons, float, get, int, map, nil, null, other,
  seq, str,
}
use hermes_auto.Config.{CandidateConfig}
use hermes_auto.Dict.{IsDistinct, elem}
use hermes_auto.Json.{ℤ, pos, negsuc}
use hermes_auto.Prelude.Result.{
  ok, raise_if, >>=-eq-ok, ok-injective, Result-cases, raise_if-passes,
}
use hermes_auto.Prelude.{
  ℕ, zero, suc, ◌<◌, String, ◌≡◌, ◌≢◌, refl, sym, subst, true, false, not, Option, none, some, List,
  [], ◌∷◌, ◌==◌, All, arith, Bool-cases, Option-cases, inl, inr, eq_iff,
}
use hermes_auto.Routing.Candidates.Eligible.{ids}
use hermes_auto.Routing.Candidates.Tiers.{IsTier}
use hermes_auto.Text.{strip}

ids-fresh :
    (k : String) (seen_ids : List String) (cs : List CandidateConfig)
    → All (λ c. elem c.id (k ∷ seen_ids) ≡ false) cs
    → (elem k (ids cs) ≡ false) × All (λ c. elem c.id seen_ids ≡ false) cs
ids-fresh k seen_ids [] h = (refl, tt)
ids-fresh k seen_ids (c ∷ cs) h =
    let (absent, rest) = ids-fresh k seen_ids cs h.1 in
    (ground (arith, eq_iff k c.id, eq_iff c.id k), (ground arith, rest))

module _ (py : Loader) where
  -- The URL splits, and has neither a user nor a password.
  abbrev pub IsBare : String → Type 0
  IsBare url =
      (parts : SplitUrl) × (py.urlsplit url ≡ ok parts)
      × (parts.username ≡ none)
      × (parts.password ≡ none)

  pub record IsAdmitted (c : CandidateConfig) : Type 0 where
    pub named : (c.id == "") ≡ false
    pub tiered : IsTier c.tier
    pub windowed : 0 < c.context_window
    pub referenced : matches_credential_ref c.credential_ref ≡ true
    pub bare : IsBare c.base_url

  module _ (source : Option String) where
    check_split-eq-ok :
        (value key : String) (parts : SplitUrl) {v : String}
        → check_split py source value key parts ≡ ok v
        → (value ≡ v) × (parts.username ≡ none) × (parts.password ≡ none)
    unfolding check_split
    check_split-eq-ok value key parts h = elim (Option-cases parts.username) [
      | inr (u, e) ↦ absurd (ground arith)
      | inl e ↦ elim (Option-cases parts.password) [
        | inr (u, k) ↦ absurd (ground arith)
        | inl k ↦ elim (Result-cases parts.port) [
          | inl (_, p) ↦ absurd (ground arith)
          | inr (port, p) ↦ (ground arith, e, k)
        ]
      ]
    ]

    check_base_url-IsBare :
        (value key : String) {v : String} → check_base_url py source value key ≡ ok v → IsBare v
    unfolding check_base_url
    check_base_url-IsBare value key h = elim (Result-cases (py.urlsplit value)) [
      | inl (e, k) ↦ absurd (ground arith)
      | inr (parts, k) ↦
          let (same, user, password) = check_split-eq-ok value key parts (ground arith) in
          (parts, subst (λ u. py.urlsplit u ≡ ok parts) same k, user, password)
    ]

    check_credential_ref-matches :
        (value key v : String)
        → check_credential_ref py source value key ≡ ok v
        → matches_credential_ref v ≡ true
    unfolding check_credential_ref
    check_credential_ref-matches value key v h = elim (Bool-cases (matches_credential_ref value)) [
      | inl e ↦
          let same : value ≡ v = ok-injective {E = LoadError} (ground arith) in
          subst (λ s. matches_credential_ref s ≡ true) same e
      | inr e ↦ absurd (ground arith)
    ]

    positive_window-lt :
        (index : ℕ) (n : ℤ) {w : ℕ} → positive_window py source index n ≡ ok w → 0 < w
    unfolding positive_window
    positive_window-lt index (pos zero) h = absurd (cc)
    positive_window-lt index (pos (suc n)) h = subst (λ m. 0 < m) (ok-injective h) (omega arith)
    positive_window-lt index (negsuc n) h = absurd (cc)

    stripped-ne : (path raw v : String) → stripped py source path raw ≡ ok v → (v == "") ≡ false
    stripped-ne path raw v h = elim (Bool-cases (strip raw == "")) [
      | inl e ↦ absurd (ground arith)
      | inr e ↦
          let same : strip raw ≡ v = ok-injective {E = LoadError} (ground arith) in
          subst (λ s. (s == "") ≡ false) same e
    ]

    required_candidate_string-ne :
        (block : Entries) (index : ℕ) (key v : String)
        → required_candidate_string py source block index key ≡ ok v
        → (v == "") ≡ false
    unfolding required_candidate_string
    required_candidate_string-ne block index key v h = elim (Option-cases (get key block)) [
      | inl e ↦ absurd (ground arith)
      | inr (w, e) ↦
          let path = candidate_path py source index key in
          let (raw, _, k) =
            >>=-eq-ok (as_str py source w path) (stripped py source path) (ground arith) in
          stripped-ne path raw v k
    ]

    tier-IsTier : (t : String) → not (elem t candidate_tiers) ≡ false → IsTier t
    tier-IsTier t h = ground (arith, eq_iff "fast" t, eq_iff "balanced" t, eq_iff "strong" t)

    -- what an iteration keeps of the values that were checked before
    abbrev IsFor : String → String → CandidateConfig → Type 0
    IsFor id tier c = (c.id ≡ id) × (c.tier ≡ tier)

    located_candidate-IsFor :
        (index : ℕ) (block : Entries) (id tier : String) (window : ℕ) (raw_tools raw_vision : Yaml)
        (c : CandidateConfig)
        → located_candidate py source index block id tier window raw_tools raw_vision ≡ ok c
        → IsFor id tier c
          × (c.context_window ≡ window)
          × (matches_credential_ref c.credential_ref ≡ true)
          × IsBare c.base_url
    unfolding located_candidate
    located_candidate-IsFor index block id tier window raw_tools raw_vision c h =
        let path = candidate_path py source index in
        let (raw_url, _, h0) =
          >>=-eq-ok (required_candidate_string py source block index "base_url") _ h in
        let (url, e_url, h1) =
          >>=-eq-ok (check_base_url py source raw_url (path "base_url")) _ h0 in
        let (raw_ref, _, h2) =
          >>=-eq-ok (required_candidate_string py source block index "credential_ref") _ h1 in
        let (ref, e_ref, h3) =
          >>=-eq-ok (check_credential_ref py source raw_ref (path "credential_ref")) _ h2 in
        let (provider, _, h4) =
          >>=-eq-ok (required_candidate_string py source block index "provider") _ h3 in
        let (model, _, h5) =
          >>=-eq-ok (required_candidate_string py source block index "model") _ h4 in
        let (tools, _, h6) = >>=-eq-ok (as_bool py source raw_tools (path "supports_tools")) _ h5 in
        let (vision, _, h7) =
          >>=-eq-ok (as_bool py source raw_vision (path "supports_vision")) _ h6 in
        subst
          (λ d.
            IsFor id tier d
            × (d.context_window ≡ window)
            × (matches_credential_ref d.credential_ref ≡ true)
            × IsBare d.base_url)
          (ok-injective h7)
          (
            (refl, refl),
            refl,
            check_credential_ref-matches raw_ref (path "credential_ref") ref e_ref,
            check_base_url-IsBare raw_url (path "base_url") e_url,
          )

    sized_candidate-IsFor :
        (index : ℕ) (block : Entries) (id tier : String) (c : CandidateConfig)
        → sized_candidate py source index block id tier ≡ ok c
        → IsFor id tier c
          × (0 < c.context_window)
          × (matches_credential_ref c.credential_ref ≡ true)
          × IsBare c.base_url
    unfolding sized_candidate
    sized_candidate-IsFor index block id tier c h =
        let (raw_window, _, h0) =
          >>=-eq-ok (required_value py source block index "context_window") _ h in
        let (n, _, h1) =
          >>=-eq-ok (as_int py source raw_window (candidate_path py source index "context_window"))
            _ h0 in
        let (window, e, h2) = >>=-eq-ok (positive_window py source index n) _ h1 in
        let (raw_tools, _, h3) =
          >>=-eq-ok (required_value py source block index "supports_tools") _ h2 in
        let (raw_vision, _, h4) =
          >>=-eq-ok (required_value py source block index "supports_vision") _ h3 in
        let (same, size, ref, url) =
          located_candidate-IsFor index block id tier window raw_tools raw_vision c h4 in
        (same, subst (λ m. 0 < m) (sym size) (positive_window-lt index n e), ref, url)

    build_candidate-IsAdmitted :
        (index : ℕ) (seen_ids : List String) (item : Yaml) (c : CandidateConfig)
        → build_candidate py source index seen_ids item ≡ ok c
        → IsAdmitted c × (elem c.id seen_ids ≡ false)
    unfolding build_candidate
    build_candidate-IsAdmitted index seen_ids item c h =
        let (block, _, h0) = >>=-eq-ok (as_mapping py source (some item) _) _ h in
        let (_, _, h1) = >>=-eq-ok (reject_unknown py source block candidate_keys _) _ h0 in
        let (id, e_id, h2) =
          >>=-eq-ok (required_candidate_string py source block index "id") _ h1 in
        let (_, fresh, h3) = >>=-eq-ok (raise_if (elem id seen_ids) _) _ h2 in
        let (tier, _, h4) =
          >>=-eq-ok (required_candidate_string py source block index "tier") _ h3 in
        let (_, known, h5) = >>=-eq-ok (raise_if (not (elem tier candidate_tiers)) _) _ h4 in
        let ((same_id, same_tier), size, ref, url) =
          sized_candidate-IsFor index block id tier c h5 in
        (
          record {
            named =
                subst (λ s. (s == "") ≡ false) (sym same_id)
                  (required_candidate_string-ne block index "id" id e_id);
            tiered = subst IsTier (sym same_tier) (tier-IsTier tier (raise_if-passes _ _ known));
            windowed = size;
            referenced = ref;
            bare = url;
          },
          subst (λ s. elem s seen_ids ≡ false) (sym same_id) (raise_if-passes _ _ fresh),
        )

    -- No later id was seen before, and the ids differ from each other.
    build_items-IsAdmitted :
        (index : ℕ) (seen_ids : List String) (items : Elements) (cs : List CandidateConfig)
        → build_items py source index seen_ids items ≡ ok cs
        → All IsAdmitted cs × IsDistinct (ids cs) × All (λ c. elem c.id seen_ids ≡ false) cs
    unfolding build_items
    build_items-IsAdmitted index seen_ids nil cs h =
        subst (λ l. All IsAdmitted l × IsDistinct (ids l) × All (λ c. elem c.id seen_ids ≡ false) l)
          (ok-injective h) (tt, tt, tt)
    build_items-IsAdmitted index seen_ids (cons item items) cs h =
        let (c, e, h0) = >>=-eq-ok (build_candidate py source index seen_ids item) _ h in
        let (rest, f, h1) =
          >>=-eq-ok (build_items py source (suc index) (c.id ∷ seen_ids) items) _ h0 in
        let (a, fresh) = build_candidate-IsAdmitted index seen_ids item c e in
        let (admitted, ds, fs) =
          build_items-IsAdmitted (suc index) (c.id ∷ seen_ids) items rest f in
        let (new, later) = ids-fresh c.id seen_ids rest fs in
        subst (λ l. All IsAdmitted l × IsDistinct (ids l) × All (λ d. elem d.id seen_ids ≡ false) l)
          (ok-injective h1) ((a, admitted), (new, ds), (fresh, later))

    build_items-ne :
        (index : ℕ) (seen_ids : List String) (item : Yaml) (items : Elements)
        (cs : List CandidateConfig)
        → build_items py source index seen_ids (cons item items) ≡ ok cs
        → cs ≢ []
    unfolding build_items
    build_items-ne index seen_ids item items cs h e =
        let (c, _, h0) = >>=-eq-ok (build_candidate py source index seen_ids item) _ h in
        let (rest, _, h1) =
          >>=-eq-ok (build_items py source (suc index) (c.id ∷ seen_ids) items) _ h0 in
        let same : c ∷ rest ≡ cs = ok-injective h1 in absurd (cc)

    -- Where `_build_candidates` returns, it returns one candidate at least, their ids differ, and each
    -- has a name, a known tier, a positive context window, an accepted credential reference and a
    -- base URL without user or password.
    pub build_candidates-IsAdmitted :
        (raw : Yaml) (cs : List CandidateConfig)
        → build_candidates py source raw ≡ ok cs
        → (cs ≢ []) × All IsAdmitted cs × IsDistinct (ids cs)
    unfolding build_candidates
    build_candidates-IsAdmitted (seq nil) cs h = absurd (cc)
    build_candidates-IsAdmitted (seq (cons item items)) cs h =
        let (admitted, distinct, _) = build_items-IsAdmitted 0 [] (cons item items) cs h in
        (build_items-ne 0 [] item items cs h, admitted, distinct)
    build_candidates-IsAdmitted null cs h = absurd (cc)
    build_candidates-IsAdmitted (bool b) cs h = absurd (cc)
    build_candidates-IsAdmitted (int n) cs h = absurd (cc)
    build_candidates-IsAdmitted (float x) cs h = absurd (cc)
    build_candidates-IsAdmitted (str s) cs h = absurd (cc)
    build_candidates-IsAdmitted (other name repr) cs h = absurd (cc)
    build_candidates-IsAdmitted (map es) cs h = absurd (cc)
