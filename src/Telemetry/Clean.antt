-- ===== src/Telemetry/Clean.antt =====
-- What `redact` keeps out of its copies.
use hermes_auto.Dict.{elem}
use hermes_auto.Json.{Value, Fields, Items, put}
use hermes_auto.Prelude.Result.{Result, ok, raise, >>=-eq-ok, ok-injective}
use hermes_auto.Prelude.{
  All, map, ◌⊎◌, ℕ, zero, suc, String, false, Option, none, some, List, [], ◌∷◌, ◌++◌, ◌==◌, ◌≡◌,
  refl, subst, Bool-cases, inl, inr, arith,
}
use hermes_auto.Telemetry.Events.{
  Event, Events, Entries, get, null, bool, int, float, str, opaque, again, list, tuple, dict, nil,
  cons, end, entry,
}
use hermes_auto.Telemetry.Redaction.{
  logged, banned_keys, session_id_keys, failed_event, merge, name_of, note_dropped, prior_of,
  redact, redact_entries, redact_items, redact_node, safe_digest, take_digest, take_entry,
  value_list, Collected,
}
use hermes_auto.Telemetry.Salt.{SaltError}
use hermes_auto.Telemetry.Sink.{
  Args, by_name, positional, unchanged, LogRecord, SafeArgs, safe_by_name, safe_positional,
  safe_unchanged, safe_args, safe_extra, safe_record,
}

module _ (casefold : String → String) where
  -- A key that may stand in a copy.
  abbrev pub IsAllowed : String → Type 0
  IsAllowed name =
      (elem (casefold name) banned_keys ≡ false) × (elem (casefold name) session_id_keys ≡ false)

  abbrev mutual
    -- No key of the value, at any depth, is a banned key or that of a raw session id.
    pub IsClean : Value → Type 0
    IsClean Value.null = Unit
    IsClean (Value.bool b) = Unit
    IsClean (Value.int n) = Unit
    IsClean (Value.float x) = Unit
    IsClean (Value.str s) = Unit
    IsClean (Value.arr vs) = AllClean vs
    IsClean (Value.obj fs) = HasClean fs

    pub AllClean : Items → Type 0
    AllClean Items.nil = Unit
    AllClean (Items.cons v vs) = IsClean v × AllClean vs

    pub HasClean : Fields → Type 0
    HasClean Fields.end = Unit
    HasClean (Fields.field k v fs) = IsAllowed k × IsClean v × HasClean fs

  put-HasClean :
      (k : String) (v : Value) (fs : Fields)
      → IsAllowed k
      → IsClean v
      → HasClean fs
      → HasClean (put k v fs)
  unfolding put
  put-HasClean k v Fields.end a c h = (a, c, tt)
  put-HasClean k v (Fields.field j w fs) a c h = elim (Bool-cases (j == k)) [
    | inl e ↦ rw e (a, c, h.2)
    | inr e ↦ rw e (h.0, h.1, put-HasClean k v fs a c h.2)
  ]

  value_list-AllClean : (l : List String) → AllClean (value_list l)
  unfolding value_list
  value_list-AllClean [] = tt
  value_list-AllClean (s ∷ l) = (tt, value_list-AllClean l)

  -- the arguments of the copy
  pub CleanArgs : SafeArgs → Type 0
  CleanArgs (safe_by_name v) = IsClean v
  CleanArgs (safe_positional vs) = All IsClean vs
  CleanArgs safe_unchanged = Unit

  -- an attribute without a banned name, or without its value
  abbrev pub IsCovered : String × Value → Type 0
  IsCovered e =
      IsClean e.1 × ((elem (casefold e.0) banned_keys ≡ false) ⊎ (e.1 ≡ Value.str "<redacted>"))

  -- Case folding leaves the names that the sink adds as they are: they are in lower case.
  module _ (hmac : String → String → String) (salt : Result SaltError String)
      (note : IsAllowed "_redacted") (hash : IsAllowed "root_session_hash")
      (failure : IsAllowed "_redaction_error") where
    note_dropped-HasClean :
        (existing : Option Event) (fs : Fields) (dropped : List String)
        → HasClean fs
        → HasClean (note_dropped existing fs dropped)
    unfolding note_dropped
    note_dropped-HasClean existing fs [] h = h
    note_dropped-HasClean existing fs (s ∷ l) h =
        put-HasClean "_redacted" _ fs note
          (value_list-AllClean (merge [] (prior_of existing ++ s ∷ l))) h

    take_digest-HasClean :
        (name : String) (c : Collected) (d : Option String)
        → HasClean c.0
        → HasClean (take_digest name c d).0
    unfolding take_digest
    take_digest-HasClean name c none h = h
    take_digest-HasClean name c (some digest) h = put-HasClean "root_session_hash" _ c.0 hash tt h

    take_entry-HasClean :
        (name : String) (digest : Result String (Option String)) (copy : Result String Value)
        (c after : Collected)
        → ((v : Value) → copy ≡ ok v → IsClean v)
        → take_entry casefold hmac salt name digest copy c ≡ ok after
        → HasClean c.0
        → HasClean after.0
    unfolding take_entry
    take_entry-HasClean name digest copy c after k e h =
        elim (Bool-cases (elem (casefold name) banned_keys)) [
          | inl b ↦
              let same : (c.0, c.1 ++ name ∷ []) ≡ after =
                ok-injective {E = String} (ground arith) in
              subst (λ (a : Collected). HasClean a.0) same h
          | inr b ↦ elim (Bool-cases (elem (casefold name) session_id_keys)) [
            | inl s ↦
                let (d, _, f) =
                  >>=-eq-ok digest (λ d. ok (take_digest name c d)) {result = after}
                    (ground arith) in
                subst (λ (a : Collected). HasClean a.0) (ok-injective f)
                  (take_digest-HasClean name c d h)
            | inr s ↦
                let (v, got, f) =
                  >>=-eq-ok copy (λ v. ok (put name v c.0, c.1)) {result = after} (ground arith) in
                subst (λ (a : Collected). HasClean a.0) (ok-injective f)
                  (put-HasClean name v c.0 (b, s) (k v got) h)
          ]
        ]

    mutual
      unfolding redact_node

      redact_node-IsClean :
          (n : ℕ) (e : Event) (v : Value) → redact_node casefold hmac salt n e ≡ ok v → IsClean v
      redact_node-IsClean zero e v h = subst IsClean (ok-injective h) tt
      redact_node-IsClean (suc n) (dict es) v h =
          let (c, e, h0) =
            >>=-eq-ok (redact_entries casefold hmac salt n es (Fields.end, [])) _ h in
          subst IsClean (ok-injective h0) (
            note_dropped-HasClean (get "_redacted" es) c.0 c.1
              (redact_entries-HasClean n es (Fields.end, []) c e tt))
      redact_node-IsClean (suc n) (list es) v h =
          let (vs, e, h0) = >>=-eq-ok (redact_items casefold hmac salt n es) _ h in
          subst IsClean (ok-injective h0) (redact_items-AllClean n es vs e)
      redact_node-IsClean (suc n) (tuple es) v h =
          let (vs, e, h0) = >>=-eq-ok (redact_items casefold hmac salt n es) _ h in
          subst IsClean (ok-injective h0) (redact_items-AllClean n es vs e)
      redact_node-IsClean (suc n) (again texts) v h = subst IsClean (ok-injective h) tt
      redact_node-IsClean (suc n) null v h = subst IsClean (ok-injective h) tt
      redact_node-IsClean (suc n) (bool b) v h = subst IsClean (ok-injective h) tt
      redact_node-IsClean (suc n) (int i) v h = subst IsClean (ok-injective h) tt
      redact_node-IsClean (suc n) (float x) v h = subst IsClean (ok-injective h) tt
      redact_node-IsClean (suc n) (str s) v h = subst IsClean (ok-injective h) tt
      redact_node-IsClean (suc n) (opaque t r) v h = subst IsClean (ok-injective h) tt

      redact_items-AllClean :
          (n : ℕ) (es : Events) (vs : Items)
          → redact_items casefold hmac salt n es ≡ ok vs
          → AllClean vs
      redact_items-AllClean n nil vs h = subst AllClean (ok-injective h) tt
      redact_items-AllClean n (cons e es) vs h =
          let (v, a, h0) = >>=-eq-ok (redact_node casefold hmac salt n e) _ h in
          let (ws, b, h1) = >>=-eq-ok (redact_items casefold hmac salt n es) _ h0 in
          subst AllClean (ok-injective h1)
            (redact_node-IsClean n e v a, redact_items-AllClean n es ws b)

      redact_entries-HasClean :
          (n : ℕ) (es : Entries) (c after : Collected)
          → redact_entries casefold hmac salt n es c ≡ ok after
          → HasClean c.0
          → HasClean after.0
      redact_entries-HasClean n end c after h k =
          subst (λ (a : Collected). HasClean a.0) (ok-injective h) k
      redact_entries-HasClean n (entry key v es) c after h k =
          let (name, _, h0) = >>=-eq-ok (name_of key) _ h in
          let (next, step, h1) =
            >>=-eq-ok
              (take_entry casefold hmac salt name (safe_digest casefold hmac salt v)
                (redact_node casefold hmac salt n v) c)
              _ h0 in
          redact_entries-HasClean n es next after h1 (
            take_entry-HasClean name (safe_digest casefold hmac salt v)
              (redact_node casefold hmac salt n v) c next (λ w got. redact_node-IsClean n v w got)
              step k)

    logged-IsClean :
        (copy : Result String Value)
        → ((v : Value) → copy ≡ ok v → IsClean v)
        → IsClean (logged copy)
    unfolding logged failed_event
    logged-IsClean (ok v) h = h v refl
    logged-IsClean (raise name) h = (note, (tt, tt), (failure, tt, tt))

    -- No key of what is logged, at any depth, is a banned key or that of a raw session id, whatever
    -- is given, and also where the redaction fails, if case folding keeps the three names that the
    -- sink adds apart from them.
    pub redact-IsClean : (event : Event) → IsClean (redact casefold hmac salt event)
    unfolding redact
    redact-IsClean event =
        logged-IsClean (redact_node casefold hmac salt 13 event) (redact_node-IsClean 13 event)

    redacted-All : (es : List Event) → All IsClean (map (redact casefold hmac salt) es)
    redacted-All [] = tt
    redacted-All (e ∷ es) = (redact-IsClean e, redacted-All es)

    safe_args-Clean : (args : Args) → CleanArgs (safe_args casefold hmac salt args)
    unfolding safe_args CleanArgs
    safe_args-Clean (by_name es) = redact-IsClean (dict es)
    safe_args-Clean (positional es) = redacted-All es
    safe_args-Clean unchanged = tt

    safe_extra-IsCovered : (e : String × Event) → IsCovered (safe_extra casefold hmac salt e)
    unfolding safe_extra
    safe_extra-IsCovered (key, value) = elim (Bool-cases (elem (casefold key) banned_keys)) [
      | inl b ↦ rw b (tt, inr refl)
      | inr b ↦ rw b (redact-IsClean value, inl b)
    ]

    extras-All : (l : List (String × Event)) → All IsCovered (map (safe_extra casefold hmac salt) l)
    extras-All [] = tt
    extras-All (e ∷ l) = (safe_extra-IsCovered e, extras-All l)

    -- Where case folding keeps the three names that the sink adds apart from the banned keys and those of
    -- raw session ids: in the copy of a record that is formatted, the message, the arguments that are a
    -- dict or a tuple and the values of the attributes of `extra` have no banned key and no key of a raw
    -- session id at any depth, and an attribute with a banned name has the value "<redacted>". Other
    -- arguments are as they were, and nothing is said of a text under an attribute that is itself named
    -- like a session id.
    pub safe_record-IsClean :
        (r : LogRecord)
        → IsClean (safe_record casefold hmac salt r).msg
          × CleanArgs (safe_record casefold hmac salt r).args
          × All IsCovered (safe_record casefold hmac salt r).extra
    unfolding safe_record
    safe_record-IsClean r = (redact-IsClean r.msg, safe_args-Clean r.args, extras-All r.extra)
