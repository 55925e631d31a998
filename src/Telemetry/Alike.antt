-- ===== src/Telemetry/Alike.antt =====
-- What a log line can tell about the values that `redact` drops.
use hermes_auto.Dict.{elem}
use hermes_auto.Json.{Value, Fields}
use hermes_auto.Prelude.Result.{Result, ok, ◌>>=◌, >>=-cong, ok-injective}
use hermes_auto.Prelude.{
  ℕ, zero, suc, String, true, Option, some, List, [], ◌∷◌, ◌==◌, ◌≡◌, refl, ap, subst, sym, ◌∙◌,
  ◌⊎◌, Bool-cases, inl, inr, arith, eq_iff,
}
use hermes_auto.Telemetry.Clean.{IsAllowed}
use hermes_auto.Telemetry.Events.{
  Event, Events, Entries, Key, text, odd, get, list, tuple, dict, str, nil, cons, end, entry,
}
use hermes_auto.Telemetry.Redaction.{
  banned_keys, session_id_keys, logged, name_of, note_dropped, prior_of, redact, redact_entries,
  redact_items, redact_node, safe_digest, take_entry, texts_of, Collected,
}
use hermes_auto.Telemetry.Salt.{SaltError}

module _ (casefold : String → String) (hmac : String → String → String)
    (salt : Result SaltError String) where
  mutual
    -- Two events that differ only below banned keys, and in session ids with the same digest.
    pub data Alike : Event → Event → Type 0 where
      same : (e : Event) → Alike e e
      lists : {es fs : Events} → AlikeEvents es fs → Alike (list es) (list fs)
      tuples : {es fs : Events} → AlikeEvents es fs → Alike (tuple es) (tuple fs)
      dicts : {es fs : Entries} → AlikeEntries es fs → Alike (dict es) (dict fs)

    pub data AlikeEvents : Events → Events → Type 0 where
      both_nil : AlikeEvents nil nil
      both_cons :
          {e f : Event} {es fs : Events}
          → Alike e f
          → AlikeEvents es fs
          → AlikeEvents (cons e es) (cons f fs)

    pub data AlikeEntries : Entries → Entries → Type 0 where
      both_end : AlikeEntries end end
      kept :
          {v w : Event} {es fs : Entries} (k : Key)
          → Alike v w
          → AlikeEntries es fs
          → AlikeEntries (entry k v es) (entry k w fs)
      banned :
          {es fs : Entries} (k : Key) (name : String) (v w : Event)
          → name_of k ≡ ok name
          → elem (casefold name) banned_keys ≡ true
          → AlikeEntries es fs
          → AlikeEntries (entry k v es) (entry k w fs)
      identified :
          {es fs : Entries} (k : Key) (name : String) (v w : Event)
          → name_of k ≡ ok name
          → elem (casefold name) session_id_keys ≡ true
          → safe_digest casefold hmac salt v ≡ safe_digest casefold hmac salt w
          → AlikeEntries es fs
          → AlikeEntries (entry k v es) (entry k w fs)

  texts_of-Alike : {es fs : Events} → AlikeEvents es fs → texts_of es ≡ texts_of fs
  unfolding texts_of
  texts_of-Alike both_nil = refl
  texts_of-Alike (both_cons (same (str s)) t) = ap (λ l. s ∷ l) (texts_of-Alike t)
  texts_of-Alike (both_cons (same Event.null) t) = texts_of-Alike t
  texts_of-Alike (both_cons (same (Event.bool b)) t) = texts_of-Alike t
  texts_of-Alike (both_cons (same (Event.int n)) t) = texts_of-Alike t
  texts_of-Alike (both_cons (same (Event.float x)) t) = texts_of-Alike t
  texts_of-Alike (both_cons (same (Event.opaque n r)) t) = texts_of-Alike t
  texts_of-Alike (both_cons (same (Event.again l)) t) = texts_of-Alike t
  texts_of-Alike (both_cons (same (list es)) t) = texts_of-Alike t
  texts_of-Alike (both_cons (same (tuple es)) t) = texts_of-Alike t
  texts_of-Alike (both_cons (same (dict es)) t) = texts_of-Alike t
  texts_of-Alike (both_cons (lists s) t) = texts_of-Alike t
  texts_of-Alike (both_cons (tuples s) t) = texts_of-Alike t
  texts_of-Alike (both_cons (dicts s) t) = texts_of-Alike t

  prior_of-Alike : {v w : Event} → Alike v w → prior_of (some v) ≡ prior_of (some w)
  unfolding prior_of
  prior_of-Alike (same e) = refl
  prior_of-Alike (lists s) = texts_of-Alike s
  prior_of-Alike (tuples s) = refl
  prior_of-Alike (dicts s) = refl

  safe_digest-Alike :
      {v w : Event}
      → Alike v w
      → safe_digest casefold hmac salt v ≡ safe_digest casefold hmac salt w
  unfolding safe_digest
  safe_digest-Alike (same e) = refl
  safe_digest-Alike (lists s) = refl
  safe_digest-Alike (tuples s) = refl
  safe_digest-Alike (dicts s) = refl

  -- a banned key, or one of a session id, reads neither of the other arguments
  take_entry-banned :
      (name : String) (d d' : Result String (Option String)) (x x' : Result String Value)
      (c : Collected)
      → elem (casefold name) banned_keys ≡ true
      → take_entry casefold hmac salt name d x c ≡ take_entry casefold hmac salt name d' x' c
  unfolding take_entry
  take_entry-banned name d d' x x' c e = rw e refl

  take_entry-identified :
      (name : String) (d d' : Result String (Option String)) (x x' : Result String Value)
      (c : Collected)
      → elem (casefold name) session_id_keys ≡ true
      → d ≡ d'
      → take_entry casefold hmac salt name d x c ≡ take_entry casefold hmac salt name d' x' c
  unfolding take_entry
  take_entry-identified name d d' x x' c e same_digest =
      elim (Bool-cases (elem (casefold name) banned_keys)) [
        | inl b ↦ take_entry-banned name d d' x x' c b
        | inr b ↦ rw (b, e, same_digest) refl
      ]

  -- the rest of the loop, after a step that is the same
  entries-Alike :
      (n : ℕ) (k : Key) (v w : Event) (es fs : Entries) (c : Collected)
      → ((name : String)
          → name_of k ≡ ok name
          → take_entry casefold hmac salt name
              (safe_digest casefold hmac salt v)
              (redact_node casefold hmac salt n v)
              c
            ≡ take_entry casefold hmac salt name
                (safe_digest casefold hmac salt w)
                (redact_node casefold hmac salt n w)
                c)
      → ((c : Collected)
          → redact_entries casefold hmac salt n es c ≡ redact_entries casefold hmac salt n fs c)
      → redact_entries casefold hmac salt n (entry k v es) c
        ≡ redact_entries casefold hmac salt n (entry k w fs) c
  unfolding redact_node
  entries-Alike n k v w es fs c step rest = >>=-cong (name_of k) _ _ (λ name e.
      ap (λ m. m >>= λ next. redact_entries casefold hmac salt n es next) (step name e)
      ∙ >>=-cong
          (take_entry casefold hmac salt name (safe_digest casefold hmac salt w)
            (redact_node casefold hmac salt n w) c)
          _ _ (λ next _. rest next))

  module _ (note : IsAllowed casefold "_redacted") where
    -- the entry of a key that is left out is not `_redacted`
    prior_of-skip :
        (k : Key) (name : String) (v w : Event) (es fs : Entries)
        → name_of k ≡ ok name
        → (elem (casefold name) banned_keys ≡ true) ⊎ (elem (casefold name) session_id_keys ≡ true)
        → prior_of (get "_redacted" es) ≡ prior_of (get "_redacted" fs)
        → prior_of (get "_redacted" (entry k v es)) ≡ prior_of (get "_redacted" (entry k w fs))
    unfolding get name_of
    prior_of-skip (odd r) name v w es fs e out h = h
    prior_of-skip (text j) name v w es fs e out h = elim (Bool-cases (j == "_redacted")) [
      | inl b ↦
          let named : j ≡ name = ok-injective {E = String} e in
          let same_name : name ≡ "_redacted" = ground (arith, eq_iff j "_redacted") in
          let allowed = subst (IsAllowed casefold) (sym same_name) note in absurd (ground arith)
      | inr b ↦ rw b h
    ]

    existing-Alike :
        {es fs : Entries}
        → AlikeEntries es fs
        → prior_of (get "_redacted" es) ≡ prior_of (get "_redacted" fs)
    unfolding get
    existing-Alike both_end = refl
    existing-Alike (kept {es = es} {fs = fs} (odd r) s t) = existing-Alike t
    existing-Alike (kept {v = v} {w = w} {es = es} {fs = fs} (text j) s t) =
        elim (Bool-cases (j == "_redacted")) [
          | inl b ↦ rw b (prior_of-Alike s)
          | inr b ↦ rw b (existing-Alike t)
        ]
    existing-Alike (banned {es = es} {fs = fs} k name v w e b t) =
        prior_of-skip k name v w es fs e (inl b) (existing-Alike t)
    existing-Alike (identified {es = es} {fs = fs} k name v w e b d t) =
        prior_of-skip k name v w es fs e (inr b) (existing-Alike t)

    note_dropped-prior :
        (a b : Option Event) (result : Fields) (dropped : List String)
        → prior_of a ≡ prior_of b
        → note_dropped a result dropped ≡ note_dropped b result dropped
    unfolding note_dropped
    note_dropped-prior a b result [] h = refl
    note_dropped-prior a b result (s ∷ l) h = rw h refl

    mutual
      unfolding redact_node

      redact_node-Alike :
          {e f : Event} (n : ℕ)
          → Alike e f
          → redact_node casefold hmac salt n e ≡ redact_node casefold hmac salt n f
      redact_node-Alike n (same e) = refl
      redact_node-Alike zero (lists s) = refl
      redact_node-Alike zero (tuples s) = refl
      redact_node-Alike zero (dicts s) = refl
      redact_node-Alike (suc n) (lists s) =
          ap (λ m. m >>= λ vs. ok (Value.arr vs)) (redact_items-Alike n s)
      redact_node-Alike (suc n) (tuples s) =
          ap (λ m. m >>= λ vs. ok (Value.arr vs)) (redact_items-Alike n s)
      redact_node-Alike (suc n) (dicts {es = es} {fs = fs} s) =
          ap
            (λ m.
              m >>= λ (c : Collected). ok (Value.obj (note_dropped (get "_redacted" es) c.0 c.1)))
            (redact_entries-Alike n (Fields.end, []) s)
          ∙ >>=-cong (redact_entries casefold hmac salt n fs (Fields.end, [])) _ _ (λ c _.
            ap (λ fields. ok (Value.obj fields))
              (note_dropped-prior (get "_redacted" es) (get "_redacted" fs) c.0 c.1
                (existing-Alike s)))

      redact_items-Alike :
          {es fs : Events} (n : ℕ)
          → AlikeEvents es fs
          → redact_items casefold hmac salt n es ≡ redact_items casefold hmac salt n fs
      redact_items-Alike n both_nil = refl
      redact_items-Alike n (both_cons {e = e} {f = f} {es = es} {fs = fs} s t) =
          rw (redact_node-Alike n s, redact_items-Alike n t) refl

      redact_entries-Alike :
          {es fs : Entries} (n : ℕ) (c : Collected)
          → AlikeEntries es fs
          → redact_entries casefold hmac salt n es c ≡ redact_entries casefold hmac salt n fs c
      redact_entries-Alike n c both_end = refl
      redact_entries-Alike n c (kept {v = v} {w = w} {es = es} {fs = fs} k s t) =
          entries-Alike n k v w es fs c
            (λ name _. rw (safe_digest-Alike s, redact_node-Alike n s) refl)
            (λ next. redact_entries-Alike n next t)
      redact_entries-Alike n c (banned {es = es} {fs = fs} k name v w e b t) =
          entries-Alike n k v w es fs c
            (λ other f. take_entry-banned other _ _ _ _ c (ground arith))
            (λ next. redact_entries-Alike n next t)
      redact_entries-Alike n c (identified {es = es} {fs = fs} k name v w e b d t) =
          entries-Alike n k v w es fs c
            (λ other f. take_entry-identified other _ _ _ _ c (ground arith) d)
            (λ next. redact_entries-Alike n next t)

    -- Events that differ only in values below banned keys, at any depth, and in session ids with the
    -- same digest, are logged alike.
    pub redact-Alike :
        {e f : Event} → Alike e f → redact casefold hmac salt e ≡ redact casefold hmac salt f
    unfolding redact
    redact-Alike s = ap logged (redact_node-Alike 13 s)
