-- ===== src/Gateway/Ingress/Admission.antt =====
-- Who is admitted, and which bodies: authentication and the size limit.
use hermes_auto.Gateway.Ingress.{
  authenticate, bearer, invalid_api_key, Bytes, StreamEvent, chunk, disconnect, read_body,
  too_large,
}
use hermes_auto.Prelude.Result.{ok, raise, ok-injective}
use hermes_auto.Prelude.{
  ℕ, ◌+◌, ◌≤◌, ◌<◌, String, ◌≡◌, ◌≢◌, ◌↔◌, ◌⊎◌, refl, sym, ap, subst, ◌∙◌, Option, none, some, List,
  [], ◌∷◌, ◌++◌, length, length-append, ltb, map, arith, eq_iff, Bool-cases, inl, inr,
}
use mathlib.Core.List.{append_assoc, append-nil}

authenticated-some :
    (header : Option String) (t : String)
    → t ≢ ""
    → bearer header ≡ t
    → authenticate header (some t) ≡ ok tt
unfolding authenticate
authenticated-some header t ne e = ground (arith, eq_iff t "", eq_iff (bearer header) t)

-- A request is authenticated exactly when a token was minted, is not empty, and is the credential
-- of its bearer header.
pub authenticate_iff :
    (header token : Option String)
    → (authenticate header token ≡ ok tt)
      ↔ ((t : String) × (token ≡ some t) × (t ≢ "") × (bearer header ≡ t))
unfolding authenticate
authenticate_iff header none = ((λ h. absurd (cc)), λ h. absurd (cc (h.1)))
authenticate_iff header (some t) = (
  (λ h. (
    t,
    refl,
    (λ e. ground (arith, eq_iff t "")),
    ground (arith, eq_iff t "", eq_iff (bearer header) t),
  )),
  λ h.
      subst (λ token. authenticate header token ≡ ok tt) (sym h.1)
        (authenticated-some header h.0 h.2 h.3),
)

-- Whatever is not authenticated is answered by the one error.
pub authenticate_denied :
    (header token : Option String)
    → (authenticate header token ≡ ok tt) ⊎ (authenticate header token ≡ raise invalid_api_key)
unfolding authenticate
authenticate_denied header none = inr refl
authenticate_denied header (some t) = ground arith

-- The bytes of the chunks.
abbrev pub total : List Bytes → ℕ
total [] = 0
total (c ∷ cs) = length c + total cs

abbrev pub joined : List Bytes → Bytes
joined [] = []
joined (c ∷ cs) = c ++ joined cs

read_body-within :
    (m n : ℕ) (kept : Bytes) (cs : List Bytes)
    → n + total cs ≤ m
    → read_body m n kept (map chunk cs) ≡ ok (kept ++ joined cs)
unfolding read_body
read_body-within m n kept [] h = rw append-nil
read_body-within m n kept (c ∷ cs) h = elim (Bool-cases (ltb m (n + length c))) [
  | inl e ↦ absurd (ground arith)
  | inr e ↦ rw e (
      read_body-within m (n + length c) (kept ++ c) cs (omega arith)
      ∙ ap ok (append_assoc kept c (joined cs)))
]

read_body-beyond :
    (m n : ℕ) (kept : Bytes) (cs : List Bytes) (rest : List StreamEvent)
    → n ≤ m
    → m < n + total cs
    → read_body m n kept (map chunk cs ++ rest) ≡ raise (too_large m)
unfolding read_body
read_body-beyond m n kept [] rest le h = absurd (omega arith)
read_body-beyond m n kept (c ∷ cs) rest le h = elim (Bool-cases (ltb m (n + length c))) [
  | inl e ↦ rw e refl
  | inr e ↦
      rw e (read_body-beyond m (n + length c) (kept ++ c) cs rest (ground arith) (omega arith))
]

-- A body of whole chunks that is within the limit is read as their concatenation.
pub read_body_within :
    (max_bytes : ℕ) (cs : List Bytes)
    → total cs ≤ max_bytes
    → read_body max_bytes 0 [] (map chunk cs) ≡ ok (joined cs)
read_body_within m cs h = read_body-within m 0 [] cs (omega arith)

-- As soon as the chunks pass the limit the request is refused as too large, whatever would come
-- after them.
pub read_body_beyond :
    (max_bytes : ℕ) (cs : List Bytes) (rest : List StreamEvent)
    → max_bytes < total cs
    → read_body max_bytes 0 [] (map chunk cs ++ rest) ≡ raise (too_large max_bytes)
read_body_beyond m cs rest h = read_body-beyond m 0 [] cs rest (omega arith) (omega arith)

-- No body that is read is longer than the limit.
pub length-read_body-le :
    (max_bytes n : ℕ) (kept raw : Bytes) (events : List StreamEvent)
    → length kept ≡ n
    → n ≤ max_bytes
    → read_body max_bytes n kept events ≡ ok raw
    → length raw ≤ max_bytes
unfolding read_body
length-read_body-le m n kept raw [] e le h =
    subst (λ b. length b ≤ m) (ok-injective h) (omega arith)
length-read_body-le m n kept raw (disconnect ∷ events) e le h = absurd (cc)
length-read_body-le m n kept raw (chunk c ∷ events) e le h =
    elim (Bool-cases (ltb m (n + length c))) [
      | inl k ↦ absurd (ground arith)
      | inr k ↦
          length-read_body-le m (n + length c) (kept ++ c) raw events
            (omega (arith, length-append kept c)) (ground arith) (ground arith)
    ]
