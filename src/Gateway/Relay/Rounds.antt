-- ===== src/Gateway/Relay/Rounds.antt =====
-- The rounds: what an upstream answered where a round commits, goes on or ends by an exception.
use hermes_auto.Gateway.Ingress.{Bytes}
use hermes_auto.Gateway.Relay.{
  Response, go_on, commit, abort, StreamReply, CompleteReply, opened, answered, Chunks, Ending,
  done, broken, crashed, stream_round, complete_round, first_chunk, relayed, relay_stream,
  with_first, with_length, retryable_status, is_success, failure_reason, http_reason,
}
use hermes_auto.Gateway.Upstream.{Failure, Header}
use hermes_auto.Prelude.{
  ℕ, ◌≤◌, ◌<◌, String, ◌≡◌, ◌≢◌, ◌⊎◌, false≢true, refl, sym, subst, ap, ◌∙◌, true, false, List, [],
  ◌∷◌, arith, Bool-cases, inl, inr, =ℕ_iff,
}

-- The statuses that permit a fallback.
abbrev pub PermitsFallback : ℕ → Type 0
PermitsFallback status = (status ≡ 401) ⊎ ((status ≡ 403) ⊎ ((status ≡ 429) ⊎ (500 ≤ status)))

-- The upstream declined a streaming request: it failed to answer by an exception that the handler names,
-- it answered with a status that permits a fallback, or it answered with a success and its body broke
-- before the first chunk by an exception that the handler names.
pub Declines : StreamReply → Type 0
Declines (StreamReply.failed e) = Unit
Declines (opened status headers c) =
    PermitsFallback status
    ⊎ ((200 ≤ status) × (status < 300) × (e : Failure) × (c.chunks ≡ []) × (c.ending ≡ broken e))

retryable-PermitsFallback : (status : ℕ) → retryable_status status ≡ true → PermitsFallback status
unfolding retryable_status
retryable-PermitsFallback status h =
    ground (arith, =ℕ_iff status 401, =ℕ_iff status 403, =ℕ_iff status 429)

success-bounds : (status : ℕ) → is_success status ≡ true → (200 ≤ status) × (status < 300)
success-bounds status h = (ground arith, ground arith)

success_round :
    (status : ℕ) (headers : List Header) (c : Chunks)
    → retryable_status status ≡ false
    → is_success status ≡ true
    → stream_round (opened status headers c) ≡ first_chunk status headers c.chunks c.ending
unfolding stream_round
success_round status headers c e k = rw (e, k) refl

first_chunk-go_on :
    (status : ℕ) (headers : List Header) (cs : List Bytes) (ending : Ending) (reason : String)
    → first_chunk status headers cs ending ≡ go_on reason
    → (e : Failure) × (cs ≡ []) × (ending ≡ broken e)
unfolding first_chunk
first_chunk-go_on status headers [] done reason h = absurd (cc)
first_chunk-go_on status headers [] (broken e) reason h = (e, refl, refl)
first_chunk-go_on status headers [] (crashed n) reason h = absurd (cc)
first_chunk-go_on status headers (c ∷ cs) ending reason h = absurd (cc)

-- A streaming round goes on only where the upstream declined.
pub stream_round-Declines :
    (reply : StreamReply) (reason : String) → stream_round reply ≡ go_on reason → Declines reply
unfolding stream_round Declines
stream_round-Declines (StreamReply.failed e) reason h = tt
stream_round-Declines (opened status headers c) reason h =
    elim (Bool-cases (retryable_status status)) [
      | inl e ↦ inl (retryable-PermitsFallback status e)
      | inr e ↦ elim (Bool-cases (is_success status)) [
        | inl k ↦
            let (failure, empty, ending) =
              first_chunk-go_on status headers c.chunks c.ending reason
                (sym (success_round status headers c e k) ∙ h) in
            let (low, high) = success-bounds status k in inr (low, high, failure, empty, ending)
        | inr k ↦ absurd (ground arith)
      ]
    ]

abbrev passed_on : ℕ → List Header → Chunks → Response
passed_on status headers c = record { status = status; headers = relayed headers; body = c }

first_chunk-commit :
    (status : ℕ) (headers : List Header) (c : Chunks) (response : Response)
    → first_chunk status headers c.chunks c.ending ≡ commit response
    → passed_on status headers c ≡ response
unfolding first_chunk relay_stream with_first
first_chunk-commit status headers c response h = go c.chunks c.ending h
  where
    go :
        (cs : List Bytes) (e : Ending)
        → first_chunk status headers cs e ≡ commit response
        → passed_on status headers (record { chunks = cs; ending = e }) ≡ response
    go [] done h = cc
    go [] (broken e) h = absurd (cc)
    go [] (crashed name) h = absurd (cc)
    go (c ∷ cs) e h = cc

stream_round-passed :
    (status : ℕ) (headers : List Header) (c : Chunks) (response : Response)
    → stream_round (opened status headers c) ≡ commit response
    → (passed_on status headers c ≡ response) × (retryable_status status ≡ false)
unfolding stream_round relay_stream
stream_round-passed status headers c response h = elim (Bool-cases (retryable_status status)) [
  | inl e ↦ absurd (ground arith)
  | inr e ↦ elim (Bool-cases (is_success status)) [
    | inl k ↦ (first_chunk-commit status headers c response (ground arith), e)
    | inr k ↦ (ground arith, e)
  ]
]

retryable-of_PermitsFallback :
    (status : ℕ) → PermitsFallback status → retryable_status status ≡ true
unfolding retryable_status
retryable-of_PermitsFallback status (inl e) = rw e refl
retryable-of_PermitsFallback status (inr (inl e)) = rw e refl
retryable-of_PermitsFallback status (inr (inr (inl e))) = rw e refl
retryable-of_PermitsFallback status (inr (inr (inr h))) = ground arith

is_success-of_bounds : (status : ℕ) → 200 ≤ status → status < 300 → is_success status ≡ true
is_success-of_bounds status low high = ground arith

-- Where the upstream declined, a streaming round goes on.
Declines-goes_on :
    (reply : StreamReply) → Declines reply → (reason : String) × (stream_round reply ≡ go_on reason)
unfolding stream_round Declines first_chunk
Declines-goes_on (StreamReply.failed e) h = (failure_reason e, refl)
Declines-goes_on (opened status headers c) h = elim (Bool-cases (retryable_status status)) [
  | inl e ↦ (http_reason status, rw e refl)
  | inr e ↦ elim h [
    | inl permits ↦ absurd (false≢true (sym e ∙ retryable-of_PermitsFallback status permits))
    | inr (low, high, failure, empty, ending) ↦ (
      failure_reason failure,
      success_round status headers c e (is_success-of_bounds status low high)
          ∙ rw (empty, ending) refl,
    )
  ]
]

-- Where a streaming round commits, the upstream did not decline.
pub stream_round-accepted :
    (reply : StreamReply) (response : Response)
    → stream_round reply ≡ commit response
    → ¬ (Declines reply)
stream_round-accepted reply response h d = go_on≢commit (sym (Declines-goes_on reply d).1 ∙ h)
  where
    go_on≢commit : {reason : String} → go_on reason ≢ commit response
    go_on≢commit p = cc

-- A committed streaming round answers with the status of the upstream, which permits no fallback,
-- its filtered headers, and exactly its chunks and ending.
pub stream_round-commit :
    (reply : StreamReply) (response : Response)
    → stream_round reply ≡ commit response
    → (headers : List Header) × (reply ≡ opened response.status headers response.body)
      × (response.headers ≡ relayed headers)
      × (retryable_status response.status ≡ false)
unfolding stream_round
stream_round-commit (StreamReply.failed e) response h = absurd (cc)
stream_round-commit (opened status headers c) response h =
    let (e, kept) = stream_round-passed status headers c response h in
    subst
      (λ (r : Response).
        (hs : List Header) × (opened status headers c ≡ opened r.status hs r.body)
        × (r.headers ≡ relayed hs)
        × (retryable_status r.status ≡ false))
      e (headers, refl, refl, kept)

-- A committed round of the other loop answers with the status and the content of the upstream.
pub complete_round-commit :
    (reply : CompleteReply) (response : Response)
    → complete_round reply ≡ commit response
    → (headers : List Header) × (content : Bytes) × (reply
        ≡ answered response.status headers content)
      × (response.body.chunks ≡ content ∷ [])
      × (response.headers ≡ with_length content (relayed headers))
      × (retryable_status response.status ≡ false)
unfolding complete_round
complete_round-commit (CompleteReply.failed e) response h = absurd (cc)
complete_round-commit (answered status headers content) response h =
    (headers, content, ground arith, ground arith, ground arith, ground arith)

first_chunk-abort :
    (status : ℕ) (headers : List Header) (cs : List Bytes) (ending : Ending) (name : String)
    → first_chunk status headers cs ending ≡ abort name
    → (cs ≡ []) × (ending ≡ crashed name)
unfolding first_chunk
first_chunk-abort status headers [] done name h = absurd (cc)
first_chunk-abort status headers [] (broken e) name h = absurd (cc)
first_chunk-abort status headers [] (crashed n) name h = (refl, cc)
first_chunk-abort status headers (c ∷ cs) ending name h = absurd (cc)

-- An exception leaves a streaming round only where the upstream answered with a success and its body
-- crashed before the first chunk.
pub stream_round-abort :
    (reply : StreamReply) (name : String)
    → stream_round reply ≡ abort name
    → (status : ℕ) × (headers : List Header) × (reply
        ≡ opened status headers (record { chunks = []; ending = crashed name }))
      × (is_success status ≡ true)
unfolding stream_round
stream_round-abort (StreamReply.failed e) name h = absurd (cc)
stream_round-abort (opened status headers c) name h = elim (Bool-cases (retryable_status status)) [
  | inl e ↦ absurd (ground arith)
  | inr e ↦ elim (Bool-cases (is_success status)) [
    | inl k ↦
        let (empty, ending) =
          first_chunk-abort status headers c.chunks c.ending name (ground arith) in
        (
          status,
          headers,
          ap (λ (x : List Bytes). opened status headers (record { chunks = x; ending = c.ending }))
                empty
              ∙ ap (λ (x : Ending). opened status headers (record { chunks = []; ending = x }))
                  ending,
          k,
        )
    | inr k ↦ absurd (ground arith)
  ]
]

-- No exception leaves a round of the other loop.
pub complete_round-abort :
    (reply : CompleteReply) (name : String) → complete_round reply ≢ abort name
unfolding complete_round
complete_round-abort (CompleteReply.failed e) name h = absurd (cc)
complete_round-abort (answered status headers content) name h = ground arith
