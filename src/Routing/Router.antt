-- ===== src/Routing/Router.antt =====
-- `DecisionRouter` of `routing/selector.py`. A `RouteDecision` is an object that the session table
-- and the deque of recent decisions share: `heap` holds the objects, a `Ref` is an object's identity.
pub mod Table
pub mod Invariant
pub mod Sessions
pub mod Pinning
pub mod ToolLoop
use hermes_auto.Config.{CandidateConfig}
use hermes_auto.Dict.{lookup, insert, remove}
use hermes_auto.Json.{Fields, length_items}
use hermes_auto.Prelude.Result.{Result, ok, raise, ◌>>=◌}
use hermes_auto.Prelude.{
  ℕ, String, Bool, true, false, ◌||◌, Option, none, some, List, [], ◌∷◌, ◌++◌, map, ◌==◌, ltb, not,
  length, get_elem?, set, keep, first, if◌then◌else◌, ◌=ℕ◌,
}
use hermes_auto.Routing.Candidates.{
  compatibility_tier, detected_tier, eligible_candidates, ordered_candidates,
}
use hermes_auto.Routing.Request.{
  complexity_score, estimate_input_tokens, latest_role, latest_user_message, messages,
}
use hermes_auto.Text.{concat, join, lower, show, strip}

pub record Attempt : Type 0 where
  pub candidate : String
  pub reason : String

pub record RouteDecision : Type 0 where
  pub selected : CandidateConfig
  pub candidates : List CandidateConfig
  pub detected_tier : String
  pub requested_tier : String
  pub score : ℕ
  pub estimated_tokens : ℕ
  pub filtered : List (String × List String)
  pub fingerprint : String
  pub pinned : Option String
  pub attempts : List Attempt

abbrev pub Ref : Type 0
Ref = ℕ

-- `_SessionRoute`
pub record SessionRoute : Type 0 where
  pub candidate_id : String
  pub decision : Ref

pub record DecisionRouter : Type 0 where
  pub candidates : List CandidateConfig
  pub max_sessions : ℕ
  pub max_decisions : ℕ
  pub sessions : List (String × SessionRoute)
  pub decisions : List Ref
  pub heap : List RouteDecision
  pub session_salt : String

-- `index_error` is the `IndexError` of `ordered[0]`.
pub data RoutingError : Type 0 where
  routing_error : String → RoutingError
  index_error : RoutingError

-- `max(1, n)`
abbrev at_least_one : ℕ → ℕ
at_least_one n = if ltb 1 n then n else 1

-- `__init__`; `salt` is what `secrets.token_bytes` returned
unfoldable pub init : List CandidateConfig → ℕ → ℕ → String → Result RoutingError DecisionRouter
init [] max_sessions max_decisions salt =
    raise (routing_error "no routing candidates are configured")
init (c ∷ cs) max_sessions max_decisions salt = ok (record {
  candidates = c ∷ cs;
  max_sessions = at_least_one max_sessions;
  max_decisions = at_least_one max_decisions;
  sessions = [];
  decisions = [];
  heap = [];
  session_salt = salt;
})

-- `move_to_end`, of a key that is there
unfoldable pub move_to_end : String → List (String × SessionRoute) → List (String × SessionRoute)
move_to_end k sessions = elim (lookup k sessions) [
  | none ↦ sessions
  | some v ↦ remove k sessions ++ (k, v) ∷ []
]

-- `while len(sessions) > max_sessions: sessions.popitem(last=False)`
unfoldable pub evict : ℕ → List (String × SessionRoute) → List (String × SessionRoute)
evict max_sessions [] = []
evict max_sessions (s ∷ sessions) =
    let rest = evict max_sessions sessions in
    if ltb max_sessions (length (s ∷ sessions)) then rest else s ∷ sessions

-- `append` of a `deque(maxlen=max_decisions)`
unfoldable pub append_bounded : ℕ → List Ref → Ref → List Ref
append_bounded max_decisions [] d = d ∷ []
append_bounded max_decisions (x ∷ xs) d =
    if ltb (length (x ∷ xs)) max_decisions then (x ∷ xs) ++ d ∷ [] else xs ++ d ∷ []

-- `_remember`, of the object `d` whose selected candidate has the id `candidate_id`
unfoldable pub remember : String → String → Ref → DecisionRouter → DecisionRouter
unfolding move_to_end evict append_bounded
remember key candidate_id d r = record r {
  sessions = evict r.max_sessions (
      move_to_end key
        (insert key (record { candidate_id = candidate_id; decision = d }) r.sessions));
  decisions = append_bounded r.max_decisions r.decisions d;
}

-- `f"{candidate_id} ({'/'.join(reasons)})"`
unfoldable pub filter_note : String × List String → String
unfolding concat join
filter_note (candidate_id, reasons) = concat (candidate_id ∷ " (" ∷ join "/" reasons ∷ ")" ∷ [])

unfoldable pub no_eligible : List (String × List String) → RoutingError
unfolding filter_note concat join
no_eligible filtered =
    let detail = join ", " (map filter_note filtered) in
    routing_error (
      concat
        ("no eligible candidates: " ∷ (if detail == "" then "none configured" else detail) ∷ []))

-- `(virtual_model or "").strip().lower() == "auto:session"`
unfoldable pub pins_session : String → Bool
unfolding lower strip
pins_session virtual_model = lower (strip virtual_model) == "auto:session"

unfoldable pub pins_tool_loop : Fields → Bool
unfolding latest_role
pins_tool_loop body = not (latest_role body == "user")

abbrev pub has_id : String → CandidateConfig → Bool
has_id k c = c.id == k

-- The pinned candidate of a session, if `route` pins one.
unfoldable pub pinned_candidate :
    Option SessionRoute → Bool → List CandidateConfig → Option CandidateConfig
pinned_candidate none should_pin eligible = none
pinned_candidate (some previous) should_pin eligible =
    if should_pin then first (has_id previous.candidate_id) eligible else none

-- The pinned candidate in front of the others.
unfoldable pub pin_order : Option CandidateConfig → List CandidateConfig → List CandidateConfig
pin_order none ordered = ordered
pin_order (some c) ordered = c ∷ keep (λ item. not (has_id c.id item)) ordered

unfoldable pub pin_reason : Option CandidateConfig → Bool → Option String
pin_reason none tool_loop = none
pin_reason (some c) tool_loop = some (if tool_loop then "tool_loop" else "session")

-- the new object in the heap, and `_remember`
unfoldable pub commit : DecisionRouter → String → RouteDecision → DecisionRouter × Ref
unfolding remember
commit r key d = (
  remember key d.selected.id (length r.heap) (record r { heap = r.heap ++ d ∷ [] }),
  length r.heap,
)

-- `keyed_digest salt value` is the hexadecimal SHA-256 of the salt and the value, and
-- `message_digest` the first 20 digits of that of the latest user message as sorted JSON.
module _ (keyed_digest : String → String → String) (message_digest : Option Fields → String) where
  unfoldable pub session_key : DecisionRouter → String → String
  session_key r root_session_id =
      keyed_digest r.session_salt (if root_session_id == "" then "no-session" else root_session_id)

  unfoldable pub fingerprint_of : Fields → String
  unfolding concat show length_items messages latest_user_message
  fingerprint_of body =
      concat
        (show (length_items (messages body)) ∷ ":" ∷ message_digest (latest_user_message body) ∷ [])

  -- `RouteDecision(selected=ordered[0], ...)`, of the order `selected ∷ others`
  abbrev pub describe :
      Fields
      → String
      → List (String × List String)
      → Option String
      → CandidateConfig
      → List CandidateConfig
      → RouteDecision
  describe body requested filtered pinned selected others = record {
    selected = selected;
    candidates = selected ∷ others;
    detected_tier = detected_tier (complexity_score body);
    requested_tier = requested;
    score = complexity_score body;
    estimated_tokens = estimate_input_tokens body;
    filtered = filtered;
    fingerprint = fingerprint_of body;
    pinned = pinned;
    attempts = [];
  }

  -- with the `IndexError` of an empty order
  unfoldable pub explain :
      Fields
      → String
      → List (String × List String)
      → Option String
      → List CandidateConfig
      → Result RoutingError RouteDecision
  explain body requested filtered pinned [] = raise index_error
  explain body requested filtered pinned (selected ∷ others) =
      ok (describe body requested filtered pinned selected others)

  -- what the session's previous decision pins
  unfoldable pub pin_of :
      DecisionRouter → Fields → String → String → List CandidateConfig → Option CandidateConfig
  pin_of r body root_session_id virtual_model eligible =
      pinned_candidate (lookup (session_key r root_session_id) r.sessions)
        (pins_tool_loop body || pins_session virtual_model) eligible

  -- the object that `route` builds from the eligible candidates
  unfoldable pub decide :
      DecisionRouter
      → Fields
      → String
      → String
      → List CandidateConfig
      → List (String × List String)
      → Result RoutingError RouteDecision
  decide r body root_session_id virtual_model eligible filtered =
      let requested = compatibility_tier virtual_model (detected_tier (complexity_score body)) in
      let ordered = ordered_candidates eligible requested in
      let pin = pin_of r body root_session_id virtual_model eligible in
      explain body requested filtered (pin_reason pin (pins_tool_loop body)) (pin_order pin ordered)

  -- `route`, from the eligible candidates on
  unfoldable pub route_from :
      DecisionRouter
      → Fields
      → String
      → String
      → List CandidateConfig
      → List (String × List String)
      → Result RoutingError (DecisionRouter × Ref)
  route_from r body root_session_id virtual_model [] filtered = raise (no_eligible filtered)
  route_from r body root_session_id virtual_model (c ∷ cs) filtered = do
    d ← decide r body root_session_id virtual_model (c ∷ cs) filtered
    ok (commit r (session_key r root_session_id) d)

  -- `route`: the new state and the identity of the new decision
  unfoldable pub route :
      DecisionRouter → Fields → String → String → Result RoutingError (DecisionRouter × Ref)
  route r body root_session_id virtual_model =
      let (eligible, filtered) = eligible_candidates r.candidates body in
      route_from r body root_session_id virtual_model eligible filtered

  -- `decision_for`
  unfoldable pub decision_for : DecisionRouter → String → Option RouteDecision
  decision_for r root_session_id = elim (lookup (session_key r root_session_id) r.sessions) [
    | none ↦ none
    | some state ↦ get_elem? r.heap state.decision
  ]

-- the loop of `finalize` over the session table, up to its `break`
unfoldable pub repoint : Ref → String → List (String × SessionRoute) → List (String × SessionRoute)
repoint d candidate_id [] = []
repoint d candidate_id ((k, state) ∷ sessions) =
    if state.decision =ℕ d
    then (k, record state { candidate_id = candidate_id }) ∷ sessions
    else (k, state) ∷ repoint d candidate_id sessions

-- `decision.selected = selected; decision.attempts = attempts`, through the shared object
unfoldable pub write_outcome :
    Ref → CandidateConfig → List Attempt → List RouteDecision → List RouteDecision
write_outcome d selected attempts heap = elim (get_elem? heap d) [
  | none ↦ heap
  | some decision ↦ set heap d (record decision { selected = selected; attempts = attempts })
]

unfoldable pub finalize : DecisionRouter → Ref → CandidateConfig → List Attempt → DecisionRouter
unfolding repoint write_outcome
finalize r d selected attempts = record r {
  heap = write_outcome d selected attempts r.heap;
  sessions = repoint d selected.id r.sessions;
}

-- the identities in `latest_decisions`, oldest first
abbrev pub latest_decisions : DecisionRouter → List Ref
latest_decisions r = r.decisions

unfoldable pub last : List Ref → Option Ref
last [] = none
last (x ∷ []) = some x
last (x ∷ y ∷ xs) = last (y ∷ xs)

unfoldable pub latest_decision : DecisionRouter → Option RouteDecision
unfolding last
latest_decision r = elim (last r.decisions) [ none ↦ none | some d ↦ get_elem? r.heap d ]
