-- ===== src/Routing/Router/Table.antt =====
-- Lemmas on the session table, the deque and the heap of `DecisionRouter`.
use hermes_auto.Config.{CandidateConfig}
use hermes_auto.Dict.{insert, remove, keys, IsDistinct}
use hermes_auto.Dict.Laws.{lookup-insert, elem-keys-remove, remove-IsDistinct, snoc-IsDistinct}
use hermes_auto.Prelude.{
  ℕ, zero, suc, ◌≤◌, ◌<◌, String, ◌≡◌, refl, false, Option, none, some, List, [], ◌∷◌, ◌++◌, ltb,
  ◌=ℕ◌, length, get_elem?, set, All, Pairs, ◌==◌, eq_iff, eq_refl, arith, Bool-cases, Option-cases,
  inl, inr, length-append, All-append, length-set,
}
use hermes_auto.Routing.Router.{
  SessionRoute, RouteDecision, Ref, Attempt, move_to_end, evict, append_bounded, repoint,
  write_outcome,
}

abbrev pub Sessions : Type 0
Sessions = List (String × SessionRoute)

remove-insert :
    (k : String) (v : SessionRoute) (l : Sessions) → remove k (insert k v l) ≡ remove k l
remove-insert k v [] = ground (arith, eq_iff k k)
remove-insert k v ((j, w) ∷ l) = ground (arith, eq_iff k k, eq_iff j k, remove-insert k v l)

-- Storing under a key puts it at the end.
pub move_to_end-insert :
    (k : String) (v : SessionRoute) (l : Sessions)
    → move_to_end k (insert k v l) ≡ remove k l ++ (k, v) ∷ []
unfolding move_to_end
move_to_end-insert k v l = ground (arith, lookup-insert k k v l, eq_iff k k, remove-insert k v l)

pub length-evict-le : (m : ℕ) (l : Sessions) → length (evict m l) ≤ m
unfolding evict
length-evict-le m [] = omega arith
length-evict-le m (s ∷ l) = ground (arith, length-evict-le m l)

-- What holds of a table holds of the table that is left.
pub evict-keeps :
    (Q : Sessions → Type 0)
    → ((s : String × SessionRoute) (l : Sessions) → Q (s ∷ l) → Q l)
    → (m : ℕ) (l : Sessions) → Q l
    → Q (evict m l)
unfolding evict
evict-keeps Q next m [] h = h
evict-keeps Q next m (s ∷ l) h = elim (Bool-cases (ltb m (length (s ∷ l)))) [
  | inl e ↦ rw e (evict-keeps Q next m l (next s l h))
  | inr e ↦ rw e h
]

-- The newest entry is never evicted.
pub evict-snoc :
    (m : ℕ) (l : Sessions) (s : String × SessionRoute)
    → evict (suc m) (l ++ s ∷ []) ≡ evict m l ++ s ∷ []
unfolding evict
evict-snoc m [] s = ground arith
evict-snoc m (x ∷ l) s = ground (arith, evict-snoc m l s, length-append l (s ∷ []))

-- Below the bound nothing is evicted.
pub evict_fits : (m : ℕ) (l : Sessions) → length l ≤ m → evict m l ≡ l
unfolding evict
evict_fits m [] h = refl
evict_fits m (s ∷ l) h = ground arith

pub All-remove :
    (P : String × SessionRoute → Type 0) (k : String) (l : Sessions) → All P l → All P (remove k l)
All-remove P k [] h = tt
All-remove P k ((j, v) ∷ l) h = elim (Bool-cases (j == k)) [
  | inl e ↦ rw e (All-remove P k l h.1)
  | inr e ↦ rw e (h.0, All-remove P k l h.1)
]

pub Pairs-remove :
    (R : String × SessionRoute → String × SessionRoute → Type 0) (k : String) (l : Sessions)
    → Pairs R l
    → Pairs R (remove k l)
Pairs-remove R k [] h = tt
Pairs-remove R k ((j, v) ∷ l) h = elim (Bool-cases (j == k)) [
  | inl e ↦ rw e (Pairs-remove R k l h.1)
  | inr e ↦ rw e (All-remove (R (j, v)) k l h.0, Pairs-remove R k l h.1)
]

pub stored-IsDistinct :
    (k : String) (v : SessionRoute) (l : Sessions)
    → IsDistinct (keys l)
    → IsDistinct (keys (remove k l ++ (k, v) ∷ []))
stored-IsDistinct k v l h =
    snoc-IsDistinct k v (remove k l) (rw (elem-keys-remove, eq_refl)) (remove-IsDistinct k l h)

pub length-append_bounded-le :
    (m : ℕ) (l : List Ref) (d : Ref) → 1 ≤ m → length l ≤ m → length (append_bounded m l d) ≤ m
unfolding append_bounded
length-append_bounded-le m [] d h k = omega arith
length-append_bounded-le m (x ∷ l) d h k = ground (arith, length-append l (d ∷ []))

pub All-append_bounded :
    (P : Ref → Type 0) (m : ℕ) (l : List Ref) (d : Ref)
    → P d
    → All P l
    → All P (append_bounded m l d)
unfolding append_bounded
All-append_bounded P m [] d h k = (h, tt)
All-append_bounded P m (x ∷ l) d h k = elim (Bool-cases (ltb (length (x ∷ l)) m)) [
  | inl e ↦ rw e (k.0, All-append P l (d ∷ []) k.1 (h, tt))
  | inr e ↦ rw e (All-append P l (d ∷ []) k.1 (h, tt))
]

-- The id of the selected candidate of an object.
abbrev pub id_of : Option RouteDecision → Option String
id_of none = none
id_of (some d) = some d.selected.id

abbrev pub selected_at : List RouteDecision → Ref → Option String
selected_at heap d = id_of (get_elem? heap d)

pub selected_at-lt :
    (heap : List RouteDecision) (d : Ref) (s : String)
    → selected_at heap d ≡ some s
    → d < length heap
selected_at-lt [] d s h = absurd (cc)
selected_at-lt (x ∷ heap) zero s h = omega arith
selected_at-lt (x ∷ heap) (suc d) s h = omega (arith, selected_at-lt heap d s h)

pub get_elem?-snoc :
    (heap : List RouteDecision) (x : RouteDecision)
    → get_elem? (heap ++ x ∷ []) (length heap) ≡ some x
get_elem?-snoc [] x = refl
get_elem?-snoc (y ∷ heap) x = get_elem?-snoc heap x

pub get_elem?-append :
    (heap : List RouteDecision) (x : RouteDecision) (d : Ref)
    → d < length heap
    → get_elem? (heap ++ x ∷ []) d ≡ get_elem? heap d
get_elem?-append [] x d h = absurd (omega arith)
get_elem?-append (y ∷ heap) x zero h = refl
get_elem?-append (y ∷ heap) x (suc d) h = get_elem?-append heap x d (omega arith)

module _ (d : Ref) (c : CandidateConfig) (a : List Attempt) (heap : List RouteDecision) where
  write_outcome-none : get_elem? heap d ≡ none → write_outcome d c a heap ≡ heap
  unfolding write_outcome
  write_outcome-none h = ground arith

  write_outcome-some :
      (x : RouteDecision)
      → get_elem? heap d ≡ some x
      → write_outcome d c a heap ≡ set heap d (record x { selected = c; attempts = a })
  unfolding write_outcome
  write_outcome-some x h = ground arith

pub length-write_outcome :
    (d : Ref) (c : CandidateConfig) (a : List Attempt) (heap : List RouteDecision)
    → length (write_outcome d c a heap) ≡ length heap
length-write_outcome d c a heap = elim (Option-cases (get_elem? heap d)) [
  | inl e ↦ rw (write_outcome-none d c a heap e)
  | inr (x, e) ↦
      rw (write_outcome-some d c a heap x e)
        (length-set heap d (record x { selected = c; attempts = a }))
]

pub get_elem?-set_self :
    (heap : List RouteDecision) (d : Ref) (x y : RouteDecision)
    → get_elem? heap d ≡ some x
    → get_elem? (set heap d y) d ≡ some y
get_elem?-set_self [] d x y h = absurd (cc)
get_elem?-set_self (z ∷ heap) zero x y h = refl
get_elem?-set_self (z ∷ heap) (suc d) x y h = get_elem?-set_self heap d x y h

pub get_elem?-set_ne :
    (heap : List RouteDecision) (d e : Ref) (y : RouteDecision)
    → (e =ℕ d) ≡ false
    → get_elem? (set heap d y) e ≡ get_elem? heap e
get_elem?-set_ne [] d e y h = refl
get_elem?-set_ne (z ∷ heap) zero zero y h = absurd (ground arith)
get_elem?-set_ne (z ∷ heap) zero (suc e) y h = refl
get_elem?-set_ne (z ∷ heap) (suc d) zero y h = refl
get_elem?-set_ne (z ∷ heap) (suc d) (suc e) y h = get_elem?-set_ne heap d e y (ground arith)

-- The object that `finalize` writes to, and the others.
pub write_outcome_self :
    (d : Ref) (c : CandidateConfig) (a : List Attempt) (heap : List RouteDecision)
    (x : RouteDecision)
    → get_elem? heap d ≡ some x
    → get_elem? (write_outcome d c a heap) d ≡ some (record x { selected = c; attempts = a })
write_outcome_self d c a heap x h =
    rw (write_outcome-some d c a heap x h)
      (get_elem?-set_self heap d x (record x { selected = c; attempts = a }) h)

pub write_outcome_ne :
    (d e : Ref) (c : CandidateConfig) (a : List Attempt) (heap : List RouteDecision)
    → (e =ℕ d) ≡ false
    → get_elem? (write_outcome d c a heap) e ≡ get_elem? heap e
write_outcome_ne d e c a heap h = elim (Option-cases (get_elem? heap d)) [
  | inl k ↦ rw (write_outcome-none d c a heap k)
  | inr (x, k) ↦
      rw (write_outcome-some d c a heap x k)
        (get_elem?-set_ne heap d e (record x { selected = c; attempts = a }) h)
]

pub keys-repoint : (d : Ref) (c : String) (l : Sessions) → keys (repoint d c l) ≡ keys l
unfolding repoint
keys-repoint d c [] = refl
keys-repoint d c ((k, s) ∷ l) = ground (arith, keys-repoint d c l)

pub length-repoint : (d : Ref) (c : String) (l : Sessions) → length (repoint d c l) ≡ length l
unfolding repoint
length-repoint d c [] = refl
length-repoint d c ((k, s) ∷ l) = ground (arith, length-repoint d c l)

pub All-repoint :
    (P : String × SessionRoute → Type 0) (d : Ref) (c : String) (l : Sessions)
    → ((k : String) (s : SessionRoute) → P (k, s) → P (k, record s { candidate_id = c }))
    → All P l
    → All P (repoint d c l)
unfolding repoint
All-repoint P d c [] f h = tt
All-repoint P d c ((k, s) ∷ l) f h = elim (Bool-cases (s.decision =ℕ d)) [
  | inl e ↦ rw e (f k s h.0, h.1)
  | inr e ↦ rw e (h.0, All-repoint P d c l f h.1)
]
