-- ===== src/Dict.antt =====
-- Python's `dict` and `OrderedDict` with text keys: an association list in insertion order. A dict
-- that the program builds has no key twice (`keys` is `Nodup`); the laws do not need it unless they
-- say so.
pub mod Laws
use hermes_auto.Prelude.{
  String, ◌≡◌, Bool, true, false, Option, none, some, List, [], ◌∷◌, ◌++◌, map, ◌==◌, if◌then◌else◌,
}

module _ {ℓ} {V : Type ℓ} where
  -- `d.get(k)`
  abbrev pub lookup : String → List (String × V) → Option V
  lookup k [] = none
  lookup k ((j, v) ∷ d) = if j == k then some v else lookup k d

  -- `d[k] = v`: an old key keeps its place, a new one goes to the end
  abbrev pub insert : String → V → List (String × V) → List (String × V)
  insert k v [] = (k, v) ∷ []
  insert k v ((j, w) ∷ d) = if j == k then (k, v) ∷ d else (j, w) ∷ insert k v d

  -- `d.pop(k, None)`, without its result
  abbrev pub remove : String → List (String × V) → List (String × V)
  remove k [] = []
  remove k ((j, v) ∷ d) = if j == k then remove k d else (j, v) ∷ remove k d

  abbrev pub keys : List (String × V) → List String
  keys = map (λ e. e.0)

abbrev pub elem : String → List String → Bool
elem k [] = false
elem k (j ∷ l) = if j == k then true else elem k l

abbrev pub IsDistinct : List String → Type 0
IsDistinct [] = Unit
IsDistinct (k ∷ l) = (elem k l ≡ false) × IsDistinct l
