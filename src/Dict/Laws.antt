-- ===== src/Dict/Laws.antt =====
-- The laws of dicts: what can be read after a write, sizes and distinct keys.
use hermes_auto.Dict.{lookup, insert, remove, keys, elem, IsDistinct}
use hermes_auto.Prelude.{
  ◌≤◌, String, ◌≡◌, refl, true, false, none, some, List, [], ◌∷◌, ◌++◌, length, ◌==◌, eq_iff, arith,
  if◌then◌else◌,
}

module _ {ℓ} {V : Type ℓ} where
  pub lookup-insert :
      (k j : String) (v : V) (d : List (String × V))
      → lookup j (insert k v d) ≡ (if k == j then some v else lookup j d)
  lookup-insert k j v [] = refl
  lookup-insert k j v ((i, w) ∷ d) =
      ground (arith, eq_iff k j, eq_iff i k, eq_iff i j, lookup-insert k j v d)

  pub lookup-remove :
      (k j : String) (d : List (String × V))
      → lookup j (remove k d) ≡ (if k == j then none else lookup j d)
  lookup-remove k j [] = ground arith
  lookup-remove k j ((i, w) ∷ d) =
      ground (arith, eq_iff k j, eq_iff i k, eq_iff i j, lookup-remove k j d)

  pub lookup-append :
      (k : String) (c d : List (String × V))
      → lookup k (c ++ d) ≡ elim (lookup k c) [ none ↦ lookup k d | some v ↦ some v ]
  lookup-append k [] d = refl
  lookup-append k ((j, v) ∷ c) d = ground (arith, lookup-append k c d)

  pub length-remove-le : (k : String) (d : List (String × V)) → length (remove k d) ≤ length d
  length-remove-le k [] = omega arith
  length-remove-le k ((j, v) ∷ d) = ground (arith, length-remove-le k d)

  pub elem-keys-remove :
      (k j : String) (d : List (String × V))
      → elem j (keys (remove k d)) ≡ (if k == j then false else elem j (keys d))
  elem-keys-remove k j [] = ground arith
  elem-keys-remove k j ((i, v) ∷ d) =
      ground (arith, elem-keys-remove k j d, eq_iff k j, eq_iff i k, eq_iff i j)

  pub remove-IsDistinct :
      (k : String) (d : List (String × V)) → IsDistinct (keys d) → IsDistinct (keys (remove k d))
  remove-IsDistinct k [] h = tt
  remove-IsDistinct k ((j, v) ∷ d) h =
      ground (arith, elem-keys-remove k j d, eq_iff j k, remove-IsDistinct k d h.1)

  pub elem-lookup :
      (k : String) (d : List (String × V)) → lookup k d ≡ none → elem k (keys d) ≡ false
  elem-lookup k [] h = refl
  elem-lookup k ((j, v) ∷ d) h = ground (arith, elem-lookup k d)

  pub lookup-elem :
      (k : String) (d : List (String × V)) → elem k (keys d) ≡ false → lookup k d ≡ none
  lookup-elem k [] h = refl
  lookup-elem k ((j, v) ∷ d) h = ground (arith, lookup-elem k d)

  pub elem-keys-snoc :
      (j k : String) (v : V) (d : List (String × V))
      → elem j (keys (d ++ (k, v) ∷ [])) ≡ (if k == j then true else elem j (keys d))
  elem-keys-snoc j k v [] = refl
  elem-keys-snoc j k v ((i, w) ∷ d) = ground (arith, elem-keys-snoc j k v d)

  -- A key that is not yet there may go to the end.
  pub snoc-IsDistinct :
      (k : String) (v : V) (d : List (String × V))
      → elem k (keys d) ≡ false
      → IsDistinct (keys d)
      → IsDistinct (keys (d ++ (k, v) ∷ []))
  snoc-IsDistinct k v [] h d = ground arith
  snoc-IsDistinct k v ((i, w) ∷ r) h d =
      ground (arith, elem-keys-snoc i k v r, eq_iff k i, eq_iff i k, snoc-IsDistinct k v r)

  pub remove_absent :
      (k : String) (d : List (String × V)) → elem k (keys d) ≡ false → remove k d ≡ d
  remove_absent k [] h = refl
  remove_absent k ((j, v) ∷ d) h = ground (arith, remove_absent k d)

  pub elem-keys-insert :
      (k j : String) (v : V) (d : List (String × V))
      → elem j (keys (insert k v d)) ≡ (if k == j then true else elem j (keys d))
  elem-keys-insert k j v [] = refl
  elem-keys-insert k j v ((i, w) ∷ d) =
      ground (arith, elem-keys-insert k j v d, eq_iff k j, eq_iff i k, eq_iff i j)

  pub insert-IsDistinct :
      (k : String) (v : V) (d : List (String × V))
      → IsDistinct (keys d)
      → IsDistinct (keys (insert k v d))
  insert-IsDistinct k v [] h = ground arith
  insert-IsDistinct k v ((i, w) ∷ d) h =
      ground (arith, insert-IsDistinct k v d h.1, elem-keys-insert k i v d, eq_iff k i, eq_iff i k)
