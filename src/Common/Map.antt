-- ===== src/Common/Map.antt =====
-- Go maps as association lists, and the laws of the operations that the source uses.
use mathlib.Core.Path.{◌≡◌, refl}
use mathlib.Core.Option.{Option, none, some}
use mathlib.Core.List.{List, [], ◌∷◌}
use native.Mathlib.Omega.{arith}
use Prim.Native.Nat.{◌+◌}
use ws_gateway.Common.Tests.{if◌then◌else◌}
use ws_gateway.Common.Lists.{length}
use ws_gateway.Common.Keys.{Eq, ◌=?◌, =?_iff, =?_refl}

module _ {ℓ κ} {K : Type ℓ} {V : Type κ} ⦃e : Eq K⦄ where
  unfoldable pub lookup : K → List (K × V) → Option V
  lookup k [] = none
  lookup k ((j, v) ∷ m) = if j =? k then some v else lookup k m

  unfoldable pub insert : K → V → List (K × V) → List (K × V)
  insert k v [] = (k, v) ∷ []
  insert k v ((j, w) ∷ m) = if j =? k then (k, v) ∷ m else (j, w) ∷ insert k v m

  unfoldable pub delete : K → List (K × V) → List (K × V)
  delete k [] = []
  delete k ((j, w) ∷ m) = if j =? k then delete k m else (j, w) ∷ delete k m

  -- No key stands twice.
  abbrev pub IsMap : List (K × V) → Type κ
  IsMap [] = Unit
  IsMap ((k, v) ∷ m) = (lookup k m ≡ none) × IsMap m

  pub lookup_nil : (k : K) → lookup k [] ≡ none
  unfolding lookup
  lookup_nil k = refl

  pub lookup-insert :
      (k j : K) (v : V) (m : List (K × V))
      → lookup j (insert k v m) ≡ (if k =? j then some v else lookup j m)
  unfolding lookup insert
  lookup-insert k j v [] = refl
  lookup-insert k j v ((i, w) ∷ m) =
      ground (arith, =?_iff k j, =?_iff i k, =?_iff i j, lookup-insert k j v m)

  pub insert-insert :
      (k : K) (v w : V) (m : List (K × V)) → insert k w (insert k v m) ≡ insert k w m
  unfolding insert
  insert-insert k v w [] = ground (arith, =?_refl k)
  insert-insert k v w ((i, u) ∷ m) = ground (arith, =?_refl k, insert-insert k v w m)

  pub lookup-delete :
      (k j : K) (m : List (K × V)) → lookup j (delete k m) ≡ (if k =? j then none else lookup j m)
  unfolding lookup delete
  lookup-delete k j [] = ground arith
  lookup-delete k j ((i, w) ∷ m) =
      ground (arith, =?_iff k j, =?_iff i k, =?_iff i j, lookup-delete k j m)

  pub insert-IsMap : (k : K) (v : V) (m : List (K × V)) → IsMap m → IsMap (insert k v m)
  unfolding lookup insert
  insert-IsMap k v [] h = (refl, tt)
  insert-IsMap k v ((i, w) ∷ m) h =
      ground (arith, =?_iff i k, =?_iff k i, lookup-insert k i v m, insert-IsMap k v m h.1)

  pub delete-IsMap : (k : K) (m : List (K × V)) → IsMap m → IsMap (delete k m)
  unfolding lookup delete
  delete-IsMap k [] h = tt
  delete-IsMap k ((i, w) ∷ m) h =
      ground (arith, =?_iff i k, =?_iff k i, lookup-delete k i m, delete-IsMap k m h.1)

  pub delete_absent : (k : K) (m : List (K × V)) → lookup k m ≡ none → delete k m ≡ m
  unfolding lookup delete
  delete_absent k [] h = refl
  delete_absent k ((i, w) ∷ m) h = ground (arith, delete_absent k m)

  pub length-delete :
      (k : K) (m : List (K × V)) {v : V}
      → IsMap m
      → lookup k m ≡ some v
      → length (delete k m) + 1 ≡ length m
  unfolding lookup delete
  length-delete k [] u h = ground arith
  length-delete k ((i, w) ∷ m) {v} u h =
      ground (arith, =?_iff i k, length-delete k m {v = v} u.1, delete_absent k m)

  pub length-insert_fresh :
      (k : K) (v : V) (m : List (K × V)) → lookup k m ≡ none → length (insert k v m) ≡ length m + 1
  unfolding lookup insert
  length-insert_fresh k v [] h = omega arith
  length-insert_fresh k v ((i, w) ∷ m) h = ground (arith, length-insert_fresh k v m)

  pub length-insert_present :
      (k : K) (v : V) (m : List (K × V)) {w : V}
      → lookup k m ≡ some w
      → length (insert k v m) ≡ length m
  unfolding lookup insert
  length-insert_present k v [] h = ground arith
  length-insert_present k v ((i, x) ∷ m) {w} h = ground (arith, length-insert_present k v m {w = w})

  -- Two maps that answer every lookup alike have the same number of entries.
  pub length_eq_of_lookup :
      (m n : List (K × V))
      → IsMap m
      → IsMap n
      → ((k : K) → lookup k m ≡ lookup k n)
      → length m ≡ length n
  unfolding lookup
  length_eq_of_lookup [] [] u w h = refl
  length_eq_of_lookup [] ((k, v) ∷ n) u w h = ground (arith, h k, =?_iff k k)
  length_eq_of_lookup ((k, v) ∷ m) n u w h =
      let here : lookup k n ≡ some v = ground (arith, h k, =?_iff k k) in
      let same : (j : K) → lookup j m ≡ lookup j (delete k n) =
        λ j. ground (arith, h j, =?_iff k j, lookup-delete k j n) in
      omega (
        arith,
        length-delete k n w here,
        length_eq_of_lookup m (delete k n) u.1 (delete-IsMap k n w) same,
      )
