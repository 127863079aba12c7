-- ===== src/Common/SyncMap.antt =====
-- The concurrent map of github.com/ecodeclub/ekit/syncx, which is not in the repository: its
-- operations and their documented behaviour as an interface, and association lists as one instance.
use ws_gateway.Common.{
  ℕ, ◌+◌, ◌≡◌, refl, Option, none, some, List, [], if◌then◌else◌, arith, length,
}
use ws_gateway.Common.Keys.{Eq, ◌=?◌}
use ws_gateway.Common.Map.{
  lookup, insert, delete, IsMap, lookup_nil, lookup-insert, lookup-delete, insert-IsMap,
  delete-IsMap, length-insert_fresh, length-insert_present, length-delete, length_eq_of_lookup,
}

pub record SyncMap (K V : Type 0) ⦃e : Eq K⦄ : Type 1 where
  pub Store : Type 0
  pub empty : Store
  pub load : K → Store → Option V
  pub store : K → V → Store → Store
  pub remove : K → Store → Store
  -- The entries that `Range` visits.
  pub range : Store → List (K × V)
  pub load-empty : (k : K) → load k empty ≡ none
  pub load-store :
      (k j : K) (v : V) (m : Store) → load j (store k v m) ≡ (if k =? j then some v else load j m)
  pub load-remove :
      (k j : K) (m : Store) → load j (remove k m) ≡ (if k =? j then none else load j m)
  pub lookup-range : (k : K) (m : Store) → lookup k (range m) ≡ load k m
  pub range-IsMap : (m : Store) → IsMap (range m)

module _ {K V : Type 0} ⦃e : Eq K⦄ (S : SyncMap K V) where
  open S use {Store, load, store, remove, range, load-store, load-remove, lookup-range, range-IsMap}

  -- The number of entries.
  abbrev pub size : Store → ℕ
  size m = length (range m)

  pub size-store_fresh :
      (k : K) (v : V) (m : Store) → load k m ≡ none → size (store k v m) ≡ size m + 1
  size-store_fresh k v m h =
      let fresh : lookup k (range m) ≡ none = ground (arith, lookup-range k m) in
      let same : (j : K) → lookup j (range (store k v m)) ≡ lookup j (insert k v (range m)) = λ j.
        ground (
          arith,
          lookup-range j (store k v m),
          lookup-range j m,
          load-store k j v m,
          lookup-insert k j v (range m),
        ) in
      omega (
        arith,
        length-insert_fresh k v (range m) fresh,
        length_eq_of_lookup (range (store k v m)) (insert k v (range m)) (range-IsMap (store k v m))
            (insert-IsMap k v (range m) (range-IsMap m)) same,
      )

  pub size-store_present :
      (k : K) (v : V) (m : Store) {w : V} → load k m ≡ some w → size (store k v m) ≡ size m
  size-store_present k v m {w} h =
      let here : lookup k (range m) ≡ some w = ground (arith, lookup-range k m) in
      let same : (j : K) → lookup j (range (store k v m)) ≡ lookup j (insert k v (range m)) = λ j.
        ground (
          arith,
          lookup-range j (store k v m),
          lookup-range j m,
          load-store k j v m,
          lookup-insert k j v (range m),
        ) in
      omega (
        arith,
        length-insert_present k v (range m) here,
        length_eq_of_lookup (range (store k v m)) (insert k v (range m)) (range-IsMap (store k v m))
            (insert-IsMap k v (range m) (range-IsMap m)) same,
      )

  pub size-remove : (k : K) (m : Store) {w : V} → load k m ≡ some w → size (remove k m) + 1 ≡ size m
  size-remove k m {w} h =
      let here : lookup k (range m) ≡ some w = ground (arith, lookup-range k m) in
      let same : (j : K) → lookup j (range (remove k m)) ≡ lookup j (delete k (range m)) = λ j.
        ground (
          arith,
          lookup-range j (remove k m),
          lookup-range j m,
          load-remove k j m,
          lookup-delete k j (range m),
        ) in
      omega (
        arith,
        length-delete k (range m) (range-IsMap m) here,
        length_eq_of_lookup (range (remove k m)) (delete k (range m)) (range-IsMap (remove k m))
            (delete-IsMap k (range m) (range-IsMap m)) same,
      )

-- Association lists without repeated keys meet the interface.
pub record Entries (K V : Type 0) ⦃e : Eq K⦄ : Type 0 where
  pub entries : List (K × V)
  pub distinct : IsMap entries

module _ (K V : Type 0) ⦃e : Eq K⦄ where
  abbrev pub list_map : SyncMap K V
  list_map = record {
    Store = Entries K V;
    empty = record { entries = []; distinct = tt };
    load = λ k m. lookup k m.entries;
    store = λ k v m. record {
      entries = insert k v m.entries;
      distinct = insert-IsMap k v m.entries m.distinct;
    };
    remove = λ k m. record {
      entries = delete k m.entries;
      distinct = delete-IsMap k m.entries m.distinct;
    };
    range = λ m. m.entries;
    load-empty = lookup_nil;
    load-store = λ k j v m. lookup-insert k j v m.entries;
    load-remove = λ k j m. lookup-delete k j m.entries;
    lookup-range = λ k m. refl;
    range-IsMap = λ m. m.distinct;
  }
