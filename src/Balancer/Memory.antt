-- ===== src/Balancer/Memory.antt =====
-- pkg/grpc/balancer/capacity/v2/picker_builder.go: what is remembered of a node from one `Build` to
-- the next.
use ws_gateway.Common.{
  ℕ, suc, ◌<◌, ◌≡◌, refl, sym, subst, Bool, true, false, Option, none, some, List, [], ◌∷◌, arith,
  if◌then◌else◌, is_some, Bool-cases, Option-cases, inl, inr,
}
use ws_gateway.Common.Int.{ℤ}
use ws_gateway.Common.Keys.{Text, ◌=?◌, =?_iff, nat_eq, text_eq}
use ws_gateway.Common.Map.{lookup, insert, lookup-insert}
use ws_gateway.Balancer.{
  Address, SubConn, PickerBuilder, attr_as, update_attributes, create_new_sub_conn, remembered,
  build_entry, build,
}

abbrev pub capacity_of : {F : Type 0} → Option (SubConn F) → Option ℤ
capacity_of none = none
capacity_of (some c) = some c.cur_capacity

abbrev pub address_of : {F : Type 0} → Option (SubConn F) → Option Text
address_of none = none
address_of (some c) = some c.address.addr

-- Every ready connection of node `id` has the address `addr`.
abbrev pub agrees : {F : Type 0} → Text → Text → List (ℕ × Address F) → Bool
agrees id addr [] = true
agrees id addr ((handle, a) ∷ rest) =
    if attr_as a.node_id [] =? id
    then (if addr =? a.addr then agrees id addr rest else false)
    else agrees id addr rest

module _ {F : Type 0} (rate : F) where
  -- References are given out in order.
  abbrev pub IsAllocated : PickerBuilder F → Type 0
  IsAllocated b = (j : ℕ) → is_some (lookup j b.heap) ≡ true → j < b.next

  entry_unnamed :
      (handle : ℕ) (a : Address F) (b : PickerBuilder F)
      → (attr_as a.node_id [] =? []) ≡ true
      → build_entry rate (handle, a) b ≡ (b, [])
  unfolding build_entry
  entry_unnamed handle a b h = rw (h, build_entry) refl

  entry_known :
      (handle : ℕ) (a : Address F) (b : PickerBuilder F) (r : ℕ × SubConn F)
      → (attr_as a.node_id [] =? []) ≡ false
      → remembered rate (attr_as a.node_id []) a b ≡ some r
      → build_entry rate (handle, a) b ≡ (
        record b {
          heap = insert r.0 (update_attributes rate a (record r.1 { handle = handle })) b.heap;
        },
        r.0 ∷ [],
      )
  unfolding build_entry
  entry_known handle a b r h e = rw (h, e, build_entry) refl

  entry_new :
      (handle : ℕ) (a : Address F) (b : PickerBuilder F)
      → (attr_as a.node_id [] =? []) ≡ false
      → remembered rate (attr_as a.node_id []) a b ≡ none
      → build_entry rate (handle, a) b ≡ (
        record b {
          heap = insert b.next (create_new_sub_conn rate (attr_as a.node_id []) handle a) b.heap;
          sub_conn_states = insert (attr_as a.node_id []) b.next b.sub_conn_states;
          next = suc b.next;
        },
        b.next ∷ [],
      )
  unfolding build_entry
  entry_new handle a b h e = rw (h, e, build_entry) refl

  remembered-heap :
      (id : Text) (a : Address F) (b : PickerBuilder F) (r : ℕ × SubConn F)
      → remembered rate id a b ≡ some r
      → (lookup r.0 b.heap ≡ some r.1)
        × (r.1.address.addr ≡ a.addr)
        × (lookup id b.sub_conn_states ≡ some r.0)
  unfolding remembered
  remembered-heap id a b r e = ground (arith, =?_iff r.1.address.addr a.addr)

  remembered-some :
      (id ad : Text) (i : ℕ) (a : Address F) (b : PickerBuilder F)
      → lookup id b.sub_conn_states ≡ some i
      → address_of (lookup i b.heap) ≡ some ad
      → (ad =? a.addr) ≡ true
      → is_some (remembered rate id a b) ≡ true
  unfolding remembered
  remembered-some id ad i a b e h u = ground arith

  -- What one entry does to the node `id`, whose state is `i`.
  module _ (id : Text) (i : ℕ) (c : SubConn F) where
    abbrev Kept : PickerBuilder F → Type 0
    Kept b =
        (lookup id b.sub_conn_states ≡ some i)
        × (capacity_of (lookup i b.heap) ≡ some c.cur_capacity)
        × (address_of (lookup i b.heap) ≡ some c.address.addr)
        × IsAllocated b

    entry-Kept :
        (handle : ℕ) (a : Address F) (b : PickerBuilder F)
        → agrees id c.address.addr ((handle, a) ∷ []) ≡ true
        → Kept b
        → Kept (build_entry rate (handle, a) b).0
    unfolding update_attributes
    entry-Kept handle a b g k = elim (Bool-cases (attr_as a.node_id [] =? [])) [
      | inl u ↦ subst (λ p. Kept p.0) (sym (entry_unnamed handle a b u)) k
      | inr u ↦ elim (Option-cases (remembered rate (attr_as a.node_id []) a b)) [
        | inr r ↦
            let old = remembered-heap (attr_as a.node_id []) a b r.0 r.1 in
            let c' : SubConn F = update_attributes rate a (record r.0.1 { handle = handle }) in
            subst (λ p. Kept p.0) (sym (entry_known handle a b r.0 u r.1))
              (
                k.0,
                ground (arith, k.1, old.0, lookup-insert r.0.0 i c' b.heap, =?_iff r.0.0 i),
                ground (arith, k.2, old.0, lookup-insert r.0.0 i c' b.heap, =?_iff r.0.0 i),
                λ j h. ground (
                  arith,
                  k.3 j,
                  k.3 r.0.0,
                  old.0,
                  lookup-insert r.0.0 j c' b.heap,
                  =?_iff r.0.0 j,
                ),
              )
        | inl r ↦
            let other : (attr_as a.node_id [] =? id) ≡ false =
              elim (Bool-cases (attr_as a.node_id [] =? id)) [
                | inr v ↦ v
                | inl v ↦
                    let same : attr_as a.node_id [] ≡ id =
                      ground (arith, =?_iff (attr_as a.node_id []) id) in
                    let there : is_some (remembered rate (attr_as a.node_id []) a b) ≡ true =
                      subst (λ x. is_some (remembered rate x a b) ≡ true) (sym same)
                        (remembered-some id c.address.addr i a b k.0 k.2 (ground arith)) in
                    absurd (ground arith)
              ] in
            let c' : SubConn F = create_new_sub_conn rate (attr_as a.node_id []) handle a in
            subst (λ p. Kept p.0) (sym (entry_new handle a b u r))
              (
                ground (
                  arith,
                  k.0,
                  other,
                  lookup-insert (attr_as a.node_id []) id b.next b.sub_conn_states,
                ),
                ground (arith, k.1, k.3 i, lookup-insert b.next i c' b.heap, =?_iff b.next i),
                ground (arith, k.2, k.3 i, lookup-insert b.next i c' b.heap, =?_iff b.next i),
                λ j h. ground (arith, k.3 j, lookup-insert b.next j c' b.heap, =?_iff b.next j),
              )
      ]
    ]

    build-Kept :
        (es : List (ℕ × Address F)) (b : PickerBuilder F)
        → agrees id c.address.addr es ≡ true
        → Kept b
        → Kept (build rate es b).0
    unfolding build
    build-Kept [] b g k = k
    build-Kept ((handle, a) ∷ es) b g k =
        build-Kept es (build_entry rate (handle, a) b).0 (ground arith)
          (entry-Kept handle a b (ground arith) k)

  -- When the builder, whose references are given out in order, has a state for node `id`, `Build`
  -- keeps the node's capacity, for whatever ready connections it is called with, the node's own
  -- among them or not, as long as those of the node have the address of the state: a lost
  -- connection does not reset the capacity.
  pub build-capacity :
      (es : List (ℕ × Address F)) (b : PickerBuilder F) (id : Text) (i : ℕ) (c : SubConn F)
      → IsAllocated b
      → lookup id b.sub_conn_states ≡ some i
      → lookup i b.heap ≡ some c
      → agrees id c.address.addr es ≡ true
      → (lookup id (build rate es b).0.sub_conn_states ≡ some i)
        × (capacity_of (lookup i (build rate es b).0.heap) ≡ some c.cur_capacity)
  build-capacity es b id i c w e h g =
      let k : Kept id i c (build rate es b).0 =
        build-Kept id i c es b g (e, rw h refl, rw h refl, w) in
      (k.0, k.1)
