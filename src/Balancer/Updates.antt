-- ===== src/Balancer/Updates.antt =====
-- pkg/grpc/balancer/capacity/v2/balancer.go: what a new list of addresses does to the connections.
use ws_gateway.Common.{
  ℕ, ◌<◌, ◌≡◌, refl, sym, subst, ap, ◌∙◌, Bool, true, false, not, ◌&&◌, ◌||◌, none, some, List, [],
  ◌∷◌, arith, Bool-cases, inl, inr,
}
use ws_gateway.Common.Keys.{◌=?◌, =?_iff, nat_eq, text_eq}
use ws_gateway.Common.Map.{lookup, IsMap, lookup-insert, lookup-delete}
use ws_gateway.Balancer.{Address}
use ws_gateway.Balancer.Conns.{
  Connectivity, idle, ready, shutdown, same_state, SubConnInfo, CapacityBalancer,
  should_update_picker, listed, drop_one, drop_unlisted, add_one, add_missing, update_picker,
  update_client_conn_state,
}

-- The picker is built anew exactly if the connection enters or leaves the state Ready, or enters
-- Shutdown from another state.
pub should_update_picker_lem :
    (old new : Connectivity)
    → should_update_picker old new ≡ (
        (not (same_state old new))
        && ((same_state old ready || same_state new ready) || same_state new shutdown))
unfolding should_update_picker
should_update_picker_lem old new = ground arith

module _ {F : Type 0} where
  drop_one-lookup :
      (k h : ℕ) (info : SubConnInfo F) (b : CapacityBalancer F)
      → (k =? h) ≡ false
      → lookup h (drop_one k info b).sub_conns ≡ lookup h b.sub_conns
  unfolding drop_one
  drop_one-lookup k h info b e = ground (arith, lookup-delete k h b.sub_conns)

  drop_unlisted_absent :
      (addrs : List (Address F)) (es : List (ℕ × SubConnInfo F)) (b : CapacityBalancer F) (h : ℕ)
      → lookup h es ≡ none
      → lookup h (drop_unlisted addrs es b).sub_conns ≡ lookup h b.sub_conns
  unfolding drop_unlisted lookup
  drop_unlisted_absent addrs [] b h e = refl
  drop_unlisted_absent addrs ((k, i) ∷ es) b h e =
      drop_unlisted_absent addrs es _ h (ground arith) ∙ ground (arith, drop_one-lookup k h i b)

  drop_unlisted-lookup :
      (addrs : List (Address F)) (es : List (ℕ × SubConnInfo F)) (b : CapacityBalancer F) (h : ℕ)
      (info : SubConnInfo F)
      → IsMap es
      → lookup h es ≡ some info
      → listed info.address.addr addrs ≡ true
      → lookup h (drop_unlisted addrs es b).sub_conns ≡ lookup h b.sub_conns
  unfolding drop_unlisted lookup
  drop_unlisted-lookup addrs [] b h info w e l = ground arith
  drop_unlisted-lookup addrs ((k, i) ∷ es) b h info w e l = elim (Bool-cases (k =? h)) [
    | inl v ↦
        let same : i ≡ info = ground arith in
        let kept : listed i.address.addr addrs ≡ true =
          subst (λ x. listed x.address.addr addrs ≡ true) (sym same) l in
        let none_left : lookup h es ≡ none = ground (arith, =?_iff k h) in
        drop_unlisted_absent addrs es _ h none_left ∙ rw kept refl
    | inr v ↦
        drop_unlisted-lookup addrs es _ h info w.1 (ground arith) l
        ∙ ground (arith, drop_one-lookup k h i b)
  ]

  drop_unlisted-next :
      (addrs : List (Address F)) (es : List (ℕ × SubConnInfo F)) (b : CapacityBalancer F)
      → (drop_unlisted addrs es b).next_conn ≡ b.next_conn
  unfolding drop_unlisted drop_one
  drop_unlisted-next addrs [] b = refl
  drop_unlisted-next addrs ((k, i) ∷ es) b = drop_unlisted-next addrs es _ ∙ ground arith

  add_one-lookup :
      (ok : Bool) (a : Address F) (b : CapacityBalancer F) (h : ℕ)
      → h < b.next_conn
      → (lookup h (add_one ok a b).sub_conns ≡ lookup h b.sub_conns)
        × (h < (add_one ok a b).next_conn)
  unfolding add_one
  add_one-lookup ok a b h u = ground (
    arith,
    lookup-insert b.next_conn h (record { address = a; state = idle }) b.sub_conns,
    =?_iff b.next_conn h,
  )

  add_missing-lookup :
      (can : Address F → Bool) (addrs : List (Address F)) (b : CapacityBalancer F) (h : ℕ)
      → h < b.next_conn
      → lookup h (add_missing can addrs b).sub_conns ≡ lookup h b.sub_conns
  unfolding add_missing
  add_missing-lookup can [] b h u = refl
  add_missing-lookup can (a ∷ addrs) b h u =
      let one = add_one-lookup (can a) a b h u in
      add_missing-lookup can addrs (add_one (can a) a b) h one.1 ∙ one.0

  update_picker-conns :
      (rate : F) (b : CapacityBalancer F) → (update_picker rate b).sub_conns ≡ b.sub_conns
  unfolding update_picker
  update_picker-conns rate b = ground arith

  -- In a balancer whose connections have different references, given out in order, a connection
  -- whose address is in the new list keeps its entry as it is, the attributes that the resolver
  -- gave at first included.
  pub attributes_kept :
      (rate : F) (can : Address F → Bool) (addrs : List (Address F)) (b : CapacityBalancer F)
      (h : ℕ) (info : SubConnInfo F)
      → IsMap b.sub_conns
      → h < b.next_conn
      → lookup h b.sub_conns ≡ some info
      → listed info.address.addr addrs ≡ true
      → lookup h (update_client_conn_state rate can addrs b).sub_conns ≡ some info
  unfolding update_client_conn_state
  attributes_kept rate can addrs b h info w u e l =
      let dropped : CapacityBalancer F = drop_unlisted addrs b.sub_conns b in
      let later : h < dropped.next_conn =
        omega (arith, u, drop_unlisted-next addrs b.sub_conns b) in
      ap (λ m. lookup h m) (update_picker-conns rate (add_missing can addrs dropped))
      ∙ (add_missing-lookup can addrs dropped h later
          ∙ (drop_unlisted-lookup addrs b.sub_conns b h info w e l ∙ e))
