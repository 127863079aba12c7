-- ===== src/Registry/Leaving.antt =====
-- internal/registry/registry.go: storing a node, leaving, and the list of the other nodes.
use ws_gateway.Common.{
  ℕ, ◌≡◌, ◌⊎◌, inl, inr, refl, sym, ap, ◌∙◌, true, false, Option, none, some, List, [], ◌∷◌, arith,
  Bool-cases, Option-cases, All, get_elem?, zero, suc,
}
use ws_gateway.Common.Int.{pos}
use ws_gateway.Common.Keys.{Text, ◌=?◌, text_eq}
use ws_gateway.Errors.{Error, Result, ok, err}
use ws_gateway.Registry.{
  Node, Etcd, Registry, key, deregister, get_node_info, update_node_info, leave,
  graceful_deregister, other_nodes,
}

module _ (E : Etcd) where
  open E use {World}

  -- When etcd gives back the value that was put last under a key, and a marshalled node is unmarshalled
  -- to itself, a node whose update succeeded is read back as it was stored.
  pub update-get :
      (put-get : (k v : Text) (l : ℕ) (w : World)
        → (E.put k v l w).0 ≡ false
        → E.get k (E.put k v l w).1 ≡ some (v ∷ []))
      (unmarshal-marshal : (n : Node) (v : Text) → E.marshal n ≡ some v → E.unmarshal v ≡ some n)
      (lease : ℕ) (node : Node) (r : Registry E)
      → (update_node_info E lease node r).0 ≡ none
      → get_node_info E node.id (update_node_info E lease node r).1 ≡ ok (some node)
  unfolding update_node_info get_node_info
  update-get put-get unmarshal-marshal lease node r e = elim (Option-cases (E.marshal node)) [
    | inl m ↦ ground arith
    | inr (v, m) ↦
        let stored : (E.put (key node.id) v lease r.world).0 ≡ false = ground arith in
        let there = put-get (key node.id) v lease r.world stored in
        let back = unmarshal-marshal node v m in
        rw (m, there, back, update_node_info, get_node_info) refl
  ]

  leave_lem :
      (lease : ℕ) (p : Option Error × Registry E)
      → (leave E lease p).0 ≡ none
      → (p.0 ≡ none)
        × ((leave E lease p).1.world ≡ (E.revoke lease p.1.world).1)
        × ((leave E lease p).1.cancelled ≡ true)
  unfolding leave deregister
  leave_lem lease (some e, r) h = absurd (ground arith)
  leave_lem lease (none, r) h = elim (Bool-cases (E.revoke lease r.world).0) [
    | inl f ↦ absurd (ground arith)
    | inr f ↦ (refl, rw (f, leave, deregister) refl, rw (f, leave, deregister) refl)
  ]

  info-cases :
      (x : Result (Option Node))
      → ((e : Error) × (x ≡ err e)) ⊎ ((x ≡ ok none) ⊎ ((node : Node) × (x ≡ ok (some node))))
  info-cases (err e) = inl (e, refl)
  info-cases (ok none) = inr (inl refl)
  info-cases (ok (some node)) = inr (inr (node, refl))

  -- When `GracefulDeregister` returns nil, either the node was not in etcd, and nothing was done, not
  -- even the lease revoked; or the node was stored with the weight 0 first, then its lease was revoked
  -- and the registry's context cancelled.
  pub graceful_deregister_lem :
      (lease : ℕ) (id : Text) (r : Registry E)
      → (graceful_deregister E lease id r).0 ≡ none
      → ((get_node_info E id r ≡ ok none) × ((graceful_deregister E lease id r).1 ≡ r))
        ⊎ ((node : Node) × (get_node_info E id r ≡ ok (some node))
            × ((update_node_info E lease (record node { weight = pos 0 }) r).0 ≡ none)
            × ((graceful_deregister E lease id r).1.world
                ≡ (E.revoke lease
                    (update_node_info E lease (record node { weight = pos 0 }) r).1.world).1)
            × ((graceful_deregister E lease id r).1.cancelled ≡ true))
  unfolding graceful_deregister
  graceful_deregister_lem lease id r h = elim (info-cases (get_node_info E id r)) [
    | inl (e, x) ↦ absurd (ground (arith, x))
    | inr (inl x) ↦ inl (x, rw (x, graceful_deregister) refl)
    | inr (inr (node, x)) ↦
        let p : Option Error × Registry E =
          update_node_info E lease (record node { weight = pos 0 }) r in
        let same : graceful_deregister E lease id r ≡ leave E lease p =
          rw (x, graceful_deregister) refl in
        let l = leave_lem lease p (sym (ap (λ q. q.0) same) ∙ h) in
        inr (node, x, l.0, ap (λ q. q.1.world) same ∙ l.1, ap (λ q. q.1.cancelled) same ∙ l.2)
  ]

  -- The list of the other nodes leaves out the node that asks.
  pub other_nodes-All :
      (self : Text) (vs : List Text)
      → All (λ node. (node.id =? self) ≡ false) (other_nodes E self vs)
  unfolding other_nodes
  other_nodes-All self [] = tt
  other_nodes-All self (v ∷ vs) = elim (Option-cases (E.unmarshal v)) [
    | inl e ↦ rw (e, other_nodes) (other_nodes-All self vs)
    | inr (node, e) ↦ elim (Bool-cases (node.id =? self)) [
      | inl same ↦ rw (e, same, other_nodes) (other_nodes-All self vs)
      | inr differs ↦ rw (e, differs, other_nodes) (differs, other_nodes-All self vs)
    ]
  ]

  -- No node that can be read and has another id than the one that asks is left out of the list of
  -- the other nodes.
  pub other_nodes_complete :
      (self : Text) (vs : List Text) (i : ℕ) (v : Text) (node : Node)
      → get_elem? vs i ≡ some v
      → E.unmarshal v ≡ some node
      → (node.id =? self) ≡ false
      → (j : ℕ) × (get_elem? (other_nodes E self vs) j ≡ some node)
  unfolding other_nodes
  other_nodes_complete self [] i v node at e d = absurd (ground (arith, at))
  other_nodes_complete self (v' ∷ vs) zero v node at e d =
      let here : E.unmarshal v' ≡ some node = ground arith in (0, rw (here, d, other_nodes) refl)
  other_nodes_complete self (v' ∷ vs) (suc i) v node at e d =
      let (j, there) = other_nodes_complete self vs i v node at e d in
      elim (Option-cases (E.unmarshal v')) [
        | inl n ↦ (j, rw (n, other_nodes) there)
        | inr (found, s) ↦ elim (Bool-cases (found.id =? self)) [
          | inl same ↦ (j, rw (s, same, other_nodes) there)
          | inr differs ↦ (suc j, rw (s, differs, other_nodes) there)
        ]
      ]
