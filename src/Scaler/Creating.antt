-- ===== src/Scaler/Creating.antt =====
-- pkg/scaler/docker.go: the loop of `createNewNodes` while the registry does not change.
use ws_gateway.Common.{
  ℕ, zero, suc, ◌≤◌, ◌≡◌, refl, ap, inl, inr, Bool, true, none, some, List, [], arith,
  if◌then◌else◌, Option-cases, length,
}
use ws_gateway.Common.Int.{ℤ}
use ws_gateway.Common.Keys.{Text}
use ws_gateway.Scaler.{
  Node, Container, Platform, next_id_and_port, get_next_available_node_id_and_port, container_name,
  container_for, node_for, create_and_start_container, create_single_node, create_loop,
}

module _ (P : Platform) where
  open P use {World}

  -- While the registry answers with the same nodes, and Docker refuses a name that a container has.
  pub record IsSteady (taken : Text → World → Bool) (nodes : List Node) : Type 0 where
    pub answers : (w : World) → (P.available_nodes [] w).0 ≡ some nodes
    pub refuses :
        (c : Container) (w : World) → taken c.name w ≡ true → (P.container_create c w).0 ≡ none
    pub takes :
        (c : Container) (w : World) (id : Text)
        → (P.container_create c w).0 ≡ some id
        → taken c.name (P.container_create c w).1 ≡ true
    pub kept_by_registry :
        (name : Text) (w : World)
        → taken name w ≡ true
        → taken name (P.available_nodes [] w).1 ≡ true
    pub kept_by_create :
        (name : Text) (c : Container) (w : World)
        → taken name w ≡ true
        → taken name (P.container_create c w).1 ≡ true
    pub kept_by_start :
        (name id : Text) (w : World)
        → taken name w ≡ true
        → taken name (P.container_start id w).1 ≡ true

  module _ (taken : Text → World → Bool) (nodes : List Node) (steady : IsSteady taken nodes)
      (image ip : Text) where
    abbrev next : ℤ × ℤ
    next = next_id_and_port P nodes

    abbrev pub next_name : Text
    next_name = container_name P next.0

    after_lookup : World → World
    after_lookup w = (P.available_nodes [] w).1

    allocated : (w : World) → get_next_available_node_id_and_port P w ≡ (some next, after_lookup w)
    unfolding get_next_available_node_id_and_port after_lookup
    allocated w = rw (steady.answers w, get_next_available_node_id_and_port)

    single :
        (w : World)
        → create_single_node P image ip w ≡ (
          if (create_and_start_container P (container_for P image ip next) (after_lookup w)).0
              then some (node_for P ip next)
              else none,
          (create_and_start_container P (container_for P image ip next) (after_lookup w)).1,
        )
    unfolding create_single_node
    single w = rw (ap (λ r. r.0) (allocated w), ap (λ r. r.1) (allocated w), create_single_node)

    -- A name that is taken stays so, and nothing is created.
    blocked :
        (w : World)
        → taken next_name w ≡ true
        → ((create_single_node P image ip w).0 ≡ none)
          × (taken next_name (create_single_node P image ip w).1 ≡ true)
    unfolding create_and_start_container after_lookup
    blocked w h =
        let there = steady.kept_by_registry next_name w h in
        let refused = steady.refuses (container_for P image ip next) (after_lookup w) there in
        let still =
          steady.kept_by_create next_name (container_for P image ip next) (after_lookup w) there in
        rw (single w) (rw (refused, create_and_start_container) (refl, still))

    -- A node that is created takes the name.
    created_taken :
        (w : World) (n : Node)
        → (create_single_node P image ip w).0 ≡ some n
        → taken next_name (create_single_node P image ip w).1 ≡ true
    unfolding create_and_start_container after_lookup
    created_taken w n e =
        let c = container_for P image ip next in
        elim (Option-cases (P.container_create c (after_lookup w)).0) [
          | inl none_made ↦
              absurd (ground (arith, rw (single w, none_made, create_and_start_container) at e))
          | inr (id, made) ↦
              let there = steady.takes c (after_lookup w) id made in
              rw (single w) (
                rw (made, create_and_start_container)
                  (steady.kept_by_start next_name id (P.container_create c (after_lookup w)).1
                    there))
        ]

    blocked_loop :
        (n : ℕ) (w : World) → taken next_name w ≡ true → (create_loop P n image ip w).0 ≡ []
    unfolding create_loop
    blocked_loop zero w h = refl
    blocked_loop (suc n) w h =
        let (nothing, still) = blocked w h in
        rw nothing (blocked_loop n (create_single_node P image ip w).1 still)

    -- While the registry answers with the same nodes, as it does until a new container has started up
    -- and registered, and Docker refuses a container name that is in use: however many nodes are
    -- asked for, at most one is created.
    pub at_most_one : (n : ℕ) (w : World) → length (create_loop P n image ip w).0 ≤ 1
    unfolding create_loop
    at_most_one zero w = omega arith
    at_most_one (suc n) w = elim (Option-cases (create_single_node P image ip w).0) [
      | inl nothing ↦ rw nothing (at_most_one n (create_single_node P image ip w).1)
      | inr (made, e) ↦ rw e (
          rw (blocked_loop n (create_single_node P image ip w).1 (created_taken w made e))
            (omega arith))
    ]

    -- Once a container has the name for the next number, as one whose start failed keeps it, `ScaleUp`
    -- creates no node until the registry changes, whatever number of nodes it is asked for.
    pub name_taken :
        (n : ℕ) (w : World) → taken next_name w ≡ true → (create_loop P n image ip w).0 ≡ []
    name_taken n w h = blocked_loop n w h
