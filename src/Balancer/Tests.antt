-- ===== src/Balancer/Tests.antt =====
-- pkg/grpc/balancer/capacity/v2: two nodes, and the theorems at them. The growth rate is a number of
-- percents.
use ws_gateway.Common.{ℕ, ◌*◌, ◌/◌, ◌≡◌, refl, true, none, some, List, [], ◌∷◌, arith}
use ws_gateway.Common.Int.{ℤ, pos, negsuc}
use ws_gateway.Common.Keys.{Text, =?_iff, nat_eq, text_eq}
use ws_gateway.Common.Map.{lookup}
use ws_gateway.Balancer.{Address, SubConn, PickerBuilder, build, attr_as}
use ws_gateway.Balancer.Conns.{CapacityBalancer, connecting, update_client_conn_state}
use ws_gateway.Balancer.Memory.{capacity_of, IsAllocated, build-capacity}
use ws_gateway.Balancer.Updates.{attributes_kept}

abbrev percent : ℕ → ℤ → ℤ
percent r (pos n) = pos (n * r / 100)
percent r (negsuc n) = negsuc n

abbrev place : Text → Address ℕ
place a = record {
  addr = a;
  node_id = some a;
  init_capacity = none;
  max_capacity = none;
  increase_step = some (pos 5);
  growth_rate = none;
}

abbrev node : Text → ℕ → SubConn ℕ
node a n = record {
  handle = 0;
  address = place a;
  id = a;
  cur_capacity = pos n;
  max_capacity = pos 100;
  increase_step = pos 5;
  growth_rate = 10;
}

abbrev nodes : List (ℕ × SubConn ℕ)
nodes = (0, node (65 ∷ []) 98) ∷ (1, node (66 ∷ []) 10) ∷ []

abbrev memory : PickerBuilder ℕ
memory = record { sub_conn_states = (65 ∷ [], 0) ∷ (66 ∷ [], 1) ∷ []; heap = nodes; next = 2 }

memory-IsAllocated : IsAllocated 10 memory
unfolding lookup
memory-IsAllocated j h = ground (arith, =?_iff 0 j, =?_iff 1 j)

-- The first node is not among the ready ones.
build-capacity_example :
    (lookup (65 ∷ []) (build 10 ((7, place (66 ∷ [])) ∷ []) memory).0.sub_conn_states ≡ some 0)
    × (capacity_of (lookup 0 (build 10 ((7, place (66 ∷ [])) ∷ []) memory).0.heap) ≡ some (pos 98))
unfolding lookup attr_as
build-capacity_example =
    build-capacity 10 ((7, place (66 ∷ [])) ∷ []) memory (65 ∷ []) 0 (node (65 ∷ []) 98)
      memory-IsAllocated refl refl refl

abbrev balancer : CapacityBalancer ℕ
balancer = record {
  sub_conns = (0, record { address = place (65 ∷ []); state = connecting }) ∷ [];
  builder = memory;
  next_conn = 1;
  actions = [];
  published = none;
}

abbrev larger : Address ℕ
larger = record (place (65 ∷ [])) { max_capacity = some (pos 1000) }

-- The resolver gives the node a larger capacity.
attributes_kept_example :
    lookup 0 (update_client_conn_state 10 (λ a. true) (larger ∷ []) balancer).sub_conns
    ≡ some (record { address = place (65 ∷ []); state = connecting })
unfolding lookup
attributes_kept_example =
    attributes_kept 10 (λ a. true) (larger ∷ []) balancer 0
      (record { address = place (65 ∷ []); state = connecting }) (refl, tt) (omega arith) refl refl
