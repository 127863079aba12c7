-- ===== src/Balancer/Conns.antt =====
-- pkg/grpc/balancer/capacity/v2/balancer.go: the connections of the balancer. `NewSubConn` gives a new
-- reference or an error, which `can_connect` decides; calls of a connection are recorded in `actions`.
use ws_gateway.Common.{
  ℕ, suc, Bool, true, false, not, ◌&&◌, Option, none, some, List, [], ◌∷◌, ◌++◌, if◌then◌else◌,
  ◌==◌, length,
}
use ws_gateway.Common.Keys.{Text, ◌=?◌, nat_eq, text_eq}
use ws_gateway.Common.Map.{lookup, insert, delete}
use ws_gateway.Balancer.{Address, PickerBuilder, attr_as, build, remove_sub_conn}

-- google.golang.org/grpc/connectivity
pub data Connectivity : Type 0 where
  idle connecting ready transient_failure shutdown : Connectivity

abbrev pub number_of : Connectivity → ℕ
number_of idle = 0
number_of connecting = 1
number_of ready = 2
number_of transient_failure = 3
number_of shutdown = 4

abbrev pub same_state : Connectivity → Connectivity → Bool
same_state a b = number_of a == number_of b

pub data Action : Type 0 where
  connects shuts_down : ℕ → Action

-- The picker that the gRPC core was given: one that always fails, or the connections of a picker.
pub data Picker : Type 0 where
  err_picker : Picker
  capacity_picker : List ℕ → Picker

pub record SubConnInfo (F : Type 0) : Type 0 where
  pub address : Address F
  pub state : Connectivity

pub record CapacityBalancer (F : Type 0) : Type 0 where
  pub sub_conns : List (ℕ × SubConnInfo F)
  pub builder : PickerBuilder F
  pub next_conn : ℕ
  pub actions : List Action
  pub published : Option (Connectivity × Picker)

unfoldable pub should_update_picker : Connectivity → Connectivity → Bool
should_update_picker old new =
    if same_state old new
    then false
    else if same_state old ready && not (same_state new ready)
    then true
    else if not (same_state old ready) && same_state new ready
    then true
    else if same_state new shutdown
    then true
    else false

module _ {F : Type 0} where
  abbrev pub listed : Text → List (Address F) → Bool
  listed addr [] = false
  listed addr (a ∷ rest) = if a.addr =? addr then true else listed addr rest

  unfoldable pub has_addr : Text → List (ℕ × SubConnInfo F) → Bool
  has_addr addr [] = false
  has_addr addr ((h, info) ∷ rest) = if info.address.addr =? addr then true else has_addr addr rest

  -- The ready connections with their addresses.
  unfoldable pub ready_conns : List (ℕ × SubConnInfo F) → List (ℕ × Address F)
  ready_conns [] = []
  ready_conns ((h, info) ∷ rest) =
      if same_state info.state ready then (h, info.address) ∷ ready_conns rest else ready_conns rest

  -- Removal of the connections whose address is not listed any more.
  unfoldable pub drop_one : ℕ → SubConnInfo F → CapacityBalancer F → CapacityBalancer F
  drop_one h info b =
      let id : Text = attr_as info.address.node_id [] in
      record b {
        actions = b.actions ++ shuts_down h ∷ [];
        sub_conns = delete h b.sub_conns;
        builder = if id =? [] then b.builder else remove_sub_conn id b.builder;
      }

  unfoldable pub drop_unlisted :
      List (Address F) → List (ℕ × SubConnInfo F) → CapacityBalancer F → CapacityBalancer F
  drop_unlisted addrs [] b = b
  drop_unlisted addrs ((h, info) ∷ rest) b =
      drop_unlisted addrs rest (if listed info.address.addr addrs then b else drop_one h info b)

  -- A new connection for an address that has none.
  unfoldable pub add_one : Bool → Address F → CapacityBalancer F → CapacityBalancer F
  add_one ok a b =
      if has_addr a.addr b.sub_conns
      then b
      else if ok
      then record b {
        sub_conns = insert b.next_conn (record { address = a; state = idle }) b.sub_conns;
        next_conn = suc b.next_conn;
        actions = b.actions ++ connects b.next_conn ∷ [];
      }
      else b

  unfoldable pub add_missing :
      (Address F → Bool) → List (Address F) → CapacityBalancer F → CapacityBalancer F
  add_missing can_connect [] b = b
  add_missing can_connect (a ∷ rest) b = add_missing can_connect rest (add_one (can_connect a) a b)

  module _ (default_growth_rate : F) where
    abbrev no_conns : List (ℕ × Address F) → Bool
    no_conns [] = true
    no_conns (x ∷ xs) = false

    unfoldable pub update_picker : CapacityBalancer F → CapacityBalancer F
    update_picker b =
        let ready_list = ready_conns b.sub_conns in
        if no_conns ready_list
        then record b { published = some (transient_failure, err_picker) }
        else let (builder, conns) = build default_growth_rate ready_list b.builder in
          record b { builder = builder; published = some (ready, capacity_picker conns) }

    unfoldable pub update_client_conn_state :
        (Address F → Bool) → List (Address F) → CapacityBalancer F → CapacityBalancer F
    update_client_conn_state can_connect addrs b =
        update_picker (add_missing can_connect addrs (drop_unlisted addrs b.sub_conns b))

    -- The switch of `handleSubConnStateChange`, after the state was stored.
    unfoldable pub on_state : ℕ → Connectivity → CapacityBalancer F → CapacityBalancer F
    on_state h transient_failure b = record b { actions = b.actions ++ connects h ∷ [] }
    on_state h shutdown b = record b { sub_conns = delete h b.sub_conns }
    on_state h _ b = b

    unfoldable pub handle_sub_conn_state_change :
        ℕ → Connectivity → CapacityBalancer F → CapacityBalancer F
    handle_sub_conn_state_change h new b = elim (lookup h b.sub_conns) [
      | none ↦ b
      | some info ↦
          let b' : CapacityBalancer F =
            on_state h new
              (record b { sub_conns = insert h (record info { state = new }) b.sub_conns }) in
          if should_update_picker info.state new then update_picker b' else b'
    ]

    unfoldable pub resolver_error : CapacityBalancer F → CapacityBalancer F
    resolver_error b =
        if length b.sub_conns == 0
        then record b { published = some (transient_failure, err_picker) }
        else b

    unfoldable pub shut_all : List (ℕ × SubConnInfo F) → List Action
    shut_all [] = []
    shut_all ((h, info) ∷ rest) = shuts_down h ∷ shut_all rest

    unfoldable pub close : CapacityBalancer F → CapacityBalancer F
    close b = record b { actions = b.actions ++ shut_all b.sub_conns; sub_conns = [] }
