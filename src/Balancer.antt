-- ===== src/Balancer.antt =====
-- pkg/grpc/balancer/capacity/v2/picker.go and picker_builder.go: choosing a backend node by its
-- capacity. A `*subConn` is a reference into a heap that the builder and its pickers share. `F` stands
-- for float64, and `scale` for `int64(float64(c) * rate)`.
pub mod Conns
pub mod Picking
pub mod Memory
pub mod Updates
pub mod Tests
use ws_gateway.Common.{
  ℕ, zero, suc, ◌+◌, ◌*◌, ◌%◌, Bool, true, false, not, ◌&&◌, Option, none, some, List, [], ◌∷◌,
  ◌++◌, if◌then◌else◌, is_some, ◌==◌, length, get_elem?,
}
use ws_gateway.Common.Int.{ℤ, pos, negsuc, add64, ltb_ℤ, leb_ℤ, eqb_ℤ}
use ws_gateway.Common.Keys.{Text, ◌=?◌, nat_eq, text_eq}
use ws_gateway.Common.Map.{lookup, insert, delete}

-- resolver.Address with the attributes that are read; `none` is a missing one or one of another type.
pub record Address (F : Type 0) : Type 0 where
  pub addr : Text
  pub node_id : Option Text
  pub init_capacity : Option ℤ
  pub max_capacity : Option ℤ
  pub increase_step : Option ℤ
  pub growth_rate : Option F

unfoldable pub attr_as : {A : Type 0} → Option A → A → A
attr_as none def = def
attr_as (some v) def = v

pub record SubConn (F : Type 0) : Type 0 where
  -- The gRPC connection that is wrapped.
  pub handle : ℕ
  pub address : Address F
  pub id : Text
  pub cur_capacity : ℤ
  pub max_capacity : ℤ
  pub increase_step : ℤ
  pub growth_rate : F

pub record PickerBuilder (F : Type 0) : Type 0 where
  pub sub_conn_states : List (Text × ℕ)
  pub heap : List (ℕ × SubConn F)
  pub next : ℕ

abbrev pub max_ℤ : ℤ → ℤ → ℤ
max_ℤ a b = if ltb_ℤ a b then b else a

abbrev pub min_ℤ : ℤ → ℤ → ℤ
min_ℤ a b = if ltb_ℤ b a then b else a

-- The connection that `p.conns[int(idx%p.length)]` gives; `none` is a panic.
unfoldable pub conn_at : ℤ → List ℕ → Option ℕ
conn_at (pos n) conns = get_elem? conns (n % length conns)
conn_at (negsuc n) conns = if (n + 1) % length conns == 0 then get_elem? conns 0 else none

-- What `Pick` does after its loop.
unfoldable pub fall_back : List ℕ → Option ℕ × ℤ → Option (ℕ × ℤ)
fall_back conns (some i, index) = some (i, index)
fall_back conns (none, index) =
    let index' : ℤ = add64 index (pos 1) in
    elim (conn_at index' conns) [ none ↦ none | some i ↦ some (i, index') ]

-- `rand.Int`, which panics for a bound that is not above 0; `draw` is the random number below a bound,
-- or its error.
abbrev pub rand_int : (ℤ → Option ℤ) → ℤ → Option (Option ℤ)
rand_int draw bound = if ltb_ℤ (pos 0) bound then some (draw bound) else none

abbrev pub drawn : ℤ → Option (Option ℤ) → Option Bool
drawn cur none = none
drawn cur (some none) = some false
drawn cur (some (some r)) = some (ltb_ℤ r cur)

module _ {F : Type 0} where
  -- Whether a node is taken in its turn; `none` is a panic.
  unfoldable pub taken : (ℤ → Option ℤ) → SubConn F → Option Bool
  taken draw c =
      if eqb_ℤ c.cur_capacity c.max_capacity
      then some true
      else if ltb_ℤ (pos 0) c.max_capacity
      then drawn c.cur_capacity (rand_int draw c.max_capacity)
      else some false

  -- The loop of `Pick`, with the attempts that are left; `draw` gives the n-th random number below a
  -- bound. The result has the selected connection, if any, and the index; `none` is a panic.
  unfoldable pub pick_loop :
      (ℕ → ℤ → Option ℤ) → List (ℕ × SubConn F) → List ℕ → ℕ → ℤ → Option (Option ℕ × ℤ)
  pick_loop draw heap conns zero index = some (none, index)
  pick_loop draw heap conns (suc left) index =
      let index' : ℤ = add64 index (pos 1) in
      let rest = pick_loop draw heap conns left index' in
      elim (conn_at index' conns) [
        | none ↦ none
        | some i ↦ (elim (lookup i heap) [
          | none ↦ none
          | some c ↦ (elim (taken (draw left) c) [
            | none ↦ none
            | some t ↦ if t then some (some i, index') else rest
          ])
        ])
      ]

  -- `some none` is `ErrNoSubConnAvailable`, `none` a panic.
  unfoldable pub pick :
      (ℕ → ℤ → Option ℤ) → List (ℕ × SubConn F) → List ℕ → ℤ → Option (Option (ℕ × ℤ))
  pick draw heap conns index =
      if length conns == 0
      then some none
      else (elim (pick_loop draw heap conns (length conns * 2) index) [
        | none ↦ none
        | some r ↦ (elim (fall_back conns r) [ none ↦ none | some c ↦ some (some c) ])
      ])

  module _ (scale : F → ℤ → ℤ) where
    unfoldable pub growth : SubConn F → ℤ
    growth c = max_ℤ c.increase_step (scale c.growth_rate c.cur_capacity)

    -- A round of `increaseCapacity` whose compare-and-swap succeeds.
    unfoldable pub increase_capacity : SubConn F → SubConn F
    increase_capacity c =
        if leb_ℤ c.max_capacity c.cur_capacity
        then c
        else record c { cur_capacity = min_ℤ (add64 c.cur_capacity (growth c)) c.max_capacity }

    -- `Done` of a pick; the Boolean is that the call failed.
    unfoldable pub done : Bool → ℕ → List (ℕ × SubConn F) → List (ℕ × SubConn F)
    done failed i heap = elim (lookup i heap) [
      | none ↦ heap
      | some c ↦ if failed then heap else insert i (increase_capacity c) heap
    ]

  module _ (default_growth_rate : F) where
    unfoldable pub update_attributes : Address F → SubConn F → SubConn F
    update_attributes a c = record c {
      increase_step = attr_as a.increase_step (pos 0);
      growth_rate = attr_as a.growth_rate default_growth_rate;
      max_capacity = attr_as a.max_capacity (pos 100);
    }

    unfoldable pub create_new_sub_conn : Text → ℕ → Address F → SubConn F
    create_new_sub_conn id handle a = record {
      handle = handle;
      address = a;
      id = id;
      cur_capacity = attr_as a.init_capacity (pos 10);
      max_capacity = attr_as a.max_capacity (pos 100);
      increase_step = attr_as a.increase_step (pos 0);
      growth_rate = attr_as a.growth_rate default_growth_rate;
    }

    -- The state that is remembered of a node, if its address is the same.
    unfoldable pub remembered : Text → Address F → PickerBuilder F → Option (ℕ × SubConn F)
    remembered id a b = elim (lookup id b.sub_conn_states) [
      | none ↦ none
      | some i ↦ (elim (lookup i b.heap) [
        | none ↦ none
        | some c ↦ if c.address.addr =? a.addr then some (i, c) else none
      ])
    ]

    -- The body of the loop of `Build`, and the connection that it appends.
    unfoldable pub build_entry : ℕ × Address F → PickerBuilder F → PickerBuilder F × List ℕ
    build_entry (handle, a) b =
        let id : Text = attr_as a.node_id [] in
        if id =? [] then (b, []) else (elim (remembered id a b) [
          | some (i, c) ↦ (
            record b {
              heap = insert i (update_attributes a (record c { handle = handle })) b.heap;
            },
            i ∷ [],
          )
          | none ↦ (
            record b {
              heap = insert b.next (create_new_sub_conn id handle a) b.heap;
              sub_conn_states = insert id b.next b.sub_conn_states;
              next = suc b.next;
            },
            b.next ∷ [],
          )
        ])

    -- `Build` on the ready connections in the order in which the map yields them.
    unfoldable pub build : List (ℕ × Address F) → PickerBuilder F → PickerBuilder F × List ℕ
    build [] b = (b, [])
    build (e ∷ es) b =
        let (b', here) = build_entry e b in let (b'', rest) = build es b' in (b'', here ++ rest)

  unfoldable pub remove_sub_conn : Text → PickerBuilder F → PickerBuilder F
  remove_sub_conn id b = record b { sub_conn_states = delete id b.sub_conn_states }
