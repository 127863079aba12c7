-- ===== src/Registry.antt =====
-- internal/registry/registry.go: a gateway node registers itself in etcd, keeps its lease alive and
-- takes itself out. The etcd client and the JSON codec are parameters; the waits are left out.
pub mod Registering
pub mod Renewal
pub mod Leaving
pub mod Tests
use ws_gateway.Common.{
  ℕ, zero, suc, ◌+◌, ◌≡◌, Bool, true, false, not, ◌&&◌, Option, none, some, List, [], ◌∷◌, ◌++◌,
  if◌then◌else◌, leb,
}
use ws_gateway.Common.Int.{ℤ, pos, leb_ℤ}
use ws_gateway.Common.Keys.{Text, ◌=?◌, text_eq}
use ws_gateway.Errors.{Error, Result, ok, err, marshal_failed, max_retries_exceeded, other}

-- The fields of apiv1.Node that the registry reads or writes.
pub record Node : Type 0 where
  pub id : Text
  pub weight : ℤ
  pub load : ℤ

-- clientv3.Client and encoding/json. A Boolean answer says that the call failed.
pub record Etcd : Type 1 where
  pub World : Type 0
  pub grant : World → Option ℕ × World
  pub put : Text → Text → ℕ → World → Bool × World
  pub revoke : ℕ → World → Bool × World
  -- The values below a key; `none` is an error.
  pub get : Text → World → Option (List Text)
  pub get_prefix : Text → World → Option (List Text)
  pub marshal : Node → Option Text
  pub unmarshal : Text → Option Node
  -- The exponential backoff, whose `retry_limit`-th `Next` says no.
  pub next_retry : ℕ → Bool
  pub retry_limit : ℕ
  pub retry_limit_law : next_retry retry_limit ≡ false

-- "/services/gateway/node/"
abbrev pub gateway_registry_prefix : Text
gateway_registry_prefix =
    47 ∷ 115 ∷ 101 ∷ 114 ∷ 118 ∷ 105 ∷ 99 ∷ 101 ∷ 115 ∷ 47 ∷ 103 ∷ 97 ∷ 116 ∷ 101 ∷ 119 ∷ 97 ∷ 121
    ∷ 47 ∷ 110 ∷ 111 ∷ 100 ∷ 101 ∷ 47 ∷ []

abbrev pub key : Text → Text
key id = gateway_registry_prefix ++ id

module _ (E : Etcd) where
  open E use {World}

  -- The loop of `Register` on fuel, `n` retries done; `none` means that the fuel ran out.
  unfoldable pub register_loop : ℕ → ℕ → Node → Text → World → Option (Result ℕ × World)
  register_loop zero n node bytes w = none
  register_loop (suc fuel) n node bytes w =
      let (granted, w1) = E.grant w in
      elim granted [
        | none ↦ some (err (other ∷ []), w1)
        | some lease ↦
            let p = E.put (key node.id) bytes lease w1 in
            let r = E.revoke lease p.1 in
            let again = register_loop fuel (suc n) node bytes r.1 in
            if p.0
            then (if E.next_retry n
                then again
                else some (err (other ∷ max_retries_exceeded ∷ []), r.1))
            else some (ok lease, p.1)
      ]

  unfoldable pub register : Node → World → Option (Result ℕ × World)
  register node w = elim (E.marshal node) [
    | none ↦ some (err (marshal_failed ∷ other ∷ []), w)
    | some bytes ↦ register_loop (suc E.retry_limit) 0 node bytes w
  ]

  -- `cancelled` is the end of the registry's own context.
  pub record Registry : Type 0 where
    pub cancelled : Bool
    pub world : World

  unfoldable pub deregister : ℕ → Registry → Option Error × Registry
  deregister lease r =
      let (failed, w) = E.revoke lease r.world in
      if failed
      then (some (other ∷ []), record r { world = w })
      else (none, record { cancelled = true; world = w })

  -- A node; `ok none` is `ErrNodeInfoNotExist`.
  unfoldable pub get_node_info : Text → Registry → Result (Option Node)
  get_node_info id r = elim (E.get (key id) r.world) [
    | none ↦ err (other ∷ [])
    | some values ↦ (elim values [
      | [] ↦ ok none
      | v ∷ vs ↦ (elim (E.unmarshal v) [ none ↦ err (other ∷ []) | some node ↦ ok (some node) ])
    ])
  ]

  unfoldable pub update_node_info : ℕ → Node → Registry → Option Error × Registry
  update_node_info lease node r = elim (E.marshal node) [
    | none ↦ (some (marshal_failed ∷ other ∷ []), r)
    | some bytes ↦
        let (failed, w) = E.put (key node.id) bytes lease r.world in
        (if failed then some (other ∷ []) else none, record r { world = w })
  ]

  -- What follows the update of the weight.
  unfoldable pub leave : ℕ → Option Error × Registry → Option Error × Registry
  leave lease (some e, r) = (some e, r)
  leave lease (none, r) = deregister lease r

  unfoldable pub graceful_deregister : ℕ → Text → Registry → Option Error × Registry
  graceful_deregister lease id r = elim (get_node_info id r) [
    | err e ↦ (some e, r)
    | ok found ↦ (elim found [
      | none ↦ (none, r)
      | some node ↦ leave lease (update_node_info lease (record node { weight = pos 0 }) r)
    ])
  ]

  unfoldable pub other_nodes : Text → List Text → List Node
  other_nodes self [] = []
  other_nodes self (v ∷ vs) =
      let rest = other_nodes self vs in
      elim (E.unmarshal v) [
        | none ↦ rest
        | some node ↦ if node.id =? self then rest else node ∷ rest
      ]

  unfoldable pub get_available_nodes : Text → Registry → Result (List Node)
  get_available_nodes self r = elim (E.get_prefix gateway_registry_prefix r.world) [
    | none ↦ err (other ∷ [])
    | some values ↦ ok (other_nodes self values)
  ]

  -- One tick of `StartNodeStateUpdater`; `update` says whether the node is to be stored.
  unfoldable pub on_tick : (Node → Bool × Node) → ℕ → Text → Registry → Registry
  on_tick update lease id r = elim (get_node_info id r) [
    | err e ↦ r
    | ok found ↦ (elim found [
      | none ↦ r
      | some node ↦ if (update node).0 then (update_node_info lease (update node).1 r).1 else r
    ])
  ]

-- What the `select` of `KeepAlive` receives. A closed channel comes with the answer of the restart:
-- whether it succeeded.
pub data Renewed : Type 0 where
  answered nothing_answered done : Renewed
  closed : Bool → Renewed

-- `waiting n`: in the loop with the retry count `n`. What the channel is after a restart that failed is
-- left to the client: what it gives, if anything, are the next events.
pub data KeepAlive : Type 0 where
  waiting : ℕ → KeepAlive
  returned_nil gave_up : KeepAlive

-- The case of the channel that was closed.
unfoldable pub on_closed : ℤ → ℕ → Bool → KeepAlive
on_closed max_retries n restarted =
    if leb_ℤ max_retries (pos n)
    then gave_up
    else if restarted
    then waiting 0
    else if leb_ℤ max_retries (pos (suc n))
    then gave_up
    else waiting 0

unfoldable pub keep_alive_step : ℤ → Renewed → KeepAlive → KeepAlive
keep_alive_step max_retries done (waiting n) = returned_nil
keep_alive_step max_retries answered (waiting n) = waiting 0
keep_alive_step max_retries nothing_answered (waiting n) = waiting n
keep_alive_step max_retries (closed restarted) (waiting n) = on_closed max_retries n restarted
keep_alive_step max_retries e s = s

unfoldable pub keep_alive_run : ℤ → List Renewed → KeepAlive → KeepAlive
keep_alive_run max_retries [] s = s
keep_alive_run max_retries (e ∷ es) s =
    keep_alive_run max_retries es (keep_alive_step max_retries e s)
