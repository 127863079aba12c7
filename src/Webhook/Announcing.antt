-- ===== src/Webhook/Announcing.antt =====
-- internal/webhook/service.go with internal/websocket_server.go: the event that a scale-up announces and
-- the node that consumes it.
use ws_gateway.Common.{
  ℕ, suc, ◌+◌, ◌-◌, ◌/◌, ◌≤◌, ◌<◌, ◌≡◌, refl, ap, Bool, false, Option, some, List, [], ◌∷◌, arith,
  length, ◌*◌, min,
}
use ws_gateway.Common.Int.{ℤ, pos, half64}
use ws_gateway.Common.Keys.{Text, int_eq, text_eq}
use ws_gateway.Common.SyncMap.{SyncMap}
use ws_gateway.Errors.{ok}
use ws_gateway.Links.Manager.{Manager}
use ws_gateway.Message.{Message}
use ws_gateway.Scaler.{Node, Platform}
use ws_gateway.Rebalance.{
  ScaleUpEvent, redirect_count, select_random, has_node, redirect_links, consume_scale_up_event,
}
use ws_gateway.Rebalance.Counting.{IsShare, redirect_count_lem, quotient-IsShare, select_random_lem}
use ws_gateway.Webhook.{announcement, node_ids}

length-node_ids : (ns : List Node) → length (node_ids ns) ≡ length ns
length-node_ids [] = refl
length-node_ids (n ∷ ns) = ap suc (length-node_ids ns)

module _ (P : Platform) {W : Type 0} (conn_close : Text → W → Bool × W) (S : SyncMap Text ℕ)
    (marshal_nodes : List Text → Option Text) (marshal : Message → Option Text) where
  consumed :
      (t : ℤ) (ns : List Text) (shuffle : List ℕ → List ℕ) (self : Text) (now : ℤ)
      (m : Manager conn_close S) (c : ℕ)
      → has_node self ns ≡ false
      → redirect_count m.len t (pos (length ns)) ≡ some (pos c)
      → consume_scale_up_event conn_close S marshal_nodes marshal shuffle self now
          (some (record { total_node_count = t; new_node_list = ns }))
          m
        ≡ redirect_links conn_close S marshal_nodes marshal (select_random shuffle (pos c)) ns now m
  unfolding consume_scale_up_event
  consumed t ns shuffle self now m c other count = rw (other, count) refl

  -- A node that is not one of the new ones and consumes the event which a scale-up announces does not
  -- panic, and redirects links by a selector that takes the share of `l`, what its counter of links
  -- shows, that falls to the new nodes, rounded up, or all the links if there are fewer: if the registry
  -- lists, when the event is made, at least as many other nodes as there are new ones, and the products
  -- fit in an int64.
  pub announcement-IsShare :
      (new_nodes available : List Node) (w : P.World) (event : ScaleUpEvent)
      (shuffle : List ℕ → List ℕ) (self : Text) (now : ℤ) (m : Manager conn_close S) (l : ℕ)
      → (P.available_nodes P.current_node_id w).0 ≡ some available
      → (announcement P new_nodes w).0 ≡ ok event
      → has_node self event.new_node_list ≡ false
      → m.len ≡ pos l
      → length new_nodes ≤ length available
      → length available + 1 < half64
      → l * (length available + 1) < half64
      → ((xs : List ℕ) → length (shuffle xs) ≡ length xs)
      → (c : ℕ) × (consume_scale_up_event conn_close S marshal_nodes marshal shuffle self now
            (some event)
            m
          ≡ redirect_links conn_close S marshal_nodes marshal
              (select_random shuffle (pos c))
              event.new_node_list
              now
              m)
        × IsShare l (length available + 1) (length new_nodes) c
        × ((links : List ℕ)
            → (chosen : List ℕ) × (select_random shuffle (pos c) links ≡ some chosen)
              × (length chosen ≡ min c (length links)))
  unfolding announcement
  announcement-IsShare new_nodes available w event shuffle self now m l listed said other counted
        known small fits perm =
      let this : event ≡ record {
        total_node_count = pos (length available + 1);
        new_node_list = node_ids new_nodes;
      } =
        ground (arith, rw (listed, announcement) at said) in
      let total : event.total_node_count ≡ pos (length available + 1) =
        ap (λ (e : ScaleUpEvent). e.total_node_count) this in
      let named : event.new_node_list ≡ node_ids new_nodes =
        ap (λ (e : ScaleUpEvent). e.new_node_list) this in
      let n = length available + 1 in
      let k = length new_nodes in
      let count : redirect_count m.len event.total_node_count (pos (length event.new_node_list))
          ≡ some (pos (l - (l * (n - k)) / n)) =
        rw (total, named, counted, length-node_ids new_nodes)
          (redirect_count_lem l n k (omega arith) (omega arith) small fits) in
      (
        l - (l * (n - k)) / n,
        consumed event.total_node_count event.new_node_list shuffle self now m _ other count,
        quotient-IsShare l n k (omega arith) (omega arith),
        λ links. select_random_lem shuffle links (l - (l * (n - k)) / n) perm,
      )
