-- ===== src/Webhook.antt =====
-- internal/webhook/service.go and internal/webhook/handler.go: an alert makes the node give links away,
-- or start a new node and announce it. The scaler is the one of Scaler, the link manager the one of
-- Links.Manager and Rebalance; the producer of events is a parameter, as is the percentage's float
-- arithmetic. Logging is left out.
pub mod Announcing
pub mod Tests
use ws_gateway.Common.{
  ℕ, suc, ◌+◌, Bool, true, false, ◌||◌, Option, none, some, List, [], ◌∷◌, if◌then◌else◌, length,
}
use ws_gateway.Common.Int.{ℤ, pos}
use ws_gateway.Common.Keys.{Text, ◌=?◌, text_eq}
use ws_gateway.Common.SyncMap.{SyncMap}
use ws_gateway.Errors.{Error, Result, ok, err, other}
use ws_gateway.Message.{Message}
use ws_gateway.Links.Manager.{Manager}
use ws_gateway.Scaler.{Node, Wake, Platform, scale_up}
use ws_gateway.Rebalance.{ScaleUpEvent, select_random, redirect_links}

abbrev pub node_ids : List Node → List Text
node_ids [] = []
node_ids (n ∷ ns) = n.id ∷ node_ids ns

-- "DatasourceNoData"
abbrev no_data : Text
no_data = 68 ∷ 97 ∷ 116 ∷ 97 ∷ 115 ∷ 111 ∷ 117 ∷ 114 ∷ 99 ∷ 101 ∷ 78 ∷ 111 ∷ 68 ∷ 97 ∷ 116 ∷ 97 ∷ []

-- By the names of a payload's alerts.
unfoldable pub is_datasource_no_data_alert : List Text → Bool
is_datasource_no_data_alert [] = false
is_datasource_no_data_alert (name ∷ names) = name =? no_data || is_datasource_no_data_alert names

-- `Select` of a `PercentLinksSelector`, `share` of whose number of links is its float product.
unfoldable pub select_percent : (List ℕ → List ℕ) → (ℕ → ℤ) → List ℕ → Option (List ℕ)
select_percent shuffle share links = select_random shuffle (share (length links)) links

module _ (P : Platform) where
  open P use {World}

  -- What `ScaleUp` announces once new nodes are registered: an event, or the registry's error.
  unfoldable pub announcement : List Node → World → Result ScaleUpEvent × World
  announcement new_nodes w = elim (P.available_nodes P.current_node_id w).0 [
    | none ↦ (err (other ∷ []), (P.available_nodes P.current_node_id w).1)
    | some available ↦ (
      ok (record {
        total_node_count = pos (length available + 1);
        new_node_list = node_ids new_nodes;
      }),
      (P.available_nodes P.current_node_id w).1,
    )
  ]

  module _ (produce : ScaleUpEvent → World → Option Error × World) where
    unfoldable pub announce : Result ScaleUpEvent × World → Option Error × World
    announce (err e, w) = (some e, w)
    announce (ok event, w) = produce event w

    -- What follows the scaler's answer; no new node is no error.
    unfoldable pub after_scaling : Result (List Node) × World → Option Error × World
    after_scaling (err e, w) = (some e, w)
    after_scaling (ok [], w) = (none, w)
    after_scaling (ok (n ∷ ns), w) = announce (announcement (n ∷ ns) w)

    -- `Service.ScaleUp` asks for one node; `none` is still waiting for it.
    unfoldable pub service_scale_up : List Wake → World → Option (Option Error × World)
    service_scale_up ws w = elim (scale_up P 1 ws w) [
      | none ↦ none
      | some r ↦ some (after_scaling r)
    ]

    -- `Handler.ScaleUp`, by the names of the alerts.
    unfoldable pub handle_scale_up : List Text → List Wake → World → Option (Option Error × World)
    handle_scale_up names ws w =
        if is_datasource_no_data_alert names then some (none, w) else service_scale_up ws w

  module _ {V : Type 0} (conn_close : Text → V → Bool × V) (S : SyncMap Text ℕ)
      (marshal_nodes : List Text → Option Text) (marshal : Message → Option Text) where
    -- `Service.Rebalance` with the nodes that the registry gave; `none` as in `redirect_links`.
    unfoldable pub rebalance :
        (List ℕ → Option (List ℕ))
        → Option (List Node)
        → ℤ
        → Manager conn_close S
        → Option (Option Error × Manager conn_close S)
    rebalance select none now m = some (some (other ∷ []), m)
    rebalance select (some available) now m =
        redirect_links conn_close S marshal_nodes marshal select (node_ids available) now m
