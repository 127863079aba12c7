-- ===== src/Rebalance.antt =====
-- internal/websocket_server.go, internal/link/manager.go and internal/link/random_selector.go: what a
-- node does when new nodes have joined. Some of its links are sent the message that redirects them.
-- The shuffle of math/rand, the codec and the clock are parameters. Logging is left out.
pub mod Counting
use ws_gateway.Common.{
  ℕ, Bool, true, false, ◌||◌, Option, none, some, List, [], ◌∷◌, if◌then◌else◌, take, length,
}
use ws_gateway.Common.Int.{ℤ, pos, negsuc, pos_part, ltb_ℤ, leb_ℤ, sub64, mul64, quot64}
use ws_gateway.Common.Keys.{Text, ◌=?◌, int_eq, text_eq}
use ws_gateway.Common.Format.{show_int}
use ws_gateway.Common.SyncMap.{SyncMap}
use ws_gateway.Errors.{Error, marshal_failed, other}
use ws_gateway.Message.{Message, redirect}
use ws_gateway.Links.Manager.{Manager, push_message}

-- event.ScaleUpEvent; a node is its id.
pub record ScaleUpEvent : Type 0 where
  pub total_node_count : ℤ
  pub new_node_list : List Text

-- `Select` of a `RandomLinksSelector`; `none` is the panic of a negative bound.
unfoldable pub select_random : (List ℕ → List ℕ) → ℤ → List ℕ → Option (List ℕ)
select_random shuffle count links =
    if leb_ℤ (pos (length links)) count
    then some links
    else if ltb_ℤ count (pos 0)
    then none
    else some (take (pos_part count) (shuffle links))

-- `count` in `consumeScaleUpEvent`: m - m * (n - k) / n; `none` is the panic of a division by 0.
unfoldable pub redirect_count : ℤ → ℤ → ℤ → Option ℤ
redirect_count m n k = if n =? pos 0 then none else some (sub64 m (quot64 (mul64 m (sub64 n k)) n))

abbrev pub has_node : Text → List Text → Bool
has_node id [] = false
has_node id (n ∷ ns) = n =? id || has_node id ns

module _ {W : Type 0} (conn_close : Text → W → Bool × W) (S : SyncMap Text ℕ)
    (marshal_nodes : List Text → Option Text) (marshal : Message → Option Text) where
  -- The redirecting message, marshalled.
  abbrev pub redirect_payload : ℤ → Text → Option Text
  redirect_payload now body = marshal (record { cmd = redirect; key = show_int now; body = body })

  -- `none` is a panic, or a `Send` that blocks.
  unfoldable pub redirect_links :
      (List ℕ → Option (List ℕ))
      → List Text
      → ℤ
      → Manager conn_close S
      → Option (Option Error × Manager conn_close S)
  redirect_links select [] now m = some (some (other ∷ []), m)
  redirect_links select (n ∷ ns) now m = elim (marshal_nodes (n ∷ ns)) [
    | none ↦ some (some (marshal_failed ∷ other ∷ []), m)
    | some body ↦ push_message conn_close S select (redirect_payload now body) m
  ]

  -- The event as `json.Unmarshal` gave it.
  unfoldable pub consume_scale_up_event :
      (List ℕ → List ℕ)
      → Text
      → ℤ
      → Option ScaleUpEvent
      → Manager conn_close S
      → Option (Option Error × Manager conn_close S)
  consume_scale_up_event shuffle self now none m = some (some (other ∷ []), m)
  consume_scale_up_event shuffle self now (some msg) m =
      let count = redirect_count m.len msg.total_node_count (pos (length msg.new_node_list)) in
      if has_node self msg.new_node_list then some (none, m) else elim count [
        | none ↦ none
        | some c ↦ redirect_links (select_random shuffle c) msg.new_node_list now m
      ]
