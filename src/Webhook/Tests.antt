-- ===== src/Webhook/Tests.antt =====
-- internal/webhook/service.go: the announcement of a second node, consumed by a node with three links.
use ws_gateway.Common.{
  ℕ, min, ◌+◌, Bool, true, false, Option, ◌≡◌, refl, some, List, [], ◌∷◌, arith, length,
}
use ws_gateway.Common.Int.{pos}
use ws_gateway.Common.Keys.{Text, nat_eq, text_eq}
use ws_gateway.Common.SyncMap.{list_map}
use ws_gateway.Errors.{ok}
use ws_gateway.Links.Manager.{Manager, Config}
use ws_gateway.Message.{Message}
use ws_gateway.Rebalance.{ScaleUpEvent, select_random, redirect_links, consume_scale_up_event}
use ws_gateway.Rebalance.Counting.{IsShare}
use ws_gateway.Scaler.Tests.{toy, node}
use ws_gateway.Webhook.{announcement}
use ws_gateway.Webhook.Announcing.{announcement-IsShare}

abbrev event : ScaleUpEvent
event = record { total_node_count = pos 2; new_node_list = node.id ∷ [] }

event-announcement : (announcement toy (node ∷ []) ([], true)).0 ≡ ok event
unfolding announcement
event-announcement = refl

abbrev hang_up : Text → ℕ → Bool × ℕ
hang_up id n = (false, n + 1)

abbrev settings : Config
settings = record {
  read_timeout = pos 3;
  write_timeout = pos 0;
  init_retry_interval = pos 1;
  max_retry_interval = pos 5;
  max_retries = pos 2;
  send_buffer_size = pos 4;
  receive_buffer_size = pos 4;
  user_rate_limit = pos 10;
}

-- A manager that counts three links.
abbrev manager : Manager hang_up (list_map Text ℕ)
manager = record {
  links = (list_map Text ℕ).empty;
  len = pos 3;
  heap = [];
  next = 0;
  config = settings;
  world = 0;
}

abbrev encode_nodes : List Text → Option Text
encode_nodes ns = some (1 ∷ [])

abbrev encode : Message → Option Text
encode m = some m.body

announcement-IsShare_example :
    (c : ℕ) × (consume_scale_up_event hang_up
        (list_map Text ℕ)
        encode_nodes
        encode
        (λ xs. xs)
        (5 ∷ [])
        (pos 0)
        (some event)
        manager
      ≡ redirect_links hang_up
          (list_map Text ℕ)
          encode_nodes
          encode
          (select_random (λ xs. xs) (pos c))
          (node.id ∷ [])
          (pos 0)
          manager)
    × IsShare 3 2 1 c
    × ((links : List ℕ)
        → (chosen : List ℕ) × (select_random (λ xs. xs) (pos c) links ≡ some chosen)
          × (length chosen ≡ min c (length links)))
announcement-IsShare_example =
    announcement-IsShare toy hang_up (list_map Text ℕ) encode_nodes encode (node ∷ []) (node ∷ [])
      ([], true) event (λ xs. xs) (5 ∷ []) (pos 0) manager 3 refl event-announcement refl refl
      (omega arith) (omega arith) (omega arith) (λ xs. refl)
