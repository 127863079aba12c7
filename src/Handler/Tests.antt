-- ===== src/Handler/Tests.antt =====
-- internal/linkevent/handler.go: a concrete gateway, runs of the handler, and the theorems at
-- concrete inputs. A payload is a command, a key of one byte and a body; encrypting puts a byte in
-- front; the world is the payloads that were sent and the number of backend calls.
use ws_gateway.Common.{
  ℕ, ◌+◌, ◌≡◌, refl, sym, ap, Bool, true, false, Option, none, some, List, [], ◌∷◌, ◌++◌, arith,
  if◌then◌else◌, is_some, ◌==◌, ltb,
}
use ws_gateway.Common.Int.{ℤ, pos}
use ws_gateway.Common.Keys.{Text, ◌=?◌, =?_iff, nat_eq, text_eq, int_eq}
use ws_gateway.Common.Map.{lookup, insert, delete, lookup-insert, lookup-delete}
use ws_gateway.Common.SyncMap.{list_map}
use ws_gateway.Errors.{Error, Result, ok, err, duplicated, other, unknown_biz}
use ws_gateway.Message.{
  Command, heartbeat, upstream_message, upstream_ack, downstream_message, downstream_ack, unknown,
  Message, PushMessage, Cache, Gateway,
}
use ws_gateway.PushRetry.{new_manager}
use ws_gateway.PushRetry.History.{new_manager-IsWellFormed}
use ws_gateway.Handler.{
  State, push, get_message, forward_loop, cache_key, on_frontend_send_message, on_message,
  cache_message, get_backend_service_client, forward_by, forward_to_business_backend, push_new,
  send_upstream_message_ack, acknowledge, handle_on_upstream_message_cmd, dispatch, after_handler,
  finish, handle_message, on_backend_push_message, link_api,
}
use ws_gateway.Handler.Idempotence.{Fits, on_message-has, processed_once}
use ws_gateway.Handler.Downstream.{acknowledged, retransmission_sealed_twice}

abbrev Seen : Type 0
Seen = List (Text × Bool)

abbrev seen_set_nx : Text → Seen → Option Bool × Seen
seen_set_nx k s = if is_some (lookup k s) then (some false, s) else (some true, insert k true s)

pub seen_set_nx-has :
    (k j : Text) (s : Seen)
    → is_some (lookup j (seen_set_nx k s).1) ≡ (elim (seen_set_nx k s).0 [
      | none ↦ is_some (lookup j s)
      | some b ↦ if k =? j then true else is_some (lookup j s)
    ])
seen_set_nx-has k j s = ground (arith, lookup-insert k j true s, =?_iff k j)

pub seen_set_nx-new :
    (k : Text) (s : Seen) (b : Bool)
    → (seen_set_nx k s).0 ≡ some b
    → is_some (lookup k s) ≡ (if b then false else true)
seen_set_nx-new k s b e = ground arith

pub seen_delete-has :
    (k j : Text) (s : Seen)
    → is_some (lookup j (delete k s)) ≡ (if k =? j then false else is_some (lookup j s))
seen_delete-has k j s = ground (arith, lookup-delete k j s)

abbrev seen_cache : Cache
seen_cache = record {
  Store = Seen;
  has = λ k s. is_some (lookup k s);
  set_nx = seen_set_nx;
  delete = λ k s. (false, delete k s);
  set_nx-has = seen_set_nx-has;
  set_nx-new = seen_set_nx-new;
  delete-has = λ k j s e. seen_delete-has k j s;
}

abbrev command_of : ℕ → Command
command_of n =
    if n == 1
    then heartbeat
    else if n == 2
    then upstream_message
    else if n == 5
    then downstream_ack
    else unknown n

abbrev number_of : Command → ℕ
number_of heartbeat = 1
number_of upstream_message = 2
number_of upstream_ack = 3
number_of downstream_message = 4
number_of _ = 9

abbrev read : Text → Option Message
read (c ∷ k ∷ body) = some (record { cmd = command_of c; key = k ∷ []; body = body })
read _ = none

abbrev open_box : Text → Option Text
open_box [] = some []
open_box (c ∷ b) = some b

-- The backend fails on its first call only; business 7 alone has a client.
abbrev pub toy : Gateway
toy = record {
  Link = ℕ;
  Client = ℕ;
  Response = ℕ;
  World = List Text × ℕ;
  link_id = λ l. l ∷ [];
  biz_of = λ l. pos 7;
  unmarshal = read;
  marshal = λ m. some (number_of m.cmd ∷ m.key ++ m.body);
  marshal_response = λ r. some (r ∷ []);
  encrypt = λ b w. (some (200 ∷ b), w);
  decrypt = open_box;
  send = λ l p w. (none, (p ∷ w.0, w.1));
  update_active_time = λ l w. w;
  close_link = λ l w. (none, w);
  on_receive = λ c k b w. (if w.1 == 0 then none else some 33, (w.0, w.1 + 1));
  cache = seen_cache;
  clients = list_map ℤ ℕ;
  load_clients = λ w. ((list_map ℤ ℕ).store (pos 7) 1 (list_map ℤ ℕ).empty, w);
  next_retry = λ n. ltb n 3;
  retry_limit = 3;
  retry_limit_law = refl;
}

abbrev pub idle : State toy (list_map Text ℕ)
idle = record {
  cached = [];
  biz_to_client = (list_map ℤ ℕ).empty;
  retries = new_manager (list_map Text ℕ) (link_api toy) (pos 3);
  world = ([], 0);
}

-- An upstream message with key 65 and the body 9, encrypted.
abbrev upstream : Text
upstream = 2 ∷ 65 ∷ 200 ∷ 9 ∷ []

abbrev answer : Option Error × State toy (list_map Text ℕ)
answer = on_frontend_send_message toy (list_map Text ℕ) 1 upstream idle

-- The backend is called twice and the acknowledgement carries the key and the response.
upstream_run : (answer.0 ≡ none) × (answer.1.world ≡ ((3 ∷ 65 ∷ 200 ∷ 33 ∷ []) ∷ [], 2))
unfolding on_frontend_send_message get_message on_message cache_message handle_message finish
    dispatch handle_on_upstream_message_cmd forward_to_business_backend get_backend_service_client
    forward_by forward_loop acknowledge send_upstream_message_ack push_new push after_handler lookup
    insert
upstream_run = (refl, refl)

abbrev upstream_msg : Message
upstream_msg = record { cmd = upstream_message; key = 65 ∷ []; body = 9 ∷ [] }

-- No business has a client.
abbrev deaf : Gateway
deaf = record toy { load_clients = λ w. ((list_map ℤ ℕ).empty, w) }

abbrev deaf_idle : State deaf (list_map Text ℕ)
deaf_idle = record {
  cached = [];
  biz_to_client = (list_map ℤ ℕ).empty;
  retries = new_manager (list_map Text ℕ) (link_api deaf) (pos 3);
  world = ([], 0);
}

abbrev unknown_run : Option Error × State deaf (list_map Text ℕ)
unknown_run = on_message deaf (list_map Text ℕ) 1 upstream_msg deaf_idle

unknown_refused : unknown_run.0 ≡ some (unknown_biz ∷ [])
unfolding on_message cache_message handle_message finish dispatch handle_on_upstream_message_cmd
    forward_to_business_backend get_backend_service_client forward_by acknowledge after_handler
    lookup ws_gateway.Handler.should_delete_cache_on_error
unknown_refused = refl

-- The business is unknown, so that the key is free again.
on_message-has_example :
    Fits false (seen_cache.has (cache_key (pos 7) upstream_msg) unknown_run.1.cached) unknown_run.0
unfolding lookup
on_message-has_example = on_message-has deaf (list_map Text ℕ) 1 upstream_msg deaf_idle refl refl

-- The same key from another link of the business.
processed_once_example :
    (on_frontend_send_message toy (list_map Text ℕ) 2 upstream answer.1).0
    ≡ some (
        if is_some (seen_set_nx (cache_key (pos 7) upstream_msg) answer.1.cached).0
        then duplicated ∷ []
        else ws_gateway.Errors.cache_failed ∷ other ∷ [])
unfolding get_message
processed_once_example =
    ap (λ r. r.0)
      (processed_once toy (list_map Text ℕ) 1 2 upstream upstream upstream_msg upstream_msg idle
        refl refl refl refl refl refl upstream_run.0)

abbrev downstream_push : PushMessage
downstream_push = record { biz_id = pos 7; receiver_id = pos 5; key = 66 ∷ []; body = 8 ∷ [] }

abbrev waiting : State toy (list_map Text ℕ)
waiting = (on_backend_push_message toy (list_map Text ℕ) 1 downstream_push idle).1

boxed :
    (b e : Text) (v : List Text × ℕ)
    → ◌≡◌ {A = Option Text} (some (200 ∷ b)) (some e)
    → open_box e ≡ some b
boxed b e v h = sym (ap open_it h)
  where
    open_it : Option Text → Option Text
    open_it none = some b
    open_it (some e) = open_box e

retransmission_sealed_twice_example : open_box (200 ∷ 200 ∷ 8 ∷ []) ≡ some (200 ∷ 8 ∷ [])
unfolding new_manager lookup
retransmission_sealed_twice_example =
    (retransmission_sealed_twice toy (list_map Text ℕ) 1 downstream_push idle (200 ∷ 8 ∷ [])
      (200 ∷ 200 ∷ 8 ∷ []) ([], 0) boxed
      (new_manager-IsWellFormed (list_map Text ℕ) (link_api toy) (pos 3)) refl refl refl
      (omega arith) refl refl).2

abbrev ack_msg : Message
ack_msg = record { cmd = downstream_ack; key = 66 ∷ []; body = [] }

acknowledged_example : (on_message toy (list_map Text ℕ) 1 ack_msg waiting).0 ≡ none
unfolding on_backend_push_message lookup
acknowledged_example = (acknowledged toy (list_map Text ℕ) 1 ack_msg waiting refl refl).0
