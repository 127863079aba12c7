-- ===== src/Server/Tests.antt =====
-- internal/websocket_server.go: a concrete server, and the theorems at concrete inputs. Every
-- connection is one of user 2 of business 1; the world counts the calls of the event handlers.
use ws_gateway.Common.{
  ℕ, ◌+◌, ◌≡◌, refl, true, false, Option, none, some, List, [], ◌∷◌, arith, length,
}
use ws_gateway.Common.Int.{pos, ◌≤ℤ◌}
use ws_gateway.Common.Keys.{Text, text_eq, nat_eq}
use ws_gateway.Common.Map.{lookup, insert, delete}
use ws_gateway.Common.SyncMap.{SyncMap, list_map}
use ws_gateway.Common.Format.{digits, show_int, format_key}
use ws_gateway.Links.{Link, new, close}
use ws_gateway.Links.Manager.{
  UserInfo, Manager, generate_link_id, find_link_by_user_info, new_link, remove_link,
}
use ws_gateway.Limiter
use ws_gateway.Limiter.Capacity
use ws_gateway.Server.{
  Collaborators, Server, Event, accept_loops, accepts, upgrades, connects, ends, serving, step, run,
  new_web_socket_server, accept_loop, accepted, accept_failed, upgrade_step, upgraded, connect_step,
  connected, end_step, finish, with_shared, drop_conn, drop_link, begin_graceful_stop, take_token,
  give_back,
}
use ws_gateway.Server.Bounds.{connections_bounded, new-IsBalanced}
use ws_gateway.Server.Ownership.{Owned, IsOwned}
use ws_gateway.Server.Pushing.{consume_push_message_event, push_refused}
use ws_gateway.Errors.{Error, unknown_receiver}
use ws_gateway.Message.{PushMessage}
use ws_gateway.Server.Registered.{found_handled}

abbrev user : UserInfo
user = record { biz_id = pos 1; user_id = pos 2; auto_close = true }

abbrev toy : Collaborators ℕ
toy = record {
  upgrade = λ i w. (some (user, none), w);
  close_conn = λ i w. w;
  conn_close = λ id w. (false, w);
  on_connect = λ r heap w. (none, heap, w + 1);
  on_frontend_send_message = λ r p heap w. (none, heap, w + 1);
  on_disconnect = λ r heap w. (none, heap, w + 1);
}

abbrev S : SyncMap Text ℕ
S = list_map Text ℕ

abbrev limits : Limiter.Config
limits = record {
  initial_capacity = pos 2;
  max_capacity = pos 3;
  increase_step = pos 1;
  increase_interval = pos 1000;
}

abbrev no_links : Manager toy.conn_close S
no_links = record {
  links = S.empty;
  len = pos 0;
  heap = [];
  next = 0;
  config = record {
    read_timeout = pos 0;
    write_timeout = pos 0;
    init_retry_interval = pos 0;
    max_retry_interval = pos 0;
    max_retries = pos 0;
    send_buffer_size = pos 0;
    receive_buffer_size = pos 0;
    user_rate_limit = pos 0;
  };
  world = 0;
}

abbrev fresh_server : Server toy S
fresh_server = new_web_socket_server toy S (Capacity.filled limits) no_links

limits-IsFit : Capacity.IsFit limits
limits-IsFit = record {
  initial_nonneg = omega arith;
  initial_le_max = omega arith;
  step_pos = omega arith;
  interval_pos = omega arith;
  max_pos = omega arith;
  fits = omega arith;
}

fresh_server-IsOwned : IsOwned toy S fresh_server
unfolding new_web_socket_server lookup
fresh_server-IsOwned id r e = ground arith

-- Two connections of the same user, one after the other, while the token bucket holds two.
abbrev two_connections : List Event
two_connections =
    accept_loops
    ∷ accepts
    ∷ upgrades 0 (pos 5)
    ∷ connects 0
    ∷ accept_loops
    ∷ accepts
    ∷ upgrades 1 (pos 6)
    ∷ connects 1
    ∷ accept_loops
    ∷ accepts
    ∷ []

connections_bounded_example :
    pos (length (run toy S two_connections fresh_server).conns)
    ≤ℤ (run toy S two_connections fresh_server).system.limiter.max_capacity
connections_bounded_example = connections_bounded toy S limits no_links two_connections limits-IsFit

abbrev both : Server toy S
both = run toy S two_connections fresh_server

first_served : lookup 0 both.conns ≡ some (serving (generate_link_id user) 0)
unfolding run step accept_loop accepted accept_failed upgrade_step upgraded connect_step connected
    end_step finish with_shared drop_conn drop_link begin_graceful_stop take_token give_back
    new_web_socket_server new_link remove_link close generate_link_id format_key show_int digits new
    insert delete lookup Limiter.launched Limiter.acquire Limiter.release Limiter.put
first_served = refl

second_served : lookup 1 both.conns ≡ some (serving (generate_link_id user) 1)
unfolding run step accept_loop accepted accept_failed upgrade_step upgraded connect_step connected
    end_step finish with_shared drop_conn drop_link begin_graceful_stop take_token give_back
    new_web_socket_server new_link remove_link close generate_link_id format_key show_int digits new
    insert delete lookup Limiter.launched Limiter.acquire Limiter.release Limiter.put
second_served = refl

second_found : find_link_by_user_info toy.conn_close S user both.link_manager ≡ some 1
unfolding run step accept_loop accepted accept_failed upgrade_step upgraded connect_step connected
    end_step finish with_shared drop_conn drop_link begin_graceful_stop take_token give_back
    new_web_socket_server new_link remove_link close generate_link_id format_key show_int digits new
    insert delete lookup Limiter.launched Limiter.acquire Limiter.release Limiter.put
    find_link_by_user_info
second_found = refl

abbrev on_push : ℕ → PushMessage → List (ℕ × Link) → ℕ → Option Error × List (ℕ × Link) × ℕ
on_push r msg heap w = (none, heap, w + 1)

abbrev message : PushMessage
message = record { biz_id = pos 1; receiver_id = pos 2; key = 1 ∷ []; body = [] }

push_refused_example :
    let t : Server toy S = step toy S (ends 0) both in
    (lookup 1 t.conns ≡ some (serving (generate_link_id user) 1))
    × (consume_push_message_event toy S on_push (some message) t
        ≡ (some (unknown_receiver ∷ []), t))
push_refused_example =
    push_refused toy S on_push 0 1 0 1 user message both first_served second_served
      (λ e. omega (arith, e)) second_found refl refl

found_handled_example : Owned (generate_link_id user, 1) both.conns
found_handled_example =
    found_handled toy S two_connections fresh_server user 1
      (new-IsBalanced toy S limits no_links limits-IsFit) fresh_server-IsOwned second_found
