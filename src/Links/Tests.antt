-- ===== src/Links/Tests.antt =====
-- internal/link: a manager with association lists, and the theorems at concrete inputs. A connection
-- counts how often one was closed.
use ws_gateway.Common.{
  ℕ, ◌+◌, ◌≡◌, refl, Bool, true, false, none, some, List, [], ◌∷◌, arith, if◌then◌else◌, ltb,
}
use ws_gateway.Common.Int.{pos, ◌+ℤ◌}
use ws_gateway.Common.Keys.{Text, nat_eq, text_eq, int_eq}
use ws_gateway.Common.Map.{lookup, insert, delete}
use ws_gateway.Common.SyncMap.{list_map}
use ws_gateway.Common.Format.{show_int, digits, format_key}
use ws_gateway.Links.{Written, written, timed_out, new, send, close, with_buffer}
use ws_gateway.Links.Loops
use ws_gateway.Links.Loops.{
  idle, reading, got, Pipe, Event, sends, sends_late, picks, offers, receiver_stops, takes, closes,
  writes, reads, send_step, pick, write, close_pipe, send_late, read_round, offer, take_received,
  stop_receiver, leave,
}
use ws_gateway.Links.Ordering.{outgoing, entered, sent_in_order}
use ws_gateway.Links.Receiving.{incoming, arrived, received_in_order}
use ws_gateway.Links.Manager.{
  Manager, Config, UserInfo, generate_link_id, new_link, remove_link, new_links, remove_links, step,
  run, ticks, times_out, begin_graceful_close, graceful_close, push, push_loop, all_links,
  convert_to_link_options, store_link, count_link, close_wait, close_all, find_link_by_user_info,
}
use ws_gateway.Links.Closing.{EndsEmpty, graceful_close_lem}
use ws_gateway.Links.Uncounted.{uncounted_lem}
use ws_gateway.Links.Counting.{len_lem}
use ws_gateway.Links.Retrying.{is_written}

abbrev hang_up : Text → ℕ → Bool × ℕ
hang_up id n = (false, n + 1)

abbrev settings : Config
settings = record {
  read_timeout = pos 3;
  write_timeout = pos 0;
  init_retry_interval = pos 1;
  max_retry_interval = pos 5;
  max_retries = pos 2;
  send_buffer_size = pos 4;
  receive_buffer_size = pos 4;
  user_rate_limit = pos 10;
}

abbrev vacant : Manager hang_up (list_map Text ℕ)
vacant = record {
  links = (list_map Text ℕ).empty;
  len = pos 0;
  heap = [];
  next = 0;
  config = settings;
  world = 0;
}

abbrev alice : UserInfo
alice = record { biz_id = pos 1; user_id = pos 23; auto_close = true }

abbrev bob : UserInfo
bob = record { biz_id = pos 12; user_id = pos 3; auto_close = false }

abbrev with_alice : Manager hang_up (list_map Text ℕ)
with_alice = new_link hang_up (list_map Text ℕ) alice none (pos 0) vacant

-- A user who connects twice and leaves once.
len_lem_example :
    (run hang_up
      (list_map Text ℕ)
      (new_links alice none (pos 0)
        ∷ new_links alice none (pos 1)
        ∷ remove_links (generate_link_id alice)
        ∷ [])
      vacant).len
    ≡ pos 1
unfolding run step new_link remove_link lookup insert delete generate_link_id format_key show_int
    digits ◌+ℤ◌
len_lem_example =
    len_lem hang_up (list_map Text ℕ)
      (new_links alice none (pos 0)
        ∷ new_links alice none (pos 1)
        ∷ remove_links (generate_link_id alice)
        ∷ [])
      0 vacant refl

-- The first two writes time out.
abbrev slow_write : Text → ℕ × ℕ → Written × (ℕ × ℕ)
slow_write p w = if ltb w.0 2 then (timed_out, (w.0 + 1, w.1)) else (written, (w.0 + 1, w.1 + 1))

slow_write-calls : (p : Text) (w : ℕ × ℕ) → (slow_write p w).1.0 ≡ w.0 + 1
slow_write-calls p w = ground arith

slow_write-delivered :
    (p : Text) (w : ℕ × ℕ)
    → (slow_write p w).1.1 ≡ w.1 + (if is_written (slow_write p w).0 then 1 else 0)
slow_write-delivered p w = ground arith

-- The redirecting message is in the buffer of Alice's link.
abbrev pushed : Manager hang_up (list_map Text ℕ)
pushed = record with_alice {
  heap =
      (
        0,
        record (new (generate_link_id alice) (pos 0)
            (convert_to_link_options settings alice none)) { send_ch = (1 ∷ []) ∷ [] },
      )
      ∷ [];
}

begin-with_alice :
    begin_graceful_close hang_up (list_map Text ℕ) (some (1 ∷ [])) with_alice ≡ some pushed
unfolding begin_graceful_close push push_loop all_links send new_link lookup insert new
    generate_link_id format_key show_int digits convert_to_link_options
begin-with_alice = refl

-- Alice's link is still there when the context ends.
graceful_close_lem_example :
    EndsEmpty hang_up
      (list_map Text ℕ)
      (graceful_close hang_up (list_map Text ℕ) (some (1 ∷ [])) (ticks ∷ times_out ∷ []) with_alice)
unfolding new_link lookup insert generate_link_id format_key show_int digits ◌+ℤ◌
graceful_close_lem_example =
    graceful_close_lem hang_up (list_map Text ℕ) (ticks ∷ times_out ∷ []) 0 (some (1 ∷ []))
      with_alice pushed refl begin-with_alice tt tt

-- Bob's link is stored while the manager has no other.
abbrev with_bob : Manager hang_up (list_map Text ℕ)
with_bob = store_link hang_up (list_map Text ℕ) bob none (pos 0) vacant

uncounted_lem_example :
    (close_all hang_up (list_map Text ℕ) with_bob ≡ with_bob)
    × (graceful_close hang_up (list_map Text ℕ) (some (1 ∷ [])) (times_out ∷ []) with_bob
        ≡ some with_bob)
    × (close_wait hang_up (list_map Text ℕ) (ticks ∷ times_out ∷ []) with_bob ≡ some with_bob)
    × (find_link_by_user_info hang_up (list_map Text ℕ) bob with_bob ≡ some 0)
    × (lookup 0 with_bob.heap
        ≡ some (new (generate_link_id bob) (pos 0) (convert_to_link_options settings bob none)))
    × ((count_link hang_up (list_map Text ℕ) with_bob).len ≡ pos 1)
uncounted_lem_example =
    uncounted_lem hang_up (list_map Text ℕ) bob none (pos 0) vacant (some (1 ∷ [])) (times_out ∷ [])
      refl

abbrev busy : Pipe ℕ
busy = record {
  link = new (7 ∷ []) (pos 0) (with_buffer (pos 2) (pos 2) ∷ []);
  sender = idle;
  wire = [];
  receiver = reading;
  receive_ch = [];
  receive_closed = false;
  taken = [];
  world = 0;
}

-- Two sends, a write, a failing write that closes the link, a send that loses the race.
abbrev leaving : List Event
leaving =
    sends (1 ∷ [])
    ∷ picks
    ∷ sends (2 ∷ [])
    ∷ writes true
    ∷ picks
    ∷ writes false
    ∷ sends_late (3 ∷ [])
    ∷ []

sent_in_order_example :
    outgoing (Loops.run hang_up leaving busy) ≡ (1 ∷ []) ∷ (2 ∷ []) ∷ (3 ∷ []) ∷ []
unfolding Loops.run entered Loops.step send_step send new pick write close_pipe close send_late
sent_in_order_example = sent_in_order hang_up leaving busy

-- Two payloads are read, one of them taken, before the link closes.
abbrev reading_on : List Event
reading_on =
    reads (got (4 ∷ [])) ∷ offers ∷ reads (got (5 ∷ [])) ∷ takes ∷ closes ∷ receiver_stops ∷ []

received_in_order_example : incoming (Loops.run hang_up reading_on busy) ≡ (4 ∷ []) ∷ (5 ∷ []) ∷ []
unfolding Loops.run arrived Loops.step new read_round offer take_received close_pipe close
    stop_receiver leave
received_in_order_example = received_in_order hang_up reading_on busy
