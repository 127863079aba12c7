-- ===== src/BatchHandler/Tests.antt =====
-- internal/linkevent/batch_handler.go: the gateway of the tests of Handler, a coordinator that has
-- stopped, and the theorem at a concrete input.
use ws_gateway.Common.{ℕ, ◌≡◌, refl, true, some, [], ◌∷◌, is_some, if◌then◌else◌}
use ws_gateway.Common.Int.{ℤ, pos}
use ws_gateway.Common.Keys.{Text, text_eq, int_eq}
use ws_gateway.Common.Map.{lookup}
use ws_gateway.Common.Format.{format_key, show_int, digits}
use ws_gateway.Common.SyncMap.{list_map}
use ws_gateway.Errors.{Result, ok, err, duplicated, cache_failed, other, coordinator_stopped}
use ws_gateway.Message.{upstream_message, Message}
use ws_gateway.Handler.{cache_key, get_message, should_delete_cache_on_error}
use ws_gateway.Handler.Tests.{toy, idle}
use ws_gateway.BatchHandler.{State, on_frontend_send_message}
use ws_gateway.BatchHandler.Answers.{unanswered_refused}

-- A coordinator that has stopped.
abbrev stopped : ℤ → Text → Text → Text → toy.World → Result ℕ × toy.World
stopped biz id key body w = (err (coordinator_stopped ∷ []), w)

abbrev start : State toy (list_map Text ℕ) stopped
start = record { cached = idle.cached; retries = idle.retries; world = idle.world }

-- A payload of an upstream message with key "k" and no body.
abbrev payload : Text
payload = 2 ∷ 107 ∷ []

abbrev message : Message
message = record { cmd = upstream_message; key = 107 ∷ []; body = [] }

payload-message : get_message toy payload ≡ ok message
unfolding get_message
payload-message = refl

message_fresh : (toy.cache.set_nx (cache_key (pos 7) message) start.cached).0 ≡ some true
unfolding format_key show_int digits lookup
message_fresh = refl

unanswered_refused_example :
    let t = (on_frontend_send_message toy (list_map Text ℕ) stopped 1 payload start).1 in
    let r = toy.cache.set_nx (cache_key (pos 7) message) t.cached in
    ((on_frontend_send_message toy (list_map Text ℕ) stopped 1 payload start).0
      ≡ some (coordinator_stopped ∷ []))
    × (on_frontend_send_message toy (list_map Text ℕ) stopped 2 payload t ≡ (
      some (if is_some r.0 then duplicated ∷ [] else cache_failed ∷ other ∷ []),
      record t { cached = r.1 },
    ))
unfolding should_delete_cache_on_error
unanswered_refused_example =
    unanswered_refused toy (list_map Text ℕ) stopped 1 2 payload payload message message start
      (coordinator_stopped ∷ []) payload-message payload-message refl refl refl refl message_fresh
      refl refl
