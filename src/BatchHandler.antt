-- ===== src/BatchHandler.antt =====
-- internal/linkevent/batch_handler.go: the handler that gives the messages of a link to a coordinator
-- of batches. The methods `push`, `getMessage`, `cacheKey`, `retryKey` and `shouldDeleteCacheOnError`
-- have the same text as in internal/linkevent/handler.go and are those of Handler.
-- `receive` is `Coordinator.OnReceive`: the answer for a business, a link and a request.
pub mod Answers
pub mod Tests
use ws_gateway.Common.{
  ℕ, zero, suc, ◌+◌, ◌≡◌, Bool, true, false, not, ◌&&◌, ◌||◌, Option, none, some, List, [], ◌∷◌,
  ◌++◌, if◌then◌else◌, is_some,
}
use ws_gateway.Common.Int.{ℤ, pos}
use ws_gateway.Common.Keys.{Text, ◌=?◌, text_eq, int_eq}
use ws_gateway.Common.SyncMap.{SyncMap}
use ws_gateway.Errors.{
  Error, Result, ok, err, unknown_command, duplicated, cache_failed, delete_cache_failed,
  marshal_failed, unknown_backend_format, other,
}
use ws_gateway.Message.{
  Command, heartbeat, upstream_message, upstream_ack, downstream_message, downstream_ack, Message,
  PushMessage, is_heartbeat, Gateway,
}
use ws_gateway.PushRetry.{Manager, stop, stop_by_link_id, start}
use ws_gateway.Handler.{
  cache_key, retry_key, should_delete_cache_on_error, push, link_api, get_message,
}

module _ (G : Gateway) where
  open G use {Link, Response, World, biz_of, marshal_response}

  module _ (S : SyncMap Text ℕ)
      (receive : ℤ → Text → Text → Text → World → Result Response × World) where
    pub record State : Type 0 where
      pub cached : G.cache.Store
      pub retries : Manager S (link_api G)
      pub world : World

    -- The answer of `cacheMessage`: `none` is an error.
    unfoldable pub cache_message : ℤ → Message → State → Option Bool × State
    cache_message biz msg s =
        if is_heartbeat msg.cmd
        then (some true, s)
        else let (r, c) = G.cache.set_nx (cache_key biz msg) s.cached in
          (r, record s { cached = c })

    unfoldable pub delete_cache_message : ℤ → Message → State → Option Error × State
    delete_cache_message biz msg s =
        if is_heartbeat msg.cmd
        then (none, s)
        else let (failed, c) = G.cache.delete (cache_key biz msg) s.cached in
          (
            if failed then some (delete_cache_failed ∷ other ∷ []) else none,
            record s { cached = c },
          )

    -- `push` on a message that nobody else holds.
    unfoldable pub push_new : Link → Message → State → Option Error × State
    push_new lk msg s = ((push G lk msg s.world).0, record s { world = (push G lk msg s.world).2 })

    unfoldable pub send_upstream_message_ack : Link → Text → Response → State → Option Error × State
    send_upstream_message_ack lk key resp s = elim (marshal_response resp) [
      | none ↦ (some (marshal_failed ∷ other ∷ []), s)
      | some body ↦ push_new lk (record { cmd = upstream_ack; key = key; body = body }) s
    ]

    -- The acknowledgement, if the backend answered.
    unfoldable pub acknowledge : Link → Text → Result Response → State → Option Error × State
    acknowledge lk key (err e) s = (some e, s)
    acknowledge lk key (ok resp) s = send_upstream_message_ack lk key resp s

    unfoldable pub handle_on_upstream_message_cmd : Link → Message → State → Option Error × State
    handle_on_upstream_message_cmd lk msg s =
        let s1 : State = record s { world = G.update_active_time lk s.world } in
        let r = receive (biz_of lk) (G.link_id lk) msg.key msg.body s1.world in
        acknowledge lk msg.key r.0 (record s1 { world = r.1 })

    unfoldable pub handle_downstream_ack_cmd : Link → Message → State → Option Error × State
    handle_downstream_ack_cmd lk msg s =
        (none, record s { retries = stop S (link_api G) (retry_key (biz_of lk) msg.key) s.retries })

    -- The table of handlers; `none` is a command that is not in it.
    unfoldable pub dispatch : Command → Link → Message → State → Option (Option Error × State)
    dispatch heartbeat lk msg s = some (push_new lk msg s)
    dispatch upstream_message lk msg s = some (handle_on_upstream_message_cmd lk msg s)
    dispatch downstream_ack lk msg s = some (handle_downstream_ack_cmd lk msg s)
    dispatch _ lk msg s = none

    -- What follows a handler's return.
    unfoldable pub after_handler : ℤ → Message → Option Error × State → Option Error × State
    after_handler biz msg (none, s) = (none, s)
    after_handler biz msg (some e, s) =
        if should_delete_cache_on_error e
        then (some e, (delete_cache_message biz msg s).1)
        else (some e, s)

    -- The table's answer, and what follows it.
    unfoldable pub finish :
        ℤ → Message → State → Option (Option Error × State) → Option Error × State
    finish biz msg s none = (some (unknown_command ∷ []), s)
    finish biz msg s (some r) = after_handler biz msg r

    -- A message whose key was cached just now.
    unfoldable pub handle_message : Link → Message → State → Option Error × State
    handle_message lk msg s = finish (biz_of lk) msg s (dispatch msg.cmd lk msg s)

    unfoldable pub on_message : Link → Message → State → Option Error × State
    on_message lk msg s =
        let (fresh, s') = cache_message (biz_of lk) msg s in
        elim fresh [
          | none ↦ (some (cache_failed ∷ other ∷ []), s')
          | some b ↦ if b then handle_message lk msg s' else (some (duplicated ∷ []), s')
        ]

    unfoldable pub on_frontend_send_message : Link → Text → State → Option Error × State
    on_frontend_send_message lk payload s = elim (get_message G payload) [
      | err e ↦ (some e, s)
      | ok msg ↦ on_message lk msg s
    ]

    -- `defer` starts the retransmission on every return after the format check, with the message as
    -- `push` left it.
    unfoldable pub on_backend_push_message : Link → PushMessage → State → Option Error × State
    on_backend_push_message lk msg s =
        if msg.biz_id =? pos 0 || msg.key =? []
        then (some (unknown_backend_format ∷ []), s)
        else let message : Message = record {
          cmd = downstream_message;
          key = msg.key;
          body = msg.body;
        } in
          let (e, sealed, w) = push G lk message s.world in
          (
            e,
            record s {
              retries = start S (link_api G) (retry_key msg.biz_id msg.key) lk sealed s.retries;
              world = if is_some e then w else G.update_active_time lk w;
            },
          )

    unfoldable pub on_disconnect : Link → State → Option Error × State
    on_disconnect lk s =
        let (e, w) = G.close_link lk s.world in
        (
          e,
          record s {
            retries = (stop_by_link_id S (link_api G) (G.link_id lk) s.retries).0;
            world = w;
          },
        )
