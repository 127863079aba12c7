-- ===== src/Handler.antt =====
-- internal/linkevent/handler.go: what the gateway does with the messages of a link.
-- A method takes the state of the handler and of its collaborators and returns the new one; a nil
-- error is `none`. A `*Message` that is shared is returned with its changes. Logging is left out.
pub mod Sending
pub mod Forwarding
pub mod Idempotence
pub mod Downstream
pub mod Tests
use ws_gateway.Common.{
  ℕ, zero, suc, ◌+◌, ◌≡◌, Bool, true, false, not, ◌&&◌, ◌||◌, Option, none, some, List, [], ◌∷◌,
  ◌++◌, if◌then◌else◌, is_some,
}
use ws_gateway.Common.Int.{ℤ, pos}
use ws_gateway.Common.Keys.{Text, ◌=?◌, text_eq, int_eq}
use ws_gateway.Common.Format.{format_key}
use ws_gateway.Common.SyncMap.{SyncMap}
use ws_gateway.Errors.{
  Error, Sentinel, is_error, Result, ok, err, unknown_frontend_format, unknown_command, duplicated,
  cache_failed, delete_cache_failed, marshal_failed, decrypt_failed, encrypt_failed,
  max_retries_exceeded, unknown_biz, unknown_backend_format, other,
}
use ws_gateway.Message.{
  Command, heartbeat, upstream_message, upstream_ack, downstream_message, downstream_ack, Message,
  PushMessage, is_heartbeat, Gateway,
}
use ws_gateway.PushRetry
use ws_gateway.PushRetry.{LinkApi, Manager, stop, stop_by_link_id, start}

abbrev pub cache_key : ℤ → Message → Text
cache_key biz msg = format_key biz msg.key

abbrev pub retry_key : ℤ → Text → Text
retry_key biz key = format_key biz key

-- After which errors the cached key is deleted.
unfoldable pub should_delete_cache_on_error : Error → Bool
should_delete_cache_on_error e =
    is_error unknown_biz e
    || (is_error encrypt_failed e || (is_error marshal_failed e || is_error max_retries_exceeded e))

module _ (G : Gateway) where
  open G use {
    Link, Client, Response, World, biz_of, unmarshal, marshal, marshal_response, encrypt, decrypt,
    send,
  }

  -- `push` on a shared message: the body is replaced by the ciphertext before it is marshalled.
  unfoldable pub push : Link → Message → World → Option Error × Message × World
  push lk msg w =
      let (ciphertext, w') = encrypt msg.body w in
      elim ciphertext [
        | none ↦ (some (encrypt_failed ∷ other ∷ []), msg, w')
        | some body ↦
            let sealed : Message = record msg { body = body } in
            elim (marshal sealed) [
              | none ↦ (some (marshal_failed ∷ other ∷ []), sealed, w')
              | some payload ↦ let (e, w'') = send lk payload w' in (e, sealed, w'')
            ]
      ]

  -- What the retransmission manager sees of links and of `push`.
  abbrev pub link_api : LinkApi
  link_api = record {
    Link = Link;
    Message = Message;
    World = World;
    link_id = G.link_id;
    push = λ lk msg w. (is_some (push lk msg w).0, (push lk msg w).1, (push lk msg w).2);
    update_active_time = G.update_active_time;
  }

  unfoldable pub get_message : Text → Result Message
  get_message payload = elim (unmarshal payload) [
    | none ↦ err (unknown_frontend_format ∷ [])
    | some msg ↦
        if msg.key =? [] && not (is_heartbeat msg.cmd)
        then err (unknown_frontend_format ∷ [])
        else (elim (decrypt msg.body) [
          | none ↦ err (decrypt_failed ∷ other ∷ [])
          | some body ↦ ok (record msg { body = body })
        ])
  ]

  -- The loop of `forwardToBusinessBackend` on fuel, `n` retries done; `none` means that the fuel
  -- ran out.
  unfoldable pub forward_loop : ℕ → ℕ → Client → Message → World → Option (Result Response × World)
  forward_loop zero n client msg w = none
  forward_loop (suc fuel) n client msg w =
      let r = G.on_receive client msg.key msg.body w in
      let again = forward_loop fuel (suc n) client msg r.1 in
      elim r.0 [
        | some resp ↦ some (ok resp, r.1)
        | none ↦
            if G.next_retry n then again else some (err (other ∷ max_retries_exceeded ∷ []), r.1)
      ]

  module _ (S : SyncMap Text ℕ) where
    pub record State : Type 0 where
      pub cached : G.cache.Store
      pub biz_to_client : G.clients.Store
      pub retries : Manager S link_api
      pub world : World

    -- The answer of `cacheMessage`: `none` is an error.
    unfoldable pub cache_message : ℤ → Message → State → Option Bool × State
    cache_message biz msg s =
        if is_heartbeat msg.cmd
        then (some true, s)
        else let (r, c) = G.cache.set_nx (cache_key biz msg) s.cached in
          (r, record s { cached = c })

    unfoldable pub delete_cache_message : ℤ → Message → State → Option Error × State
    delete_cache_message biz msg s =
        if is_heartbeat msg.cmd
        then (none, s)
        else let (failed, c) = G.cache.delete (cache_key biz msg) s.cached in
          (
            if failed then some (delete_cache_failed ∷ other ∷ []) else none,
            record s { cached = c },
          )

    -- A client that is not in the map is looked for once more after the map was loaded anew.
    unfoldable pub get_backend_service_client : ℤ → State → Result Client × State
    get_backend_service_client biz s = elim (G.clients.load biz s.biz_to_client) [
      | some client ↦ (ok client, s)
      | none ↦
          let (fresh, w) = G.load_clients s.world in
          let s' : State = record s { biz_to_client = fresh; world = w } in
          elim (G.clients.load biz fresh) [
            | some client ↦ (ok client, s')
            | none ↦ (err (unknown_biz ∷ []), s')
          ]
    ]

    -- With a client at hand; the fuel is one more than the retries that the strategy grants.
    unfoldable pub forward_by : Result Client → Message → State → Result Response × State
    forward_by (err e) msg s = (err e, s)
    forward_by (ok client) msg s = elim (forward_loop (suc G.retry_limit) 0 client msg s.world) [
      | none ↦ (err [], s)
      | some (r, w) ↦ (r, record s { world = w })
    ]

    unfoldable pub forward_to_business_backend : ℤ → Message → State → Result Response × State
    forward_to_business_backend biz msg s =
        let (client, s') = get_backend_service_client biz s in forward_by client msg s'

    -- `push` on a message that nobody else holds.
    unfoldable pub push_new : Link → Message → State → Option Error × State
    push_new lk msg s = ((push lk msg s.world).0, record s { world = (push lk msg s.world).2 })

    unfoldable pub send_upstream_message_ack : Link → Text → Response → State → Option Error × State
    send_upstream_message_ack lk key resp s = elim (marshal_response resp) [
      | none ↦ (some (marshal_failed ∷ other ∷ []), s)
      | some body ↦ push_new lk (record { cmd = upstream_ack; key = key; body = body }) s
    ]

    -- The acknowledgement, if the backend answered.
    unfoldable pub acknowledge : Link → Text → Result Response → State → Option Error × State
    acknowledge lk key (err e) s = (some e, s)
    acknowledge lk key (ok resp) s = send_upstream_message_ack lk key resp s

    unfoldable pub handle_on_upstream_message_cmd : Link → Message → State → Option Error × State
    handle_on_upstream_message_cmd lk msg s =
        let s1 : State = record s { world = G.update_active_time lk s.world } in
        let (r, s2) = forward_to_business_backend (biz_of lk) msg s1 in acknowledge lk msg.key r s2

    unfoldable pub handle_downstream_ack_cmd : Link → Message → State → Option Error × State
    handle_downstream_ack_cmd lk msg s =
        (none, record s { retries = stop S link_api (retry_key (biz_of lk) msg.key) s.retries })

    -- The table of handlers; `none` is a command that is not in it.
    unfoldable pub dispatch : Command → Link → Message → State → Option (Option Error × State)
    dispatch heartbeat lk msg s = some (push_new lk msg s)
    dispatch upstream_message lk msg s = some (handle_on_upstream_message_cmd lk msg s)
    dispatch downstream_ack lk msg s = some (handle_downstream_ack_cmd lk msg s)
    dispatch _ lk msg s = none

    -- What follows a handler's return.
    unfoldable pub after_handler : ℤ → Message → Option Error × State → Option Error × State
    after_handler biz msg (none, s) = (none, s)
    after_handler biz msg (some e, s) =
        if should_delete_cache_on_error e
        then (some e, (delete_cache_message biz msg s).1)
        else (some e, s)

    -- The table's answer, and what follows it.
    unfoldable pub finish :
        ℤ → Message → State → Option (Option Error × State) → Option Error × State
    finish biz msg s none = (some (unknown_command ∷ []), s)
    finish biz msg s (some r) = after_handler biz msg r

    -- A message whose key was cached just now.
    unfoldable pub handle_message : Link → Message → State → Option Error × State
    handle_message lk msg s = finish (biz_of lk) msg s (dispatch msg.cmd lk msg s)

    unfoldable pub on_message : Link → Message → State → Option Error × State
    on_message lk msg s =
        let (fresh, s') = cache_message (biz_of lk) msg s in
        elim fresh [
          | none ↦ (some (cache_failed ∷ other ∷ []), s')
          | some b ↦ if b then handle_message lk msg s' else (some (duplicated ∷ []), s')
        ]

    unfoldable pub on_frontend_send_message : Link → Text → State → Option Error × State
    on_frontend_send_message lk payload s = elim (get_message payload) [
      | err e ↦ (some e, s)
      | ok msg ↦ on_message lk msg s
    ]

    -- `defer` starts the retransmission on every return after the format check, with the message as
    -- `push` left it.
    unfoldable pub on_backend_push_message : Link → PushMessage → State → Option Error × State
    on_backend_push_message lk msg s =
        if msg.biz_id =? pos 0 || msg.key =? []
        then (some (unknown_backend_format ∷ []), s)
        else let message : Message = record {
          cmd = downstream_message;
          key = msg.key;
          body = msg.body;
        } in
          let (e, sealed, w) = push lk message s.world in
          (
            e,
            record s {
              retries = start S link_api (retry_key msg.biz_id msg.key) lk sealed s.retries;
              world = if is_some e then w else G.update_active_time lk w;
            },
          )

    unfoldable pub on_disconnect : Link → State → Option Error × State
    on_disconnect lk s =
        let (e, w) = G.close_link lk s.world in
        (
          e,
          record s { retries = (stop_by_link_id S link_api (G.link_id lk) s.retries).0; world = w },
        )
