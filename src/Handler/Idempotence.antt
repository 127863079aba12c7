-- ===== src/Handler/Idempotence.antt =====
-- internal/linkevent/handler.go: the keys of frontend messages in the cache.
use ws_gateway.Common.{
  ℕ, ◌≡◌, refl, ◌∙◌, Bool, true, false, Option, none, some, List, [], ◌∷◌, ◌||◌, Bool-cases, inl,
  inr, arith, if◌then◌else◌, is_some,
}
use ws_gateway.Common.Int.{ℤ}
use ws_gateway.Common.Keys.{Text, =?_iff, text_eq, int_eq}
use ws_gateway.Common.SyncMap.{SyncMap}
use ws_gateway.Errors.{
  Error, Sentinel, is_error, Result, ok, err, duplicated, cache_failed, other, unknown_biz,
  encrypt_failed, marshal_failed, max_retries_exceeded,
}
use ws_gateway.Message.{
  Command, unspecified, heartbeat, upstream_message, upstream_ack, downstream_message,
  downstream_ack, redirect, rate_limited, unknown, Message, is_heartbeat, Gateway,
}
use ws_gateway.Handler.{
  State, cache_key, should_delete_cache_on_error, push_new, acknowledge, forward_by,
  send_upstream_message_ack, get_backend_service_client, forward_to_business_backend,
  handle_on_upstream_message_cmd, handle_downstream_ack_cmd, dispatch, after_handler, finish,
  cache_message, delete_cache_message, handle_message, on_message, on_frontend_send_message,
  get_message,
}

abbrev pub wraps_any : List Sentinel → Error → Bool
wraps_any [] e = false
wraps_any (x ∷ xs) e = is_error x e || wraps_any xs e

-- The errors after which a frontend may send a message again.
abbrev pub retryable : Error → Bool
retryable = wraps_any (unknown_biz ∷ encrypt_failed ∷ marshal_failed ∷ max_retries_exceeded ∷ [])

retryable_iff : (e : Error) → retryable e ≡ should_delete_cache_on_error e
unfolding should_delete_cache_on_error
retryable_iff e = ground arith

-- Whether a key is cached after an answer, when a deletion fails or not.
abbrev pub Fits : Bool → Bool → Option Error → Type 0
Fits failed cached none = cached ≡ true
Fits failed cached (some e) =
    (retryable e ≡ false → cached ≡ true) × (retryable e ≡ true → failed ≡ false → cached ≡ false)

module _ (G : Gateway) (S : SyncMap Text ℕ) where
  -- No handler in the table touches the cache.
  client-cached :
      (biz : ℤ) (s : State G S) → (get_backend_service_client G S biz s).1.cached ≡ s.cached
  unfolding get_backend_service_client
  client-cached biz s = ground arith

  forward_by-cached :
      (c : Result G.Client) (msg : Message) (s : State G S)
      → (forward_by G S c msg s).1.cached ≡ s.cached
  unfolding forward_by
  forward_by-cached (err e) msg s = refl
  forward_by-cached (ok c) msg s = ground arith

  acknowledge-cached :
      (lk : G.Link) (key : Text) (r : Result G.Response) (s : State G S)
      → (acknowledge G S lk key r s).1.cached ≡ s.cached
  unfolding acknowledge send_upstream_message_ack push_new
  acknowledge-cached lk key (err e) s = refl
  acknowledge-cached lk key (ok r) s = ground arith

  upstream-cached :
      (lk : G.Link) (msg : Message) (s : State G S)
      → (handle_on_upstream_message_cmd G S lk msg s).1.cached ≡ s.cached
  unfolding handle_on_upstream_message_cmd forward_to_business_backend
  upstream-cached lk msg s =
      acknowledge-cached lk msg.key _ _
      ∙ (forward_by-cached _ msg _ ∙ client-cached (G.biz_of lk) (record s { world = _ }))

  abbrev Keeps : G.cache.Store → Option (Option Error × State G S) → Type 0
  Keeps c none = Unit
  Keeps c (some r) = r.1.cached ≡ c

  dispatch-cached :
      (cmd : Command) (lk : G.Link) (msg : Message) (s : State G S)
      → Keeps s.cached (dispatch G S cmd lk msg s)
  unfolding dispatch push_new handle_downstream_ack_cmd
  dispatch-cached heartbeat lk msg s = refl
  dispatch-cached upstream_message lk msg s = upstream-cached lk msg s
  dispatch-cached downstream_ack lk msg s = refl
  dispatch-cached unspecified lk msg s = tt
  dispatch-cached upstream_ack lk msg s = tt
  dispatch-cached downstream_message lk msg s = tt
  dispatch-cached redirect lk msg s = tt
  dispatch-cached rate_limited lk msg s = tt
  dispatch-cached (unknown n) lk msg s = tt

  module _ (lk : G.Link) (msg : Message) (s : State G S) (plain : is_heartbeat msg.cmd ≡ false)
      (held : G.cache.has (cache_key (G.biz_of lk) msg) s.cached ≡ true) where
    abbrev k : Text
    k = cache_key (G.biz_of lk) msg

    after_handler-has :
        (r : Option Error × State G S)
        → r.1.cached ≡ s.cached
        → Fits
            (G.cache.delete k s.cached).0
            (G.cache.has k (after_handler G S (G.biz_of lk) msg r).1.cached)
            (after_handler G S (G.biz_of lk) msg r).0
    unfolding after_handler delete_cache_message
    after_handler-has (none, t) e = rw e held
    after_handler-has (some x, t) e = elim (Bool-cases (should_delete_cache_on_error x)) [
      | inl gone ↦ rw gone (
        λ kept. absurd (ground (arith, retryable_iff x)),
        λ may fine. ground (arith, e, G.cache.delete-has k k t.cached, =?_iff k k),
      )
      | inr kept ↦
          rw kept (λ not_listed. rw e held, λ may fine. absurd (ground (arith, retryable_iff x)))
    ]

    finish-has :
        (o : Option (Option Error × State G S))
        → Keeps s.cached o
        → Fits
            (G.cache.delete k s.cached).0
            (G.cache.has k (finish G S (G.biz_of lk) msg s o).1.cached)
            (finish G S (G.biz_of lk) msg s o).0
    unfolding finish
    finish-has none u = (λ not_listed. held, λ may. absurd (ground arith))
    finish-has (some r) u = after_handler-has r u

    handle_message-has :
        Fits
          (G.cache.delete k s.cached).0
          (G.cache.has k (handle_message G S lk msg s).1.cached)
          (handle_message G S lk msg s).0
    unfolding handle_message
    handle_message-has =
        finish-has (dispatch G S msg.cmd lk msg s) (dispatch-cached msg.cmd lk msg s)

  module _ (lk : G.Link) (msg : Message) (s : State G S)
      (plain : is_heartbeat msg.cmd ≡ false) where
    abbrev pub key_of : Text
    key_of = cache_key (G.biz_of lk) msg

    -- The cache after the message's key went into it.
    abbrev pub filled : G.cache.Store
    filled = (G.cache.set_nx key_of s.cached).1

    entered :
        (G.cache.set_nx key_of s.cached).0 ≡ some true
        → on_message G S lk msg s ≡ handle_message G S lk msg (record s { cached = filled })
    unfolding on_message cache_message
    entered e = ground arith

    -- The key of a message, other than a heartbeat, that was free is in the cache afterwards if the
    -- handler answers nil, or an error that wraps none of these four: an unknown business, a failed
    -- encryption or marshalling, the retries that ran out. After an error that wraps one of them the
    -- key is not in the cache, if the deletion did not fail.
    pub on_message-has :
        (G.cache.set_nx key_of s.cached).0 ≡ some true
        → Fits
            (G.cache.delete key_of filled).0
            (G.cache.has key_of (on_message G S lk msg s).1.cached)
            (on_message G S lk msg s).0
    on_message-has e = rw (entered e) (
        handle_message-has lk msg (record s { cached = filled }) plain
          (ground (arith, G.cache.set_nx-has key_of key_of s.cached, =?_iff key_of key_of)))

    -- While a message's key is cached, the message is refused and reaches no handler: the clients,
    -- the retransmissions, the link and the backend are as before.
    pub on_message_duplicate :
        G.cache.has key_of s.cached ≡ true
        → on_message G S lk msg s ≡ (
          some (
              if is_some (G.cache.set_nx key_of s.cached).0
              then duplicated ∷ []
              else cache_failed ∷ other ∷ []),
          record s { cached = filled },
        )
    unfolding on_message cache_message
    on_message_duplicate h =
        ground
          (arith, G.cache.set_nx-new key_of s.cached true, G.cache.set_nx-new key_of s.cached false)

  accepted-new :
      (lk : G.Link) (msg : Message) (s : State G S)
      → is_heartbeat msg.cmd ≡ false
      → (on_message G S lk msg s).0 ≡ none
      → (G.cache.set_nx (cache_key (G.biz_of lk) msg) s.cached).0 ≡ some true
  unfolding on_message cache_message
  accepted-new lk msg s plain e = ground arith

  received :
      (lk : G.Link) (payload : Text) (msg : Message) (s : State G S)
      → get_message G payload ≡ ok msg
      → on_frontend_send_message G S lk payload s ≡ on_message G S lk msg s
  unfolding on_frontend_send_message
  received lk payload msg s g = rw (g, on_frontend_send_message)

  -- Once `OnFrontendSendMessage` returned nil for a message other than a heartbeat, the next such
  -- message with its key from a user of the same business, on any link, is refused and changes
  -- nothing but the cache.
  pub processed_once :
      (lk lk' : G.Link) (payload payload' : Text) (msg msg' : Message) (s : State G S)
      → get_message G payload ≡ ok msg
      → get_message G payload' ≡ ok msg'
      → is_heartbeat msg.cmd ≡ false
      → is_heartbeat msg'.cmd ≡ false
      → G.biz_of lk' ≡ G.biz_of lk
      → msg'.key ≡ msg.key
      → (on_frontend_send_message G S lk payload s).0 ≡ none
      → let t : State G S = (on_frontend_send_message G S lk payload s).1 in
        let k : Text = cache_key (G.biz_of lk') msg' in
        on_frontend_send_message G S lk' payload' t ≡ (
          some (
              if is_some (G.cache.set_nx k t.cached).0
              then duplicated ∷ []
              else cache_failed ∷ other ∷ []),
          record t { cached = (G.cache.set_nx k t.cached).1 },
        )
  processed_once lk lk' payload payload' msg msg' s g g' plain plain' biz key done =
      rw (received lk payload msg s g, received lk' payload' msg' (on_message G S lk msg s).1 g')
        (on_message_duplicate lk' msg' (on_message G S lk msg s).1 plain' cached)
    where
      done' : (on_message G S lk msg s).0 ≡ none
      done' = rw (received lk payload msg s g) at done

      cached : G.cache.has (cache_key (G.biz_of lk') msg') (on_message G S lk msg s).1.cached ≡ true
      cached =
          rw (biz, key)
            (rw done' at (on_message-has lk msg s plain (accepted-new lk msg s plain done')))
