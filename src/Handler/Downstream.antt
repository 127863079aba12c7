-- ===== src/Handler/Downstream.antt =====
-- internal/linkevent/handler.go: downstream messages, their retransmission and acknowledgement.
use ws_gateway.Common.{
  ℕ, ◌≡◌, refl, ap, ◌∙◌, Bool, true, false, ◌||◌, Option, none, some, [], arith, if◌then◌else◌,
  is_some,
}
use ws_gateway.Common.Int.{pos, ◌<ℤ◌}
use ws_gateway.Common.Keys.{Text, ◌=?◌, =?_iff, nat_eq, text_eq, int_eq}
use ws_gateway.Common.Map.{lookup, lookup-insert}
use ws_gateway.Common.SyncMap.{SyncMap}
use ws_gateway.Errors.{Error}
use ws_gateway.Message.{downstream_message, downstream_ack, Message, PushMessage, Gateway}
use ws_gateway.PushRetry.{Task, start, fire, stop}
use ws_gateway.PushRetry.Invariant.{IsWellFormed, start-IsWellFormed, start-max_retries}
use ws_gateway.PushRetry.Stopping.{stop_lem}
use ws_gateway.PushRetry.Retries.{exhausted}
use ws_gateway.PushRetry.Budget.{fire_lem}
use ws_gateway.Handler.{
  State, push, link_api, retry_key, cache_key, on_backend_push_message, on_message, cache_message,
  handle_message, finish, after_handler, dispatch, handle_downstream_ack_cmd,
}
use ws_gateway.Handler.Sending.{push_seals}

module _ (G : Gateway) (S : SyncMap Text ℕ) where
  open S use {load}

  abbrev after_ack : G.Link → Message → State G S → State G S
  after_ack lk msg s = record s {
    cached = (G.cache.set_nx (cache_key (G.biz_of lk) msg) s.cached).1;
    retries = stop S (link_api G) (retry_key (G.biz_of lk) msg.key) s.retries;
  }

  ack_lem :
      (lk : G.Link) (msg : Message) (s : State G S)
      → msg.cmd ≡ downstream_ack
      → (G.cache.set_nx (cache_key (G.biz_of lk) msg) s.cached).0 ≡ some true
      → on_message G S lk msg s ≡ (none, after_ack lk msg s)
  unfolding on_message cache_message handle_message finish dispatch after_handler
      handle_downstream_ack_cmd
  ack_lem lk msg s e fresh = ground arith

  -- The frontend's acknowledgement of a downstream message, when it is not a duplicate, ends the
  -- retransmission under its key and no other one, and nothing is sent.
  pub acknowledged :
      (lk : G.Link) (msg : Message) (s : State G S)
      → msg.cmd ≡ downstream_ack
      → (G.cache.set_nx (cache_key (G.biz_of lk) msg) s.cached).0 ≡ some true
      → ((on_message G S lk msg s).0 ≡ none)
        × ((on_message G S lk msg s).1.world ≡ s.world)
        × ((k : Text)
            → load k (on_message G S lk msg s).1.retries.tasks
              ≡ (if retry_key (G.biz_of lk) msg.key =? k then none else load k s.retries.tasks))
  acknowledged lk msg s e fresh = (
    ap (λ r. r.0) (ack_lem lk msg s e fresh),
    ap (λ r. r.1.world) (ack_lem lk msg s e fresh),
    λ k.
        ap (λ r. load k r.1.retries.tasks) (ack_lem lk msg s e fresh)
        ∙ stop_lem S (link_api G) (retry_key (G.biz_of lk) msg.key) k s.retries,
  )

  -- A push from a backend: the message that it makes, and the format that it must have.
  abbrev pub downstream : PushMessage → Message
  downstream msg = record { cmd = downstream_message; key = msg.key; body = msg.body }

  abbrev pub is_malformed : PushMessage → Bool
  is_malformed msg = msg.biz_id =? pos 0 || msg.key =? []

  module _ (lk : G.Link) (msg : PushMessage) (s : State G S) where
    abbrev key_of : Text
    key_of = retry_key msg.biz_id msg.key

    abbrev pub after_push : State G S
    after_push = (on_backend_push_message G S lk msg s).1

    started :
        is_malformed msg ≡ false
        → after_push.retries
          ≡ start S (link_api G) key_of lk (push G lk (downstream msg) s.world).1 s.retries
    unfolding on_backend_push_message
    started ok = ground arith

    -- After a well-formed push, while the manager of retransmissions is open, there is a task under
    -- the key of the message, whatever the first sending returned.
    pub retransmission_started :
        s.retries.closed ≡ false
        → is_malformed msg ≡ false
        → is_some (load key_of after_push.retries.tasks) ≡ true
    unfolding start
    retransmission_started open_ ok = ground (
      arith,
      started ok,
      S.load-store key_of key_of s.retries.next s.retries.tasks,
      =?_iff key_of key_of,
    )

    -- The task that a push leaves holds the ciphertext of its body.
    abbrev pub sealed_task : Text → Task S (link_api G)
    sealed_task c = record {
      key = key_of;
      link = lk;
      message = record { cmd = downstream_message; key = msg.key; body = c };
      armed = true;
      retry_count = 0;
    }

    pub stored_sealed :
        (c : Text)
        → is_malformed msg ≡ false
        → s.retries.closed ≡ false
        → load key_of s.retries.tasks ≡ none
        → (G.encrypt msg.body s.world).0 ≡ some c
        → lookup s.retries.next after_push.retries.heap ≡ some (sealed_task c)
    unfolding start
    stored_sealed c ok open_ free enc = ground (
      arith,
      started ok,
      push_seals G lk (downstream msg) s.world c enc,
      lookup-insert s.retries.next s.retries.next (sealed_task c) s.retries.heap,
      =?_iff s.retries.next s.retries.next,
    )

    -- When decryption undoes encryption, a well-formed push with a new key, to an open and
    -- well-formed manager with a limit above one, has its ciphertext encrypted once more by its
    -- retransmission: the first firing pushes a message whose body, decrypted once, is the
    -- ciphertext of the first sending.
    pub retransmission_sealed_twice :
        (c d : Text) (w : G.World)
        → ((b e : Text) (v : G.World) → (G.encrypt b v).0 ≡ some e → G.decrypt e ≡ some b)
        → IsWellFormed S (link_api G) s.retries
        → is_malformed msg ≡ false
        → s.retries.closed ≡ false
        → load key_of s.retries.tasks ≡ none
        → pos 1 <ℤ s.retries.max_retries
        → (G.encrypt msg.body s.world).0 ≡ some c
        → (G.encrypt c w).0 ≡ some d
        → let resent : Option Error × Message × G.World = push G lk (sealed_task c).message w in
          ((fire S (link_api G) s.retries.next after_push.retries w).1
            ≡ (if is_some resent.0 then resent.2 else G.update_active_time lk resent.2))
          × (resent.1.body ≡ d)
          × (G.decrypt d ≡ some c)
    retransmission_sealed_twice c d w law good ok open_ free many enc again = (
      ap (λ r. r.1)
            (fire_lem S (link_api G) s.retries.next (sealed_task c) after_push.retries w wf
              (stored_sealed c ok open_ free enc) refl)
          ∙ rw below (ground arith),
      ap (λ m. m.body) (push_seals G lk (sealed_task c).message w d again),
      law c d w again,
    )
      where
        wf : IsWellFormed S (link_api G) after_push.retries
        wf = rw (started ok) (start-IsWellFormed S (link_api G) key_of lk _ s.retries good)

        limit : after_push.retries.max_retries ≡ s.retries.max_retries
        limit = rw (started ok) (start-max_retries S (link_api G) key_of lk _ s.retries)

        below : exhausted S (link_api G) (sealed_task c) after_push.retries ≡ false
        below = rw limit (ground arith)
