-- ===== src/BatchHandler/Answers.antt =====
-- internal/linkevent/batch_handler.go: what an error of the coordinator does to the cached key.
use ws_gateway.Common.{ℕ, ◌≡◌, refl, ◌∙◌, true, false, some, [], ◌∷◌, arith, if◌then◌else◌, is_some}
use ws_gateway.Common.Int.{ℤ}
use ws_gateway.Common.Keys.{Text, =?_iff, text_eq, int_eq}
use ws_gateway.Common.SyncMap.{SyncMap}
use ws_gateway.Errors.{Error, Result, ok, err, duplicated, cache_failed, other}
use ws_gateway.Message.{upstream_message, Message, is_heartbeat, Gateway}
use ws_gateway.Handler.{cache_key, should_delete_cache_on_error, get_message}
use ws_gateway.BatchHandler.{
  State, cache_message, acknowledge, handle_on_upstream_message_cmd, dispatch, after_handler,
  finish, handle_message, on_message, on_frontend_send_message,
}

module _ (G : Gateway) (S : SyncMap Text ℕ)
    (receive : ℤ → Text → Text → Text → G.World → Result G.Response × G.World) where
  module _ (lk : G.Link) (msg : Message) (s : State G S receive) where
    abbrev k : Text
    k = cache_key (G.biz_of lk) msg

    -- The world when the coordinator is asked, and the state after its answer.
    abbrev asked : G.World
    asked = G.update_active_time lk s.world

    abbrev answer : Result G.Response × G.World
    answer = receive (G.biz_of lk) (G.link_id lk) msg.key msg.body asked

    abbrev kept : State G S receive
    kept = record s { cached = (G.cache.set_nx k s.cached).1; world = answer.1 }

    failed_upstream :
        (e : Error)
        → msg.cmd ≡ upstream_message
        → (G.cache.set_nx k s.cached).0 ≡ some true
        → answer.0 ≡ err e
        → should_delete_cache_on_error e ≡ false
        → on_message G S receive lk msg s ≡ (some e, kept)
    unfolding on_message cache_message handle_message finish dispatch handle_on_upstream_message_cmd
        acknowledge after_handler
    failed_upstream e up fresh failed keeps = rw (up, fresh) (rw failed (rw keeps))

  duplicate_refused :
      (lk : G.Link) (msg : Message) (s : State G S receive)
      → is_heartbeat msg.cmd ≡ false
      → G.cache.has (cache_key (G.biz_of lk) msg) s.cached ≡ true
      → let r = G.cache.set_nx (cache_key (G.biz_of lk) msg) s.cached in
        on_message G S receive lk msg s ≡ (
          some (if is_some r.0 then duplicated ∷ [] else cache_failed ∷ other ∷ []),
          record s { cached = r.1 },
        )
  unfolding on_message cache_message
  duplicate_refused lk msg s plain h =
      let k = cache_key (G.biz_of lk) msg in
      ground (arith, G.cache.set_nx-new k s.cached true, G.cache.set_nx-new k s.cached false)

  received :
      (lk : G.Link) (payload : Text) (msg : Message) (s : State G S receive)
      → get_message G payload ≡ ok msg
      → on_frontend_send_message G S receive lk payload s ≡ on_message G S receive lk msg s
  unfolding on_frontend_send_message
  received lk payload msg s g = rw (g, on_frontend_send_message)

  -- An upstream message whose key was not cached, and for which the coordinator gives an error that is
  -- not one of the four after which the key is deleted: the handler returns that error, and the
  -- frontend's next message with the key, from a user of the same business, is refused as a duplicate
  -- (or with the cache's own error) and reaches no backend.
  pub unanswered_refused :
      (lk lk' : G.Link) (payload payload' : Text) (msg msg' : Message) (s : State G S receive)
      (e : Error)
      → get_message G payload ≡ ok msg
      → get_message G payload' ≡ ok msg'
      → msg.cmd ≡ upstream_message
      → msg'.cmd ≡ upstream_message
      → G.biz_of lk' ≡ G.biz_of lk
      → msg'.key ≡ msg.key
      → (G.cache.set_nx (cache_key (G.biz_of lk) msg) s.cached).0 ≡ some true
      → (answer lk msg s).0 ≡ err e
      → should_delete_cache_on_error e ≡ false
      → let t : State G S receive = (on_frontend_send_message G S receive lk payload s).1 in
        let r = G.cache.set_nx (cache_key (G.biz_of lk') msg') t.cached in
        ((on_frontend_send_message G S receive lk payload s).0 ≡ some e)
        × (on_frontend_send_message G S receive lk' payload' t ≡ (
          some (if is_some r.0 then duplicated ∷ [] else cache_failed ∷ other ∷ []),
          record t { cached = r.1 },
        ))
  unanswered_refused lk lk' payload payload' msg msg' s e g g' up up' biz key fresh failed keeps =
      let first : on_frontend_send_message G S receive lk payload s ≡ (some e, kept lk msg s) =
        received lk payload msg s g ∙ failed_upstream lk msg s e up fresh failed keeps in
      let k = cache_key (G.biz_of lk) msg in
      let cached : G.cache.has k (kept lk msg s).cached ≡ true =
        ground (arith, G.cache.set_nx-has k k s.cached, =?_iff k k) in
      let plain : is_heartbeat msg'.cmd ≡ false = rw up' refl in
      rw first (
        refl,
        received lk' payload' msg' (kept lk msg s) g'
            ∙ duplicate_refused lk' msg' (kept lk msg s) plain (rw (biz, key) cached),
      )
