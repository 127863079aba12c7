-- ===== src/Server/Pushing.antt =====
-- internal/websocket_server.go: what the server does with the push messages of the queue.
use ws_gateway.Common.{ℕ, ◌≡◌, ◌≢◌, refl, ◌∙◌, false, Option, none, some, List, [], ◌∷◌}
use ws_gateway.Common.Keys.{Text, nat_eq, text_eq}
use ws_gateway.Common.Map.{lookup}
use ws_gateway.Common.SyncMap.{SyncMap}
use ws_gateway.Errors.{Error, unknown_receiver, other}
use ws_gateway.Message.{PushMessage}
use ws_gateway.Links.{Link}
use ws_gateway.Links.Manager.{UserInfo, Manager, generate_link_id, find_link_by_user_info}
use ws_gateway.Server.{Collaborators, serving, ends, Server, with_shared, step}
use ws_gateway.Server.Ownership.{reconnected_lost}

module _ {W : Type 0} (C : Collaborators W) (S : SyncMap Text ℕ)
    (on_backend_push_message : ℕ
      → PushMessage
      → List (ℕ × Link)
      → W
      → Option Error × List (ℕ × Link) × W) where
  unfoldable pub find_link : PushMessage → Server C S → Option ℕ
  find_link msg s =
      find_link_by_user_info C.conn_close S
        (record { biz_id = msg.biz_id; user_id = msg.receiver_id; auto_close = false })
        s.link_manager

  -- The message as `json.Unmarshal` gave it.
  unfoldable pub consume_push_message_event :
      Option PushMessage → Server C S → Option Error × Server C S
  consume_push_message_event none s = (some (other ∷ []), s)
  consume_push_message_event (some msg) s = elim (find_link msg s) [
    | none ↦ (some (unknown_receiver ∷ []), s)
    | some r ↦
        let p = on_backend_push_message r msg s.link_manager.heap s.link_manager.world in
        (p.0, with_shared C S p.1 p.2 s)
  ]

  same_link_id :
      (u v : UserInfo)
      → u.biz_id ≡ v.biz_id
      → u.user_id ≡ v.user_id
      → (m : Manager C.conn_close S)
      → find_link_by_user_info C.conn_close S u m ≡ find_link_by_user_info C.conn_close S v m
  unfolding find_link_by_user_info generate_link_id
  same_link_id u v b i m = rw (b, i) refl

  -- A user has two connections, of which the manager has the newer one. When the older one ends, the
  -- newer one is still served, but a message pushed to the user is refused with ErrUnknownReceiver and
  -- reaches no handler.
  pub push_refused :
      (i j r r' : ℕ) (u : UserInfo) (msg : PushMessage) (s : Server C S)
      → lookup i s.conns ≡ some (serving (generate_link_id u) r)
      → lookup j s.conns ≡ some (serving (generate_link_id u) r')
      → i ≢ j
      → find_link_by_user_info C.conn_close S u s.link_manager ≡ some r'
      → msg.biz_id ≡ u.biz_id
      → msg.receiver_id ≡ u.user_id
      → let t : Server C S = step C S (ends i) s in
        (lookup j t.conns ≡ some (serving (generate_link_id u) r'))
        × (consume_push_message_event (some msg) t ≡ (some (unknown_receiver ∷ []), t))
  unfolding consume_push_message_event find_link
  push_refused i j r r' u msg s e f apart found b k =
      let t : Server C S = step C S (ends i) s in
      let (served, lost) = reconnected_lost C S i j r r' u s e f apart found in
      let missing : find_link msg t ≡ none = same_link_id _ u b k t.link_manager ∙ lost in
      (served, rw (missing, consume_push_message_event))
