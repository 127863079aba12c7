-- ===== src/LinkHandlers/Limiting.antt =====
-- internal/linkevent/limit_handler.go in front of other handlers in a types.go wrapper.
use ws_gateway.Common.{
  ◌≡◌, refl, inl, inr, Bool, Option, none, some, List, ◌∷◌, if◌then◌else◌, Bool-cases, Option-cases,
}
use ws_gateway.Common.Keys.{Text}
use ws_gateway.Errors.{Error}
use ws_gateway.Message.{is_heartbeat, Gateway}
use ws_gateway.Wrapper.{Handler, append_error, is_rate_limited, send_loop, on_frontend_send_message}
use ws_gateway.LinkHandlers.{rate_limit_exceeded_message, check_limit, limit_frontend_message}

module _ (G : Gateway) (allow : G.World → Bool × G.World) where
  -- Whether the limiter is asked about a payload, and the key of the message.
  abbrev pub limited_key : Text → Option Text
  limited_key payload = elim (G.unmarshal payload) [
    | none ↦ none
    | some msg ↦ if is_heartbeat msg.cmd then none else some msg.key
  ]

  -- What the wrapper does with the handlers behind the limit.
  abbrev pub behind_limit :
      G.Link → Option Text → List (Handler G.World) → G.World → Option Error × G.World
  behind_limit lk none hs w = on_frontend_send_message hs w
  behind_limit lk (some key) hs w =
      if (allow w).0
      then on_frontend_send_message hs (allow w).1
      else (none, (G.send lk (rate_limit_exceeded_message G allow key) (allow w).1).1)

  -- A limit in front of other handlers: while the limiter allows it, or for a heartbeat or a payload
  -- that is no message, the others do what they do without it; otherwise none of them is called, the
  -- frontend is sent the message that says so, with the key of its own, and nil is returned.
  pub limit_lem :
      (lk : G.Link) (payload : Text) (hs : List (Handler G.World)) (w : G.World)
      → on_frontend_send_message (limit_frontend_message G allow lk payload ∷ hs) w
        ≡ behind_limit lk (limited_key payload) hs w
  unfolding on_frontend_send_message send_loop limit_frontend_message check_limit append_error
      is_rate_limited
  limit_lem lk payload hs w = elim (Option-cases (G.unmarshal payload)) [
    | inl unread ↦ rw (unread, limit_frontend_message, limited_key) refl
    | inr (msg, read) ↦
        rw (read, limit_frontend_message, limited_key)
          (elim (Bool-cases (is_heartbeat msg.cmd)) [
            | inl beat ↦ rw beat refl
            | inr plain ↦ rw plain (elim (Bool-cases (allow w).0) [
              | inl allowed ↦ rw allowed refl
              | inr full ↦ rw full refl
            ])
          ])
  ]
