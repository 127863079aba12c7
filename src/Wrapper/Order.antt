-- ===== src/Wrapper/Order.antt =====
-- types.go, `OnFrontendSendMessage`: what a rate limit does to the handlers' answers.
use ws_gateway.Common.{◌≡◌, refl, Option, none, some, List, [], ◌∷◌, arith, if◌then◌else◌}
use ws_gateway.Errors.{Error}
use ws_gateway.Wrapper.{
  Handler, append_error, is_rate_limited, call_each, send_loop, on_frontend_send_message,
}

module _ {S : Type 0} where
  -- The first handler of a list, each called after the one before, that is rate limited, if there is
  -- one, ends the chain: what is left is nil and the state that it left.
  abbrev pub first_limited : List (Handler S) → S → Option S
  first_limited [] s = none
  first_limited (h ∷ hs) s =
      if is_rate_limited (h s).0 then some (h s).1 else first_limited hs (h s).1

  send_loop_lem :
      (hs : List (Handler S)) (e : Option Error) (s : S)
      → send_loop hs e s
        ≡ (elim (first_limited hs s) [ none ↦ call_each hs e s | some t ↦ (none, t) ])
  unfolding send_loop call_each
  send_loop_lem [] e s = refl
  send_loop_lem (h ∷ hs) e s = ground (arith, send_loop_lem hs (append_error e (h s).0) (h s).1)

  -- `OnFrontendSendMessage` calls all handlers in order and joins their errors, as the other events do,
  -- unless a handler is rate limited: then the ones after the first such handler are not called, and
  -- nil is returned whatever the ones before it returned.
  pub on_frontend_send_message_lem :
      (hs : List (Handler S)) (s : S)
      → on_frontend_send_message hs s
        ≡ (elim (first_limited hs s) [ none ↦ call_each hs none s | some t ↦ (none, t) ])
  unfolding on_frontend_send_message
  on_frontend_send_message_lem hs s = send_loop_lem hs none s
