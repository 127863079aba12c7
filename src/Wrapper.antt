-- ===== src/Wrapper.antt =====
-- types.go: several link event handlers called one after the other. A handler, applied to its link and
-- message, is a function on the state `S` of them all.
pub mod Order
pub mod Tests
use ws_gateway.Common.{Bool, true, false, Option, none, some, List, [], ◌∷◌, ◌++◌, if◌then◌else◌}
use ws_gateway.Errors.{Error, is_error, rate_limit_exceeded}

abbrev pub Handler : Type 0 → Type 0
Handler S = S → Option Error × S

-- multierr.Append
unfoldable pub append_error : Option Error → Option Error → Option Error
append_error none e = e
append_error (some e) none = some e
append_error (some e) (some e') = some (e ++ e')

-- errors.Is(err, ErrRateLimitExceeded)
unfoldable pub is_rate_limited : Option Error → Bool
is_rate_limited none = false
is_rate_limited (some e) = is_error rate_limit_exceeded e

module _ {S : Type 0} where
  -- The loops of `OnConnect`, `OnBackendPushMessage` and `OnDisconnect`, from the error `e` on.
  unfoldable pub call_each : List (Handler S) → Option Error → S → Option Error × S
  call_each [] e s = (e, s)
  call_each (h ∷ hs) e s = call_each hs (append_error e (h s).0) (h s).1

  -- The loop of `OnFrontendSendMessage`, from the error `e` on.
  unfoldable pub send_loop : List (Handler S) → Option Error → S → Option Error × S
  send_loop [] e s = (e, s)
  send_loop (h ∷ hs) e s =
      let rest = send_loop hs (append_error e (h s).0) (h s).1 in
      if is_rate_limited (h s).0 then (none, (h s).1) else rest

  unfoldable pub on_frontend_send_message : List (Handler S) → S → Option Error × S
  on_frontend_send_message handlers s = send_loop handlers none s
