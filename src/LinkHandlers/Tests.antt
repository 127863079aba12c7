-- ===== src/LinkHandlers/Tests.antt =====
-- internal/linkevent/limit_handler.go: a limiter without a token, in front of a handler that fails.
use ws_gateway.Common.{◌+◌, Bool, false, some, [], ◌∷◌}
use ws_gateway.Common.Keys.{Text}
use ws_gateway.Errors.{other}
use ws_gateway.Wrapper.{Handler}
use ws_gateway.Handler.Tests.{toy}

abbrev never : toy.World → Bool × toy.World
never w = (false, w)

abbrev failing : Handler toy.World
failing w = (some (other ∷ []), (w.0, w.1 + 1))

-- An upstream message with the key "k".
abbrev payload : Text
payload = 2 ∷ 107 ∷ []
