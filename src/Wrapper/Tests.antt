-- ===== src/Wrapper/Tests.antt =====
-- types.go: a failing handler, a limited one and one that counts.
use ws_gateway.Common.{ℕ, ◌+◌, ◌≡◌, none, some, List, [], ◌∷◌}
use ws_gateway.Errors.{other, rate_limit_exceeded}
use ws_gateway.Wrapper.{Handler, is_rate_limited, on_frontend_send_message}
use ws_gateway.Wrapper.Order.{on_frontend_send_message_lem}

abbrev chain : List (Handler ℕ)
chain =
    (λ n. (some (other ∷ []), n + 1))
    ∷ (λ n. (some (rate_limit_exceeded ∷ []), n + 1))
    ∷ (λ n. (none, n + 10))
    ∷ []

on_frontend_send_message_lem_example : on_frontend_send_message chain 0 ≡ (none, 2)
unfolding is_rate_limited
on_frontend_send_message_lem_example = on_frontend_send_message_lem chain 0
