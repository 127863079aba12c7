-- ===== src/LinkHandlers.antt =====
-- internal/linkevent/limit_handler.go, online_user_handler.go and user_action_handler.go: the small
-- handlers beside the one that treats the messages. The rate limiter, the gauge's registry and the
-- producer of events are parameters; of the gauge the model has its values. Logging is left out.
pub mod Limiting
pub mod Tests
use ws_gateway.Common.{ℕ, Bool, true, false, Option, none, some, List, [], ◌∷◌, if◌then◌else◌}
use ws_gateway.Common.Int.{ℤ, pos, negsuc, ◌+ℤ◌}
use ws_gateway.Common.Keys.{Text, int_eq}
use ws_gateway.Common.Map.{lookup, insert}
use ws_gateway.Errors.{Error, rate_limit_exceeded}
use ws_gateway.Message.{Message, rate_limited, is_heartbeat, Gateway}

module _ (G : Gateway) where
  open G use {Link, World, biz_of}

  -- LimitHandler. The limiter's `Allow` takes a token if there is one.
  module _ (allow : World → Bool × World) where
    -- A message that cannot be marshalled is an empty payload.
    unfoldable pub rate_limit_exceeded_message : Text → Text
    rate_limit_exceeded_message key =
        elim (G.marshal (record { cmd = rate_limited; key = key; body = [] })) [
          | none ↦ []
          | some payload ↦ payload
        ]

    -- A message that the limiter is asked about.
    unfoldable pub check_limit : Link → Message → World → Option Error × World
    check_limit lk msg w =
        let a = allow w in
        if a.0 then (none, a.1) else (
          some (rate_limit_exceeded ∷ []),
          (G.send lk (rate_limit_exceeded_message msg.key) a.1).1,
        )

    unfoldable pub limit_frontend_message : Link → Text → World → Option Error × World
    limit_frontend_message lk payload w = elim (G.unmarshal payload) [
      | none ↦ (none, w)
      | some msg ↦ if is_heartbeat msg.cmd then (none, w) else check_limit lk msg w
    ]

  -- OnlineUserHandler: the gauge by business.
  abbrev pub gauge : ℤ → List (ℤ × ℤ) → ℤ
  gauge biz counter = elim (lookup biz counter) [ none ↦ pos 0 | some n ↦ n ]

  unfoldable pub count_online : Link → List (ℤ × ℤ) → List (ℤ × ℤ)
  count_online lk counter = insert (biz_of lk) (gauge (biz_of lk) counter +ℤ pos 1) counter

  unfoldable pub count_offline : Link → List (ℤ × ℤ) → List (ℤ × ℤ)
  count_offline lk counter = insert (biz_of lk) (gauge (biz_of lk) counter +ℤ negsuc 0) counter

  -- UserActionHandler: `produce` sends an event of a user, `true` for coming online; a failure is
  -- only logged.
  module _ (produce : Link → Bool → World → Option Error × World) where
    unfoldable pub announce_online : Link → World → Option Error × World
    announce_online lk w = (none, (produce lk true w).1)

    unfoldable pub announce_offline : Link → World → Option Error × World
    announce_offline lk w = (none, (produce lk false w).1)
