-- ===== src/Limiter/Tests.antt =====
-- internal/limiter/connection_limiter.go: runs of the limiter, and the theorems at concrete inputs.
use ws_gateway.Common.{◌+◌, ◌<◌, ◌≡◌, refl, false, List, [], ◌∷◌, arith}
use ws_gateway.Common.Int.{pos, ◌≤ℤ◌, ◌+ℤ◌, ◌-ℤ◌, wrap64}
use ws_gateway.Limiter.{
  Config, Limiter, refused, initial_above_max, put, new_token_limiter, acquire, release, waiting,
  next_capacity, on_tick, ramp_on, Event, acquires, releases, ticks, ramps, step, run, launched,
}
use ws_gateway.Limiter.Capacity.{
  IsFit, IsAccounted, filled, held_bounded, step-IsAccounted, launched-IsAccounted,
}
use ws_gateway.Limiter.Overflow.{pairs, limit_lost}

abbrev small : Config
small = record {
  initial_capacity = pos 1;
  max_capacity = pos 4;
  increase_step = pos 2;
  increase_interval = pos 1;
}

small-IsFit : IsFit small
small-IsFit = omega arith

abbrev busy : List Event
busy = acquires ∷ acquires ∷ ticks ∷ ramps ∷ acquires ∷ ramps ∷ releases ∷ ramps ∷ acquires ∷ []

busy-run :
    ((run busy (launched (filled small))).held ≡ 2)
    × ((run busy (launched (filled small))).limiter.current_capacity ≡ pos 3)
unfolding run step acquire release put on_tick next_capacity ramp_on launched wrap64 ◌+ℤ◌ ◌-ℤ◌
busy-run = (refl, refl)

too_large :
    new_token_limiter (record small { initial_capacity = pos 5 }) ≡ refused initial_above_max
unfolding new_token_limiter
too_large = refl

held_bounded_example :
    pos (run busy (launched (filled small))).held
    ≤ℤ (run busy (launched (filled small))).limiter.max_capacity
held_bounded_example = held_bounded small busy small-IsFit

one_held : IsAccounted (step acquires (launched (filled small)))
one_held = step-IsAccounted acquires _ (launched-IsAccounted small small-IsFit)

-- The largest int64 as the step passes the checks of `NewTokenLimiter`.
abbrev steep : Limiter
steep = record {
  config = record small { increase_step = pos 9223372036854775807 };
  current_capacity = pos 1;
  tokens = 0;
  cancelled = false;
}

limit_lost_example :
    ((run
        (ticks ∷ pairs 9223372036854775807)
        (record { limiter = steep; ramp = waiting; held = 1 })).held
      ≡ 1 + 9223372036854775807)
    × (4 < 1 + 9223372036854775807)
limit_lost_example =
    limit_lost 1 4 9223372036854775807 steep refl refl refl (omega arith) (omega arith)
      (omega arith) (omega arith) refl
