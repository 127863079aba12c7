-- ===== src/Limiter.antt =====
-- internal/limiter/connection_limiter.go: the token limiter and its ramp-up goroutine.
-- The channel of empty structs is its number of elements; a send on a full channel blocks. The loop
-- of `StartRampUp` is a state machine whose steps the other goroutines' calls may come between.
-- Time is the ticks that arrive; logging is left out.
pub mod Capacity
pub mod Rounds
pub mod Overflow
pub mod Tests
use ws_gateway.Common.{
  ℕ, zero, suc, ◌+◌, ◌-◌, ◌≡◌, Bool, true, false, Option, none, some, List, [], ◌∷◌, if◌then◌else◌,
  ltb,
}
use ws_gateway.Common.Int.{ℤ, pos, pos_part, ltb_ℤ, leb_ℤ, add64, sub64}

pub record Config : Type 0 where
  pub initial_capacity : ℤ
  pub max_capacity : ℤ
  pub increase_step : ℤ
  pub increase_interval : ℤ

pub record Limiter : Type 0 where
  pub config : Config
  pub open config use *
  pub current_capacity : ℤ
  -- len(tokens); cap(tokens) is `max_capacity`.
  pub tokens : ℕ
  -- The inner context was cancelled.
  pub cancelled : Bool

pub data ConfigError : Type 0 where
  max_not_positive initial_negative initial_above_max step_not_positive interval_not_positive :
      ConfigError

-- What `NewTokenLimiter` does: an error, a limiter, or a send that blocks for ever.
pub data Creation : Type 0 where
  refused : ConfigError → Creation
  created : Limiter → Creation
  stuck : Creation

-- `tokens <- struct{}{}`; `none` blocks.
unfoldable pub put : Limiter → Option Limiter
put l =
    if ltb l.tokens (pos_part l.max_capacity)
    then some (record l { tokens = l.tokens + 1 })
    else none

-- The loop that fills in the first tokens, by the tokens left to put.
pub fill : ℕ → Limiter → Creation
unfolding put
fill zero l = created (record l { current_capacity = l.initial_capacity })
fill (suc n) l = elim (put l) [ none ↦ stuck | some l' ↦ fill n l' ]

unfoldable pub new_token_limiter : Config → Creation
new_token_limiter c =
    if leb_ℤ c.max_capacity (pos 0)
    then refused max_not_positive
    else if ltb_ℤ c.initial_capacity (pos 0)
    then refused initial_negative
    else if ltb_ℤ c.max_capacity c.initial_capacity
    then refused initial_above_max
    else if leb_ℤ c.increase_step (pos 0)
    then refused step_not_positive
    else if leb_ℤ c.increase_interval (pos 0)
    then refused interval_not_positive
    else fill (pos_part c.initial_capacity)
        (record { config = c; current_capacity = pos 0; tokens = 0; cancelled = false })

unfoldable pub acquire : Limiter → Limiter × Bool
acquire l = if ltb 0 l.tokens then (record l { tokens = l.tokens - 1 }, true) else (l, false)

unfoldable pub release : Limiter → Limiter × Bool
release l = elim (put l) [ none ↦ (l, false) | some l' ↦ (l', true) ]

unfoldable pub close : Limiter → Limiter
close l = record l { cancelled = true }

-- Where the ramp-up goroutine stands: at its `select`, in the loop with so many sends left before
-- it stores the new capacity, or returned.
pub data Ramp : Type 0 where
  waiting : Ramp
  adding : ℕ → ℤ → Ramp
  returned : Ramp

-- The capacity that a tick aims at.
unfoldable pub next_capacity : Limiter → ℤ
next_capacity l =
    let sum = add64 l.current_capacity l.increase_step in
    if ltb_ℤ l.max_capacity sum then l.max_capacity else sum

-- A tick of the ticker, up to the loop of sends.
unfoldable pub on_tick : Limiter → Ramp
on_tick l =
    if leb_ℤ l.max_capacity l.current_capacity
    then returned
    else adding (pos_part (sub64 (next_capacity l) l.current_capacity)) (next_capacity l)

-- A limiter, its ramp-up goroutine, and the tokens that connections hold.
pub record System : Type 0 where
  pub limiter : Limiter
  pub ramp : Ramp
  pub held : ℕ

-- The ramp-up goroutine moves on by one statement, if it can.
unfoldable pub ramp_on : Ramp → System → System
unfolding put
ramp_on waiting s = s
ramp_on returned s = s
ramp_on (adding zero target) s = record s {
  limiter = record (s.limiter) { current_capacity = target };
  ramp = waiting;
}
ramp_on (adding (suc n) target) s = elim (put s.limiter) [
  | none ↦ s
  | some l ↦ record s { limiter = l; ramp = adding n target }
]

-- What may happen next: a connection asks for a token or gives one back, a tick arrives, the
-- goroutine goes on, its outer context is done, `Close` is called.
pub data Event : Type 0 where
  acquires releases ticks ramps cancels closes : Event

abbrev pub on_waiting : Ramp → Ramp → Ramp
on_waiting waiting next = next
on_waiting other next = other

unfoldable pub step : Event → System → System
step acquires s =
    let (l, taken) = acquire s.limiter in
    record s { limiter = l; held = if taken then s.held + 1 else s.held }
step releases s =
    if ltb 0 s.held then record s { limiter = (release s.limiter).0; held = s.held - 1 } else s
step ticks s = record s { ramp = on_waiting s.ramp (on_tick s.limiter) }
step ramps s = ramp_on s.ramp s
step cancels s = record s { ramp = on_waiting s.ramp returned }
step closes s = record s { limiter = close s.limiter }

unfoldable pub run : List Event → System → System
run [] s = s
run (e ∷ es) s = run es (step e s)

-- A limiter at its start: the goroutine waits and nobody holds a token.
unfoldable pub launched : Limiter → System
launched l = record { limiter = l; ramp = waiting; held = 0 }
