-- ===== src/Limiter/Overflow.antt =====
-- internal/limiter/connection_limiter.go: steps that overflow the sum in `StartRampUp`.
use ws_gateway.Common.{ℕ, zero, suc, ◌+◌, ◌-◌, ◌≤◌, ◌<◌, ◌≡◌, ◌∙◌, ap, List, [], ◌∷◌, arith}
use ws_gateway.Common.Int.{ℤ, pos, negsuc, pos_part, half64, mod64, add64_over}
use ws_gateway.Limiter.{
  Limiter, put, acquire, waiting, adding, next_capacity, on_tick, ramp_on, Event, acquires, ticks,
  ramps, step, run,
}

-- A tick at capacity `c` whose sum with the step passes the largest int64 asks for the whole step
-- of tokens and aims at a negative capacity.
pub on_tick_over :
    (c m k : ℕ) (l : Limiter)
    → l.current_capacity ≡ pos c
    → l.max_capacity ≡ pos m
    → l.increase_step ≡ pos k
    → c < m
    → m < half64
    → k < half64
    → half64 ≤ c + k
    → on_tick l ≡ adding k (negsuc (mod64 - 1 - (c + k)))
unfolding on_tick next_capacity
on_tick_over c m k l ec em ek low fm fk over =
    rw (ec, em, ek)
      (rw ((add64_over c k (omega arith) fk over).0) (
        ground (
          arith,
          (add64_over c k (omega arith) fk over).0,
          (add64_over c k (omega arith) fk over).1,
        )))

-- The goroutine sends a token, and a connection takes it, so many times.
abbrev pub pairs : ℕ → List Event
pairs zero = []
pairs (suc n) = ramps ∷ acquires ∷ pairs n

pair_lem :
    (n d : ℕ) (t : ℤ) (l : Limiter)
    → l.tokens ≡ 0
    → 0 < pos_part l.max_capacity
    → run (ramps ∷ acquires ∷ []) (record { limiter = l; ramp = adding (suc n) t; held = d })
      ≡ record { limiter = l; ramp = adding n t; held = d + 1 }
unfolding run step ramp_on put acquire
pair_lem n d t l e h = ground arith

pairs_lem :
    (n d : ℕ) (t : ℤ) (l : Limiter)
    → l.tokens ≡ 0
    → 0 < pos_part l.max_capacity
    → (run (pairs n) (record { limiter = l; ramp = adding n t; held = d })).held ≡ d + n
unfolding run
pairs_lem zero d t l e h = omega arith
pairs_lem (suc n) d t l e h =
    ap (λ s. (run (pairs n) s).held) (pair_lem n d t l e h)
    ∙ (pairs_lem n (d + 1) t l e h ∙ omega arith)

-- If the capacity `c` is below the maximum `m`, and the sum of `c` and the step `k` passes the
-- largest int64, which neither `m` nor `k` does, a tick that finds all `c` tokens taken leads to `c
-- + k` connections, more than the maximum.
pub limit_lost :
    (c m k : ℕ) (l : Limiter)
    → l.current_capacity ≡ pos c
    → l.max_capacity ≡ pos m
    → l.increase_step ≡ pos k
    → c < m
    → m < half64
    → k < half64
    → half64 ≤ c + k
    → l.tokens ≡ 0
    → ((run (ticks ∷ pairs k) (record { limiter = l; ramp = waiting; held = c })).held ≡ c + k)
      × (m < c + k)
unfolding run step
limit_lost c m k l ec em ek low fm fk over none_left = (
  ap (λ r. (run (pairs k) (record { limiter = l; ramp = r; held = c })).held)
        (on_tick_over c m k l ec em ek low fm fk over)
      ∙ pairs_lem k c (negsuc (mod64 - 1 - (c + k))) l none_left (ground arith),
  omega arith,
)
