-- ===== src/Limiter/Rounds.antt =====
-- internal/limiter/connection_limiter.go: what one tick of `StartRampUp` does when no other goroutine
-- comes between, and how the capacity grows.
use ws_gateway.Common.{
  ℕ, zero, suc, ◌+◌, ◌-◌, ◌*◌, ◌≤◌, ◌<◌, ◌≡◌, refl, ap, ◌∙◌, min, true, some, List, [], ◌∷◌, arith,
}
use ws_gateway.Common.Int.{ℤ, pos, pos_part, half64, leb_ℤ}
use native.Mathlib.Decide.{dec_lt}
use ws_gateway.Limiter.{
  Limiter, put, Ramp, waiting, adding, returned, on_tick, System, ramp_on, Event, ticks, ramps,
  step, run,
}
use ws_gateway.Limiter.Capacity.{raised, on_tick_lem, pending}

abbrev pub sends : ℕ → List Event
sends zero = ramps ∷ []
sends (suc n) = ramps ∷ sends n

-- A tick, the sends that it asks for, and the store of the new capacity.
abbrev pub round : System → System
round s = run (ticks ∷ sends (pending (on_tick s.limiter))) s

abbrev pub rounds : ℕ → System → System
rounds zero s = s
rounds (suc n) s = rounds n (round s)

put_room :
    (l : Limiter)
    → l.tokens < pos_part l.max_capacity
    → put l ≡ some (record l { tokens = l.tokens + 1 })
unfolding put
put_room l h = ground arith

at_ramp : Limiter → Ramp → ℕ → System
at_ramp l r d = record { limiter = l; ramp = r; held = d }

step_put :
    (n d : ℕ) (t : ℤ) (l : Limiter)
    → l.tokens < pos_part l.max_capacity
    → step ramps (at_ramp l (adding (suc n) t) d)
      ≡ at_ramp (record l { tokens = l.tokens + 1 }) (adding n t) d
unfolding step ramp_on at_ramp
step_put n d t l h = ground (arith, put_room l)

sends_lem :
    (n d : ℕ) (t : ℤ) (l : Limiter)
    → l.tokens + n ≤ pos_part l.max_capacity
    → run (sends n) (record { limiter = l; ramp = adding n t; held = d }) ≡ record {
      limiter = record l { tokens = l.tokens + n; current_capacity = t };
      ramp = waiting;
      held = d;
    }
unfolding run step ramp_on at_ramp
sends_lem zero d t l h = ground arith
sends_lem (suc n) d t l h =
    ap (run (sends n)) (step_put n d t l (omega arith))
    ∙ (sends_lem n d t (record l { tokens = l.tokens + 1 }) (omega arith) ∙ ground arith)

-- One round raises the capacity by a step, cut off at the maximum, and adds that many tokens.
pub round_lem :
    (c m k d : ℕ) (l : Limiter)
    → l.current_capacity ≡ pos c
    → l.max_capacity ≡ pos m
    → l.increase_step ≡ pos k
    → c < m
    → m + k < half64
    → l.tokens ≤ c
    → round (record { limiter = l; ramp = waiting; held = d }) ≡ record {
      limiter = record l {
        tokens = l.tokens + (raised c m k - c);
        current_capacity = pos (raised c m k);
      };
      ramp = waiting;
      held = d;
    }
unfolding run step
round_lem c m k d l ec em ek lt fits le =
    let tick : on_tick l ≡ adding (raised c m k - c) (pos (raised c m k)) =
      ground (arith, on_tick_lem c m k l ec em ek) in
    (λ i. run (sends (pending (tick i))) (record { limiter = l; ramp = tick i; held = d }))
    ∙ (sends_lem (raised c m k - c) d (pos (raised c m k)) l (ground arith))

-- At the maximum the goroutine returns, and later rounds change nothing.
module _ (d : ℕ) (l : Limiter) (top : leb_ℤ l.max_capacity l.current_capacity ≡ true) where
  done : on_tick l ≡ returned
  unfolding on_tick
  done = ground arith

  round_waiting : round (at_ramp l waiting d) ≡ at_ramp l returned d
  unfolding run step ramp_on at_ramp
  round_waiting =
      λ i. run (sends (pending (done i))) (record { limiter = l; ramp = done i; held = d })

  round_returned : round (at_ramp l returned d) ≡ at_ramp l returned d
  unfolding run step ramp_on at_ramp
  round_returned = λ i. run (sends (pending (done i))) (at_ramp l returned d)

  rounds_returned : (n : ℕ) → rounds n (at_ramp l returned d) ≡ at_ramp l returned d
  rounds_returned zero = refl
  rounds_returned (suc n) = ap (rounds n) round_returned ∙ rounds_returned n

  rounds_top : (n : ℕ) → (rounds n (at_ramp l waiting d)).limiter ≡ l
  unfolding at_ramp
  rounds_top zero = refl
  rounds_top (suc n) =
      ap (λ s. (rounds n s).limiter) round_waiting ∙ ap (λ s. s.limiter) (rounds_returned n)

-- When the capacity `c` is at most the maximum `m`, the channel holds at most `c` tokens, and `m`
-- plus the step `k` fits in an int64, then after `n` undisturbed rounds the capacity is `c + n *
-- k`, cut off at `m`.
pub rounds_lem :
    (n c m k d : ℕ) (l : Limiter)
    → l.current_capacity ≡ pos c
    → l.max_capacity ≡ pos m
    → l.increase_step ≡ pos k
    → c ≤ m
    → m + k < half64
    → l.tokens ≤ c
    → (rounds n (record { limiter = l; ramp = waiting; held = d })).limiter.current_capacity
      ≡ pos (min (c + n * k) m)
unfolding at_ramp
rounds_lem zero c m k d l ec em ek le fits room = ec ∙ ap pos (omega arith)
rounds_lem (suc n) c m k d l ec em ek le fits room = elim (dec_lt c m) [
  | no high ↦
      ap (λ x. x.current_capacity) (rounds_top d l (ground arith) (suc n))
      ∙ ec
      ∙ ap pos (omega arith)
  | yes low ↦
      ap (λ s. (rounds n s).limiter.current_capacity) (round_lem c m k d l ec em ek low fits room)
      ∙ rounds_lem n (raised c m k) m k d
          (record l {
            tokens = l.tokens + (raised c m k - c);
            current_capacity = pos (raised c m k);
          })
          refl em ek (ground arith) fits (ground arith)
      ∙ ap pos (ground arith)
]
