-- ===== src/Limiter/Capacity.antt =====
-- internal/limiter/connection_limiter.go: the tokens in the channel, in use and still to come.
use ws_gateway.Common.{
  ℕ, zero, suc, ◌+◌, ◌-◌, ◌≤◌, ◌<◌, ◌≡◌, refl, ◌⊎◌, inl, inr, ◌&&◌, true, false, List, [], ◌∷◌,
  arith, if◌then◌else◌, ltb, leb, Bool-cases,
}
use ws_gateway.Common.Int.{
  ℤ, pos, pos_part, ◌≤ℤ◌, ◌<ℤ◌, ltb_ℤ, leb_ℤ, half64, add64_small, sub64_small, pos_of_nonneg,
}
use ws_gateway.Limiter.{
  Config, Limiter, ConfigError, refused, created, put, fill, new_token_limiter, max_not_positive,
  initial_negative, initial_above_max, step_not_positive, interval_not_positive, acquire, release,
  close, Ramp, waiting, adding, returned, next_capacity, on_tick, System, ramp_on, Event, acquires,
  releases, ticks, ramps, cancels, closes, step, run, launched,
}

-- The sends that the ramp-up goroutine still has to make, and the capacity it makes them for.
abbrev pub pending : Ramp → ℕ
pending (adding n t) = n
pending _ = 0

abbrev pub goal : Ramp → ℤ → ℤ
goal (adding n t) c = t
goal _ c = c

-- A configuration that `NewTokenLimiter` accepts and whose sums fit into an int64.
pub record IsFit (c : Config) : Type 0 where
  pub initial_nonneg : pos 0 ≤ℤ c.initial_capacity
  pub initial_le_max : c.initial_capacity ≤ℤ c.max_capacity
  pub step_pos : pos 0 <ℤ c.increase_step
  pub interval_pos : pos 0 <ℤ c.increase_interval
  pub max_pos : pos 0 <ℤ c.max_capacity
  pub fits : pos_part c.max_capacity + pos_part c.increase_step < half64

-- Every token is in the channel, in a connection's hands, or still to be sent.
pub record IsAccounted (s : System) : Type 0 where
  pub fit : IsFit s.limiter.config
  pub nonneg : pos 0 ≤ℤ s.limiter.current_capacity
  pub accounted :
      pos (s.limiter.tokens + s.held + pending s.ramp) ≡ goal s.ramp s.limiter.current_capacity
  pub rising : s.limiter.current_capacity ≤ℤ goal s.ramp s.limiter.current_capacity
  pub bounded : goal s.ramp s.limiter.current_capacity ≤ℤ s.limiter.max_capacity

-- A tick below the maximum aims at the capacity plus one step, cut off at the maximum.
pub next_capacity_lem :
    (c m k : ℕ) (l : Limiter)
    → l.current_capacity ≡ pos c
    → l.max_capacity ≡ pos m
    → l.increase_step ≡ pos k
    → c ≤ m
    → m + k < half64
    → next_capacity l ≡ pos (if ltb m (c + k) then m else c + k)
unfolding next_capacity
next_capacity_lem c m k l ec em ek h u =
    rw (ec, em, ek) (rw (add64_small c k (omega arith)) (ground arith))

abbrev pub raised : ℕ → ℕ → ℕ → ℕ
raised c m k = if ltb m (c + k) then m else c + k

pub on_tick_lem :
    (c m k : ℕ) (l : Limiter)
    → l.current_capacity ≡ pos c
    → l.max_capacity ≡ pos m
    → l.increase_step ≡ pos k
    → c ≤ m
    → m + k < half64
    → on_tick l ≡ (if leb m c then returned else adding (raised c m k - c) (pos (raised c m k)))
unfolding on_tick
on_tick_lem c m k l ec em ek h u =
    rw (next_capacity_lem c m k l ec em ek h u, ec, em)
      (rw (sub64_small (raised c m k) c (ground arith) (ground arith)) (ground arith))

tick-IsAccounted : (s : System) → IsAccounted s → IsAccounted (step ticks s)
unfolding step
tick-IsAccounted s h = ground (
  arith,
  on_tick_lem (pos_part s.limiter.current_capacity) (pos_part s.limiter.max_capacity)
      (pos_part s.limiter.increase_step) s.limiter,
  pos_of_nonneg s.limiter.current_capacity,
  pos_of_nonneg s.limiter.max_capacity,
  pos_of_nonneg s.limiter.increase_step,
)

pub step-IsAccounted : (e : Event) (s : System) → IsAccounted s → IsAccounted (step e s)
unfolding step acquire release close put ramp_on
step-IsAccounted acquires s h = ground arith
step-IsAccounted releases s h = ground arith
step-IsAccounted ticks s h = tick-IsAccounted s h
step-IsAccounted ramps s h = ground arith
step-IsAccounted cancels s h = ground arith
step-IsAccounted closes s h = ground arith

pub run-IsAccounted : (es : List Event) (s : System) → IsAccounted s → IsAccounted (run es s)
unfolding run
run-IsAccounted [] s h = h
run-IsAccounted (e ∷ es) s h = run-IsAccounted es (step e s) (step-IsAccounted e s h)

abbrev pub filled : Config → Limiter
filled c = record {
  config = c;
  current_capacity = c.initial_capacity;
  tokens = pos_part c.initial_capacity;
  cancelled = false;
}

fill_lem :
    (n : ℕ) (l : Limiter)
    → l.tokens + n ≤ pos_part l.max_capacity
    → fill n l ≡ created (record l { tokens = l.tokens + n; current_capacity = l.initial_capacity })
unfolding fill put
fill_lem zero l h = ground arith
fill_lem (suc n) l h = ground (arith, fill_lem n (record l { tokens = l.tokens + 1 }))

-- What `NewTokenLimiter` asks of a configuration.
pub record IsValid (c : Config) : Type 0 where
  pub max_pos : pos 0 <ℤ c.max_capacity
  pub initial_nonneg : pos 0 ≤ℤ c.initial_capacity
  pub initial_le_max : c.initial_capacity ≤ℤ c.max_capacity
  pub step_pos : pos 0 <ℤ c.increase_step
  pub interval_pos : pos 0 <ℤ c.increase_interval

empty_limiter : Config → Limiter
empty_limiter c = record { config = c; current_capacity = pos 0; tokens = 0; cancelled = false }

valid_created : (c : Config) → IsValid c → new_token_limiter c ≡ created (filled c)
unfolding new_token_limiter empty_limiter
valid_created c v = ground (arith, fill_lem (pos_part c.initial_capacity) (empty_limiter c))

invalid_refused :
    (c : Config) → (IsValid c → ⊥) → (e : ConfigError) × (new_token_limiter c ≡ refused e)
unfolding new_token_limiter
invalid_refused c bad = elim (Bool-cases (leb_ℤ c.max_capacity (pos 0))) [
  | inl p ↦ (max_not_positive, rw p)
  | inr p ↦ elim (Bool-cases (ltb_ℤ c.initial_capacity (pos 0))) [
    | inl q ↦ (initial_negative, rw (p, q))
    | inr q ↦ elim (Bool-cases (ltb_ℤ c.max_capacity c.initial_capacity)) [
      | inl r ↦ (initial_above_max, rw (p, q, r))
      | inr r ↦ elim (Bool-cases (leb_ℤ c.increase_step (pos 0))) [
        | inl u ↦ (step_not_positive, rw (p, q, r, u))
        | inr u ↦ elim (Bool-cases (leb_ℤ c.increase_interval (pos 0))) [
          | inl v ↦ (interval_not_positive, rw (p, q, r, u, v))
          | inr v ↦ absurd (bad (ground arith))
        ]
      ]
    ]
  ]
]

decide-IsValid : (c : Config) → IsValid c ⊎ (IsValid c → ⊥)
decide-IsValid c =
    elim (Bool-cases (
      ltb_ℤ (pos 0) c.max_capacity
      && leb_ℤ (pos 0) c.initial_capacity
      && leb_ℤ c.initial_capacity c.max_capacity
      && ltb_ℤ (pos 0) c.increase_step
      && ltb_ℤ (pos 0) c.increase_interval)) [
        | inl h ↦ inl (ground arith)
        | inr h ↦ inr λ v. ground arith
      ]

-- `NewTokenLimiter` never blocks: either the configuration is valid, and it makes a limiter that holds
-- its initial tokens, or the configuration is not valid, and it returns an error.
pub new_token_limiter_lem :
    (c : Config)
    → (IsValid c × (new_token_limiter c ≡ created (filled c)))
      ⊎ ((IsValid c → ⊥) × (e : ConfigError) × (new_token_limiter c ≡ refused e))
new_token_limiter_lem c = elim (decide-IsValid c) [
  | inl v ↦ inl (v, valid_created c v)
  | inr bad ↦ inr (bad, (invalid_refused c bad).0, (invalid_refused c bad).1)
]

pub launched-IsAccounted : (c : Config) → IsFit c → IsAccounted (launched (filled c))
unfolding launched
launched-IsAccounted c h = ground arith

-- From a fit configuration (a valid one in which the maximum and the step together fit in an
-- int64), however acquires, releases by holders, ticks, sends, cancellations and closings
-- interleave, at most `MaxCapacity` connections hold a token.
pub held_bounded :
    (c : Config) (es : List Event)
    → IsFit c
    → pos (run es (launched (filled c))).held ≤ℤ (run es (launched (filled c))).limiter.max_capacity
held_bounded c es h =
    let a : IsAccounted (run es (launched (filled c))) =
      run-IsAccounted es (launched (filled c)) (launched-IsAccounted c h) in
    ground arith

-- In every accounted state, where tokens, held tokens and those that the ramp still has to send add
-- up to the capacity, a connection that holds a token gives it back without loss.
pub never_full : (s : System) → IsAccounted s → 0 < s.held → (release s.limiter).1 ≡ true
unfolding release put
never_full s h u = ground arith

-- Where the ramp-up goroutine stands after its next statement, if nothing blocks it.
abbrev pub ramp_after : Ramp → Ramp
ramp_after waiting = waiting
ramp_after (adding zero t) = waiting
ramp_after (adding (suc n) t) = adding n t
ramp_after returned = returned

ramp_on-ramp :
    (r : Ramp) (s : System) → s.ramp ≡ r → IsAccounted s → (ramp_on r s).ramp ≡ ramp_after r
unfolding ramp_on put
ramp_on-ramp waiting s e h = e
ramp_on-ramp returned s e h = e
ramp_on-ramp (adding zero t) s e h = refl
ramp_on-ramp (adding (suc n) t) s e h = ground arith

-- In every accounted state the next statement of the ramp-up goroutine does not block: a send finds
-- room in the channel.
pub never_stuck : (s : System) → IsAccounted s → (ramp_on s.ramp s).ramp ≡ ramp_after s.ramp
never_stuck s h = ramp_on-ramp s.ramp s refl h
