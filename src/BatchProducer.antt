-- ===== src/BatchProducer.antt =====
-- internal/event/batch_send_to_backend.go: upstream messages gathered into one message of the queue.
-- A request's `ErrChan` is a channel with one place, the entry under its number in `chans`; the loop
-- `oneLoop` is taken iteration by iteration, with the callers' steps between. Sleeping is left out; what
-- happens when the loop's context is done is not modelled.
pub mod Rounds
pub mod Tests
use ws_gateway.Common.{
  ℕ, zero, suc, Bool, true, false, Option, none, some, List, [], ◌∷◌, ◌++◌, map, if◌then◌else◌,
  is_some, ltb, length,
}
use ws_gateway.Common.Keys.{Text, nat_eq}
use ws_gateway.Common.Map.{lookup, insert, delete}

-- `batchReq`
pub record Request (M : Type 0) : Type 0 where
  pub msg : M
  pub err_chan : ℕ

pub record Producer (M W : Type 0) : Type 0 where
  -- The channel `req`, of ten places.
  pub req : List (Request M)
  -- The local variable of `oneLoop`.
  pub reqs : List (Request M)
  -- Whether the error in a channel is one.
  pub chans : List (ℕ × Bool)
  pub world : W

pub data Event (M : Type 0) : Type 0 where
  -- `Produce` sends its request, and later reads its channel.
  produces : Request M → Event M
  reads : ℕ → Event M
  iterates : Event M

-- The deferred loop of `process`; `none` blocks on a full channel.
unfoldable pub report :
    {M : Type 0} → List (Request M) → Bool → List (ℕ × Bool) → Option (List (ℕ × Bool))
report [] failed chans = some chans
report (q ∷ qs) failed chans =
    if is_some (lookup q.err_chan chans)
    then none
    else report qs failed (insert q.err_chan failed chans)

module _ {M W : Type 0} (marshal : List M → Option Text) (publish : Text → W → Bool × W) where
  -- What marshalling and sending come to: whether they failed.
  unfoldable pub publish_all : List M → W → Bool × W
  publish_all msgs w = elim (marshal msgs) [ none ↦ (true, w) | some bytes ↦ publish bytes w ]

  unfoldable pub process : Producer M W → Option (Producer M W)
  process p =
      let r = publish_all (map (λ q. q.msg) p.reqs) p.world in
      elim (report p.reqs r.0 p.chans) [
        | none ↦ none
        | some chans ↦ some (record p { chans = chans; world = r.1 })
      ]

  -- One iteration of `oneLoop`, by what is in `req`. Both outcomes of the test of the batch's size go on
  -- with the next iteration.
  unfoldable pub iterate : List (Request M) → Producer M W → Option (Producer M W)
  iterate [] p = process p
  iterate (q ∷ qs) p = some (record p { req = qs; reqs = p.reqs ++ q ∷ [] })

  unfoldable pub step : Event M → Producer M W → Option (Producer M W)
  step (produces q) p =
      some (if ltb (length p.req) 10 then record p { req = p.req ++ q ∷ [] } else p)
  step (reads ch) p = some (record p { chans = delete ch p.chans })
  step iterates p = iterate p.req p

  -- `none` is a loop that blocks.
  unfoldable pub run : List (Event M) → Producer M W → Option (Producer M W)
  run [] p = some p
  run (e ∷ es) p = elim (step e p) [ none ↦ none | some p' ↦ run es p' ]
