-- ===== src/Coordinator.antt =====
-- internal/linkevent/coordinator.go: requests of one business are gathered into a batch, and a batch
-- is sent to the backend as one call. A goroutine's step between two uses of a lock is one function;
-- `running` holds the batches that were removed from the map and wait for the backend.
-- The result channel of a request is its entry in `results`. The clock is not modelled: a timer is
-- armed or not. The backend call (`Processor`) is a parameter. Logging is left out.
pub mod Delivery
pub mod Places
pub mod Conservation
pub mod History
pub mod Threshold
pub mod Tests
use ws_gateway.Common.{
  ℕ, zero, suc, ◌+◌, Bool, true, false, not, ◌&&◌, ◌||◌, Option, none, some, List, [], ◌∷◌, ◌++◌,
  map, if◌then◌else◌, is_some, ◌==◌, length,
}
use ws_gateway.Common.Int.{ℤ, pos, leb_ℤ}
use ws_gateway.Common.Keys.{Text, ◌=?◌, int_eq, nat_eq}
use ws_gateway.Common.Map.{lookup, insert, delete}
use ws_gateway.Errors.{Error, Result, ok, err, coordinator_stopped, response_mismatch}

-- The i-th element and the list without it.
abbrev pub take_at : {A : Type 0} → ℕ → List A → Option (A × List A)
take_at n [] = none
take_at zero (x ∷ xs) = some (x, xs)
take_at (suc n) (x ∷ xs) =
    let rest = take_at n xs in elim rest [ none ↦ none | some (y, ys) ↦ some (y, x ∷ ys) ]

-- The list without the first occurrence of a number.
abbrev pub drop_one : ℤ → List ℤ → List ℤ
drop_one b [] = []
drop_one b (x ∷ xs) = if x =? b then xs else x ∷ drop_one b xs

abbrev pub elem : ℤ → List ℤ → Bool
elem b [] = false
elem b (x ∷ xs) = if x =? b then true else elem b xs

-- `M` is a request to the backend and `R` its response; `W` is all that the backend keeps.
pub record Request (M : Type 0) : Type 0 where
  pub message : M
  pub link_id : Text
  -- `ResultChan`: a buffered channel of one place.
  pub result_chan : ℕ

pub record Batch (M : Type 0) : Type 0 where
  pub biz_id : ℤ
  pub requests : List (Request M)
  pub armed : Bool
  pub closed : Bool

pub record Coordinator (M R W : Type 0) : Type 0 where
  pub batches : List (ℤ × Batch M)
  pub stopped : Bool
  -- `stopCh` is closed.
  pub stop_closed : Bool
  -- The calls of `Stop` that passed its first phase, and the goroutines that they started for the
  -- batches they found and that have not run.
  pub stopping : ℕ
  pub pending : List ℤ
  pub results : List (ℕ × Result R)
  pub next : ℕ
  -- The goroutines `go c.triggerBatch(bizID)` that have not run.
  pub spawned : List ℤ
  -- Batches on their way to the backend, and whether `Stop` waits for them.
  pub running : List (Bool × Batch M)
  pub world : W

pub data Event (M : Type 0) : Type 0 where
  receives : ℤ → Text → M → Event M
  timer_fires spawned_runs stop_triggers : ℤ → Event M
  settles : ℕ → Event M
  stop_begins stop_ends : Event M

abbrev pub own_running : {M : Type 0} → List (Bool × Batch M) → Bool
own_running [] = false
own_running ((own, b) ∷ rest) = own || own_running rest

-- Get or create the batch.
unfoldable pub batch_for : {M : Type 0} → ℤ → List (ℤ × Batch M) → Batch M
batch_for biz batches = elim (lookup biz batches) [
  | some b ↦ b
  | none ↦ record { biz_id = biz; requests = []; armed = true; closed = false }
]

module _ {M R : Type 0} where
  -- `select { case ch <- r: default: }`
  unfoldable pub offer : Request M → Result R → List (ℕ × Result R) → List (ℕ × Result R)
  offer req r results =
      if is_some (lookup req.result_chan results) then results else insert req.result_chan r results

  unfoldable pub distribute_error :
      List (Request M) → Error → List (ℕ × Result R) → List (ℕ × Result R)
  distribute_error [] e results = results
  distribute_error (req ∷ reqs) e results = distribute_error reqs e (offer req (err e) results)

  -- `none` is the panic of an index out of range.
  unfoldable pub distribute_results :
      List (Request M) → List R → List (ℕ × Result R) → Option (List (ℕ × Result R))
  distribute_results [] rs results = some results
  distribute_results (req ∷ reqs) [] results = none
  distribute_results (req ∷ reqs) (r ∷ rs) results =
      distribute_results reqs rs (offer req (ok r) results)

  -- The switch of `triggerBatch` on the backend's answer.
  unfoldable pub distribute :
      List (Request M) → Result (List R) → List (ℕ × Result R) → Option (List (ℕ × Result R))
  distribute reqs (err e) results = some (distribute_error reqs e results)
  distribute reqs (ok rs) results =
      if length rs == length reqs
      then distribute_results reqs rs results
      else some (distribute_error reqs (response_mismatch ∷ []) results)

module _ {M R W : Type 0} where
  unfoldable pub new_coordinator : W → Coordinator M R W
  new_coordinator w = record {
    batches = [];
    stopped = false;
    stop_closed = false;
    stopping = 0;
    pending = [];
    results = [];
    next = 0;
    spawned = [];
    running = [];
    world = w;
  }

  -- What the wait of `OnReceive` can return; both cases of the `select` may be ready.
  unfoldable pub await : ℕ → Coordinator M R W → List (Result R)
  await ch c =
      elim (lookup ch c.results) [ none ↦ [] | some r ↦ r ∷ [] ]
      ++ (if c.stop_closed then err (coordinator_stopped ∷ []) ∷ [] else [])

  -- The first part of `triggerBatch`, under the coordinator's lock; `own` says that `Stop` waits.
  unfoldable pub detach : Bool → ℤ → Coordinator M R W → Coordinator M R W
  detach own biz c = elim (lookup biz c.batches) [
    | none ↦ c
    | some b ↦ record c { batches = delete biz c.batches; running = c.running ++ (own, b) ∷ [] }
  ]

  -- A goroutine of `addToBatch` gets the lock.
  unfoldable pub run_spawned : ℤ → Coordinator M R W → Coordinator M R W
  run_spawned biz c = detach false biz (record c { spawned = drop_one biz c.spawned })

  -- The first phase of `Stop`.
  unfoldable pub begin_stop : Coordinator M R W → Coordinator M R W
  begin_stop c = if c.stopped then c else record c {
    stopped = true;
    stopping = suc c.stopping;
    pending = map (λ p. p.0) c.batches ++ c.pending;
  }

  -- A goroutine of the second phase gets the lock.
  unfoldable pub run_pending : ℤ → Coordinator M R W → Coordinator M R W
  run_pending biz c =
      if elem biz c.pending
      then detach true biz (record c { pending = drop_one biz c.pending })
      else c

  -- The last phase; `none` is the panic of closing `stopCh` twice.
  unfoldable pub close_stop : ℕ → Coordinator M R W → Option (Coordinator M R W)
  close_stop n c =
      if c.stop_closed
      then none
      else some (record c { stop_closed = true; batches = []; stopping = n })

  -- A call of `Stop` gets to its last phase once the goroutines are done that it waits for: those that
  -- have not run, and those whose batch is with the backend.
  unfoldable pub end_stop : ℕ → Coordinator M R W → Option (Coordinator M R W)
  end_stop zero c = some c
  end_stop (suc n) c =
      if length c.pending == 0 && not (own_running c.running) then close_stop n c else some c

module _ {M R W : Type 0} (process : ℤ → List M → W → Result (List R) × W) (batch_size : ℤ) where
  unfoldable pub add_to_batch : ℤ → Request M → Coordinator M R W → Coordinator M R W
  add_to_batch biz req c =
      if c.stopped
      then record c { results = offer req (err (coordinator_stopped ∷ [])) c.results }
      else let b : Batch M = batch_for biz c.batches in
        let b' : Batch M = record b { requests = b.requests ++ req ∷ [] } in
        record c {
          batches = insert biz b' c.batches;
          spawned =
              if leb_ℤ batch_size (pos (length b'.requests)) then biz ∷ c.spawned else c.spawned;
        }

  -- `OnReceive` up to its wait, for a call that found the coordinator running: a new request with an
  -- empty channel, added to a batch.
  unfoldable pub on_receive : ℤ → Text → M → Coordinator M R W → Coordinator M R W
  on_receive biz link message c =
      add_to_batch biz (record { message = message; link_id = link; result_chan = c.next })
        (record c { next = suc c.next })

  -- The second part of `triggerBatch`, under the batch's lock. The batch is dropped afterwards, with its
  -- timer, which is stopped, and its flag `closed`, which is set.
  unfoldable pub settle_batch : Batch M → Coordinator M R W → Option (Coordinator M R W)
  settle_batch b c =
      if b.closed || length b.requests == 0
      then some c
      else let (answer, w) = process b.biz_id (map (λ req. req.message) b.requests) c.world in
        elim (distribute b.requests answer c.results) [
          | none ↦ none
          | some results ↦ some (record c { results = results; world = w })
        ]

  -- The i-th batch on its way is answered.
  unfoldable pub settle : ℕ → Coordinator M R W → Option (Coordinator M R W)
  settle i c = elim (take_at i c.running) [
    | none ↦ some c
    | some (b, rest) ↦ settle_batch b.1 (record c { running = rest })
  ]

  unfoldable pub step : Event M → Coordinator M R W → Option (Coordinator M R W)
  step (receives biz link m) c = some (on_receive biz link m c)
  step (timer_fires biz) c = some (detach false biz c)
  step (spawned_runs biz) c = some (run_spawned biz c)
  step (stop_triggers biz) c = some (run_pending biz c)
  step (settles i) c = settle i c
  step stop_begins c = some (begin_stop c)
  step stop_ends c = end_stop c.stopping c

  -- `none` is a panic.
  unfoldable pub run : List (Event M) → Coordinator M R W → Option (Coordinator M R W)
  run [] c = some c
  run (e ∷ es) c = elim (step e c) [ none ↦ none | some c' ↦ run es c' ]
