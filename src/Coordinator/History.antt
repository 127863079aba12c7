-- ===== src/Coordinator/History.antt =====
-- internal/linkevent/coordinator.go: the requests over a whole run of the goroutines' steps.
use ws_gateway.Common.{
  ℕ, ◌+◌, ◌≤◌, ◌≡◌, refl, sym, subst, Bool, false, some, List, [], ◌∷◌, map, arith, length,
  get_elem?, Option-cases, inl, inr,
}
use ws_gateway.Common.Int.{ℤ}
use ws_gateway.Common.Keys.{nat_eq, int_eq}
use ws_gateway.Common.Map.{lookup, IsMap}
use ws_gateway.Errors.{Result}
use ws_gateway.Coordinator.{
  Request, Batch, Coordinator, Event, receives, timer_fires, spawned_runs, stop_triggers, settles,
  stop_begins, stop_ends, take_at, new_coordinator, run_spawned, settle, step, run,
}
use ws_gateway.Coordinator.Delivery.{count, answered, verdict}
use ws_gateway.Coordinator.Places.{
  in_batches, in_running, Open, OpenRunning, in_running-take, take-OpenRunning,
}
use ws_gateway.Coordinator.Conservation.{
  IsAccounted, Settled, new_coordinator-IsAccounted, detach-IsAccounted, begin_stop-IsAccounted,
  run_pending-IsAccounted, end_stop-Kept, Kept, on_receive-IsAccounted, settle_batch-Settled,
}

module _ {M R W : Type 0} (process : ℤ → List M → W → Result (List R) × W) (batch_size : ℤ) where
  bounded :
      (c : Coordinator M R W) (i : ℕ) (x : Bool × Batch M) (rest : List (Bool × Batch M))
      → IsAccounted c
      → take_at i c.running ≡ some (x, rest)
      → (ch : ℕ) → count ch x.1.requests + answered ch c.results ≤ 1
  bounded c i x rest h e ch = ground (arith, h.once ch, in_running-take ch i c.running rest x e)

  settled :
      (c : Coordinator M R W) (i : ℕ) (x : Bool × Batch M) (rest : List (Bool × Batch M))
      → IsAccounted c
      → take_at i c.running ≡ some (x, rest)
      → Settled process batch_size x.1 (record c { running = rest })
  settled c i x rest h e =
      settle_batch-Settled process batch_size x.1 (record c { running = rest })
        (take-OpenRunning i c.running rest x e h.started).0 (bounded c i x rest h e)

  -- When the `i`-th batch on its way is answered, in a state where every request is accounted for,
  -- nothing panics, and the request at place `j` of the batch finds in its channel what the backend
  -- owes it: the `j`-th response; the backend's error; or the mismatch error, if the backend returned
  -- another number of responses than there were requests.
  pub settle_lem :
      (c : Coordinator M R W) (i j : ℕ) (own : Bool) (b : Batch M) (rest : List (Bool × Batch M))
      (req : Request M)
      → IsAccounted c
      → take_at i c.running ≡ some ((own, b), rest)
      → get_elem? b.requests j ≡ some req
      → (c' : Coordinator M R W) × (settle process batch_size i c ≡ some c')
        × (lookup req.result_chan c'.results
            ≡ some (
                verdict
                  (process b.biz_id (map (λ req. req.message) b.requests) c.world).0
                  (length b.requests)
                  j))
  unfolding settle
  settle_lem c i j own b rest req h e at =
      let s : Settled process batch_size b (record c { running = rest }) =
        settled c i (own, b) rest h e in
      (s.0, rw (e, settle) s.1, s.6 j req at)

  nothing_waits :
      (c : Coordinator M R W) (ch : ℕ)
      → c.batches ≡ []
      → c.running ≡ []
      → in_batches ch c.batches + in_running ch c.running ≡ 0
  nothing_waits c ch b r = rw (b, r) refl

  settle-Kept :
      (i : ℕ) (c : Coordinator M R W) → IsAccounted c → Kept (settle process batch_size i c)
  unfolding settle
  settle-Kept i c h = elim (Option-cases (take_at i c.running)) [
    | inl e ↦ (c, rw (e, settle) refl, h)
    | inr r ↦
        let s : Settled process batch_size r.0.0.1 (record c { running = r.0.1 }) =
          settled c i r.0.0 r.0.1 h r.1 in
        (
          s.0,
          rw (r.1, settle) s.1,
          record {
            once = λ ch. ground (
              arith,
              h.once ch,
              s.2,
              s.3,
              s.4,
              s.5 ch,
              in_running-take ch i c.running r.0.1 r.0.0 r.1,
            );
            keys = subst (λ m. IsMap m) (sym s.3) h.keys;
            waiting = subst (λ m. Open m) (sym s.3) h.waiting;
            started =
                subst (λ l. OpenRunning l) (sym s.4)
                  (take-OpenRunning i c.running r.0.1 r.0.0 r.1 h.started).1;
            phase = s.7 h.phase;
          },
        )
  ]

  step-Kept :
      (e : Event M) (c : Coordinator M R W) → IsAccounted c → Kept (step process batch_size e c)
  unfolding step run_spawned
  step-Kept (receives biz link m) c h =
      (_, refl, on_receive-IsAccounted process batch_size biz link m c h)
  step-Kept (timer_fires biz) c h = (_, refl, detach-IsAccounted false biz c h)
  step-Kept (spawned_runs biz) c h = (
    _,
    refl,
    detach-IsAccounted false biz _ record {
      once = h.once;
      keys = h.keys;
      waiting = h.waiting;
      started = h.started;
      phase = h.phase;
    },
  )
  step-Kept (stop_triggers biz) c h = (_, refl, run_pending-IsAccounted biz c h)
  step-Kept (settles i) c h = settle-Kept i c h
  step-Kept stop_begins c h = (_, refl, begin_stop-IsAccounted c h)
  step-Kept stop_ends c h = end_stop-Kept c.stopping c refl h

  run-Kept :
      (es : List (Event M)) (c : Coordinator M R W)
      → IsAccounted c
      → Kept (run process batch_size es c)
  unfolding run
  run-Kept [] c h = (c, refl, h)
  run-Kept (e ∷ es) c h =
      let s : Kept (step process batch_size e c) = step-Kept e c h in
      let rec : Kept (run process batch_size es s.0) = run-Kept es s.0 s.2 in
      (rec.0, rw (s.1, run) rec.1, rec.2)

  -- From a new coordinator, whatever the backend answers, no order of arrivals, timers, goroutines
  -- and phases of `Stop` panics; and afterwards every request that was made is in exactly one place:
  -- in one batch of the map, in one batch on its way to the backend, or answered.
  pub run-IsAccounted :
      (es : List (Event M)) (w : W)
      → (c : Coordinator M R W) × (run process batch_size es (new_coordinator w) ≡ some c)
        × IsAccounted c
  run-IsAccounted es w = run-Kept es (new_coordinator w) (new_coordinator-IsAccounted w)
