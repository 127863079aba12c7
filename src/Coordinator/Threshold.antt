-- ===== src/Coordinator/Threshold.antt =====
-- internal/linkevent/coordinator.go: batches that have reached their size.
use ws_gateway.Common.{
  ℕ, zero, suc, ◌≡◌, refl, Bool, true, false, Option, none, some, List, [], ◌∷◌, ◌++◌, arith,
  if◌then◌else◌, length, Option-cases, inl, inr,
}
use ws_gateway.Common.Int.{ℤ, pos, leb_ℤ}
use ws_gateway.Common.Keys.{◌=?◌, =?_iff, int_eq}
use ws_gateway.Common.Map.{lookup, lookup_nil, lookup-insert, lookup-delete}
use ws_gateway.Errors.{Result}
use ws_gateway.Coordinator.{
  Request, Batch, Coordinator, Event, receives, timer_fires, spawned_runs, stop_triggers, settles,
  stop_begins, stop_ends, drop_one, elem, new_coordinator, detach, run_spawned, begin_stop,
  end_stop, close_stop, run_pending, batch_for, add_to_batch, on_receive, settle_batch, settle,
  step, run,
}

pub elem-drop_one : (a b : ℤ) (xs : List ℤ) → (a =? b) ≡ false → elem b (drop_one a xs) ≡ elem b xs
elem-drop_one a b [] h = refl
elem-drop_one a b (x ∷ xs) h =
    ground (arith, =?_iff x a, =?_iff x b, =?_iff a b, elem-drop_one a b xs)

-- A batch of the map that has reached the size, by the number of its requests.
abbrev pub full : {M : Type 0} → ℤ → Option (Batch M) → Bool
full n none = false
full n (some b) = leb_ℤ n (pos (length b.requests))

module _ {M R W : Type 0} (process : ℤ → List M → W → Result (List R) × W) (batch_size : ℤ) where
  abbrev pub IsPrompt : Coordinator M R W → Type 0
  IsPrompt c = (biz : ℤ) → full batch_size (lookup biz c.batches) ≡ true → elem biz c.spawned ≡ true

  detach-spawned :
      (own : Bool) (biz : ℤ) (c : Coordinator M R W) → (detach own biz c).spawned ≡ c.spawned
  unfolding detach
  detach-spawned own biz c = ground arith

  detach-lookup :
      (own : Bool) (biz j : ℤ) (c : Coordinator M R W)
      → lookup j (detach own biz c).batches ≡ (if biz =? j then none else lookup j c.batches)
  unfolding detach
  detach-lookup own biz j c = ground (arith, lookup-delete biz j c.batches, =?_iff biz j)

  detach-IsPrompt :
      (own : Bool) (biz : ℤ) (c : Coordinator M R W) → IsPrompt c → IsPrompt (detach own biz c)
  detach-IsPrompt own biz c h j u =
      ground (arith, h j, detach-spawned own biz c, detach-lookup own biz j c)

  run_spawned-IsPrompt :
      (biz : ℤ) (c : Coordinator M R W) → IsPrompt c → IsPrompt (run_spawned biz c)
  unfolding run_spawned
  run_spawned-IsPrompt biz c h j u =
      let c' : Coordinator M R W = record c { spawned = drop_one biz c.spawned } in
      ground (
        arith,
        h j,
        detach-spawned false biz c',
        detach-lookup false biz j c',
        elem-drop_one biz j c.spawned,
      )

  add_to_batch-IsPrompt :
      (biz : ℤ) (req : Request M) (c : Coordinator M R W)
      → IsPrompt c
      → IsPrompt (add_to_batch process batch_size biz req c)
  unfolding add_to_batch
  add_to_batch-IsPrompt biz req c h j u =
      let old : Batch M = batch_for biz c.batches in
      ground (
        arith,
        h j,
        =?_iff biz j,
        lookup-insert biz j (record old { requests = old.requests ++ req ∷ [] }) c.batches,
      )

  settle-same :
      (i : ℕ) (c c' : Coordinator M R W)
      → settle process batch_size i c ≡ some c'
      → (c'.batches ≡ c.batches) × (c'.spawned ≡ c.spawned)
  unfolding settle settle_batch
  settle-same i c c' e = ground arith

  run_pending-IsPrompt :
      (biz : ℤ) (c : Coordinator M R W) → IsPrompt c → IsPrompt (run_pending biz c)
  unfolding run_pending
  run_pending-IsPrompt biz c h j u =
      let c' : Coordinator M R W = record c { pending = drop_one biz c.pending } in
      ground (arith, h j, detach-IsPrompt true biz c' h j)

  end_stop-IsPrompt :
      (n : ℕ) (c c' : Coordinator M R W) → end_stop n c ≡ some c' → IsPrompt c → IsPrompt c'
  unfolding end_stop close_stop
  end_stop-IsPrompt zero c c' e h j u = ground (arith, h j)
  end_stop-IsPrompt (suc n) c c' e h j u = ground (arith, h j, lookup_nil {V = Batch M} j)

  step-IsPrompt :
      (e : Event M) (c c' : Coordinator M R W)
      → step process batch_size e c ≡ some c'
      → IsPrompt c
      → IsPrompt c'
  unfolding step on_receive begin_stop end_stop close_stop
  step-IsPrompt (receives biz link m) c c' e h j u =
      let req : Request M = record { message = m; link_id = link; result_chan = c.next } in
      ground (arith, add_to_batch-IsPrompt biz req (record c { next = suc c.next }) h j)
  step-IsPrompt (timer_fires biz) c c' e h j u = ground (arith, detach-IsPrompt false biz c h j)
  step-IsPrompt (spawned_runs biz) c c' e h j u = ground (arith, run_spawned-IsPrompt biz c h j)
  step-IsPrompt (stop_triggers biz) c c' e h j u = ground (arith, run_pending-IsPrompt biz c h j)
  step-IsPrompt (settles i) c c' e h j u = ground (arith, h j, settle-same i c c' e)
  step-IsPrompt stop_begins c c' e h j u = ground (arith, h j)
  step-IsPrompt stop_ends c c' e h j u = end_stop-IsPrompt c.stopping c c' e h j u

  run-IsPrompt :
      (es : List (Event M)) (c c' : Coordinator M R W)
      → run process batch_size es c ≡ some c'
      → IsPrompt c
      → IsPrompt c'
  unfolding run
  run-IsPrompt [] c c' e h j u = ground (arith, h j)
  run-IsPrompt (x ∷ es) c c' e h j u = elim (Option-cases (step process batch_size x c)) [
    | inl n ↦ ground arith
    | inr r ↦ run-IsPrompt es r.0 c' (ground arith) (step-IsPrompt x c r.0 r.1 h) j u
  ]

  -- After any run from a new coordinator, a batch of the map that has at least `batch_size` requests
  -- has a goroutine on its way that will remove it from the map.
  pub full_batch_spawned :
      (es : List (Event M)) (w : W) (c : Coordinator M R W) (biz : ℤ)
      → run process batch_size es (new_coordinator w) ≡ some c
      → full batch_size (lookup biz c.batches) ≡ true
      → elem biz c.spawned ≡ true
  unfolding new_coordinator lookup
  full_batch_spawned es w c biz e =
      run-IsPrompt es (new_coordinator w) c e (λ j u. ground arith) biz
