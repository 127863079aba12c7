-- ===== src/Coordinator/Conservation.antt =====
-- internal/linkevent/coordinator.go: where the channel of each request stands, step by step.
use ws_gateway.Common.{
  ℕ, zero, suc, ◌+◌, ◌≤◌, ◌≡◌, ◌≢◌, refl, subst, Bool, true, false, is_some, Option, not, ◌&&◌,
  ◌==◌, some, List, [], ◌∷◌, ◌++◌, map, arith, if◌then◌else◌, ltb, length, get_elem?, Bool-cases,
  Option-cases, inl, inr,
}
use ws_gateway.Common.Int.{ℤ}
use ws_gateway.Common.Keys.{Text, =?_iff, nat_eq, int_eq}
use ws_gateway.Common.Map.{
  lookup, insert, delete, lookup-delete, IsMap, insert-IsMap, delete-IsMap, delete_absent,
}
use ws_gateway.Errors.{Result, err, coordinator_stopped}
use ws_gateway.Coordinator.{
  Request, Batch, Coordinator, own_running, elem, drop_one, batch_for, new_coordinator, detach,
  begin_stop, run_pending, close_stop, end_stop, add_to_batch, on_receive, settle_batch,
}
use ws_gateway.Coordinator.Delivery.{
  count, answered, verdict, Served, distribute-Served, offer-lookup,
}
use ws_gateway.Coordinator.Threshold.{elem-drop_one}
use ws_gateway.Coordinator.Places.{
  in_batches, in_running, Open, OpenRunning, in_batches-insert, in_batches-delete,
  in_running-append, insert-Open, delete-Open, lookup-Open, append-OpenRunning,
}

-- The businesses of the batches are among those in a list.
abbrev pub Covers : {M : Type 0} → List ℤ → List (ℤ × Batch M) → Type 0
Covers ps bs = (biz : ℤ) → is_some (lookup biz bs) ≡ true → elem biz ps ≡ true

-- Where `Stop` is: not called; in its second phase, once, with a goroutine to run for every batch of the
-- map; or over.
abbrev pub Phase : {M : Type 0} → Bool → ℕ → Bool → List ℤ → List (ℤ × Batch M) → Type 0
Phase false zero false ps bs = Unit
Phase false zero true ps bs = ⊥
Phase false (suc n) d ps bs = ⊥
Phase true zero false ps bs = ⊥
Phase true zero true ps bs = Unit
Phase true (suc zero) false ps bs = Covers ps bs
Phase true (suc zero) true ps bs = ⊥
Phase true (suc (suc n)) d ps bs = ⊥

-- The channel of every request that was made stands in one place: in a batch of the map, in a batch
-- on its way, or answered.
pub record IsAccounted {M R W : Type 0} (c : Coordinator M R W) : Type 0 where
  pub once :
      (ch : ℕ)
      → in_batches ch c.batches + (in_running ch c.running + answered ch c.results)
        ≡ (if ltb ch c.next then 1 else 0)
  pub keys : IsMap c.batches
  pub waiting : Open c.batches
  pub started : OpenRunning c.running
  pub phase : Phase c.stopped c.stopping c.stop_closed c.pending c.batches

module _ {M : Type 0} where
  batch_for-Open :
      (biz : ℤ) (batches : List (ℤ × Batch M))
      → Open batches
      → (batch_for biz batches).closed ≡ false
  unfolding batch_for
  batch_for-Open biz batches u = elim (Option-cases (lookup biz batches)) [
    | inl e ↦ rw (e, batch_for) refl
    | inr r ↦ rw (r.1, batch_for) (lookup-Open biz batches u r.1)
  ]

  none_of : (ch : ℕ) (reqs : List (Request M)) → length reqs ≡ 0 → count ch reqs ≡ 0
  none_of ch [] h = refl
  none_of ch (req ∷ reqs) h = ground arith

  nowhere :
      (i : ℕ) (req : Request M) (reqs : List (Request M))
      → length reqs ≡ 0
      → get_elem? reqs i ≢ some req
  nowhere i req [] h e = ground arith
  nowhere i req (q ∷ reqs) h e = ground arith

  no_batches :
      (ch : ℕ) (batches : List (ℤ × Batch M)) → length batches ≡ 0 → in_batches ch batches ≡ 0
  no_batches ch [] h = refl
  no_batches ch (b ∷ rest) h = ground arith

module _ {M : Type 0} where
  Phase-map :
      (s : Bool) (n : ℕ) (d : Bool) (ps qs : List ℤ) (bs cs : List (ℤ × Batch M))
      → (Covers ps bs → Covers qs cs)
      → Phase s n d ps bs
      → Phase s n d qs cs
  Phase-map false zero false ps qs bs cs f h = tt
  Phase-map false zero true ps qs bs cs f h = h
  Phase-map false (suc n) d ps qs bs cs f h = h
  Phase-map true zero false ps qs bs cs f h = h
  Phase-map true zero true ps qs bs cs f h = tt
  Phase-map true (suc zero) false ps qs bs cs f h = f h
  Phase-map true (suc zero) true ps qs bs cs f h = h
  Phase-map true (suc (suc n)) d ps qs bs cs f h = h

  idle_phase_lem :
      (s : Bool) (n : ℕ) (d : Bool) (ps : List ℤ) (bs cs : List (ℤ × Batch M))
      → s ≡ false
      → Phase s n d ps bs
      → Phase s n d ps cs
  idle_phase_lem false zero false ps bs cs e h = tt
  idle_phase_lem false zero true ps bs cs e h = h
  idle_phase_lem false (suc n) d ps bs cs e h = h
  idle_phase_lem true n d ps bs cs e h = absurd (ground arith)

  keys-Covers : (bs : List (ℤ × Batch M)) (ps : List ℤ) → Covers (map (λ p. p.0) bs ++ ps) bs
  unfolding lookup
  keys-Covers [] ps biz u = ground arith
  keys-Covers ((k, b) ∷ bs) ps biz u = ground (arith, keys-Covers bs ps biz, =?_iff k biz)

  begin-Phase :
      (s : Bool) (n : ℕ) (d : Bool) (ps : List ℤ) (bs : List (ℤ × Batch M))
      → s ≡ false
      → Phase s n d ps bs
      → Phase true (suc n) d (map (λ p. p.0) bs ++ ps) bs
  begin-Phase false zero false ps bs e h = keys-Covers bs ps
  begin-Phase false zero true ps bs e h = absurd h
  begin-Phase false (suc n) d ps bs e h = absurd h
  begin-Phase true n d ps bs e h = absurd (ground arith)

  bare_of : (bs : List (ℤ × Batch M)) → Covers [] bs → length bs ≡ 0
  unfolding lookup
  bare_of [] h = refl
  bare_of ((k, b) ∷ bs) h = absurd (ground (arith, h k, =?_iff k k))

  end-Phase :
      (s : Bool) (n : ℕ) (d : Bool) (ps : List ℤ) (bs : List (ℤ × Batch M))
      → length ps ≡ 0
      → Phase s (suc n) d ps bs
      → (d ≡ false) × Phase {M = M} s n true ps [] × (length bs ≡ 0)
  end-Phase false n d ps bs e h = absurd h
  end-Phase true zero true ps bs e h = absurd h
  end-Phase true zero false [] bs e h = (refl, tt, bare_of bs h)
  end-Phase true zero false (p ∷ ps) bs e h = absurd (ground arith)
  end-Phase true (suc n) d ps bs e h = absurd h

module _ {M R W : Type 0} where
  pub new_coordinator-IsAccounted : (w : W) → IsAccounted (new_coordinator {M = M} {R = R} w)
  unfolding new_coordinator lookup
  new_coordinator-IsAccounted w = record {
    once = λ ch. ground arith;
    keys = tt;
    waiting = tt;
    started = tt;
    phase = tt;
  }

  -- The goroutines that `Stop` waits for may change as well, if they still cover the batches that stay.
  detach_with :
      (own : Bool) (biz : ℤ) (qs : List ℤ) (c : Coordinator M R W)
      → (Covers c.pending c.batches → Covers qs (delete biz c.batches))
      → IsAccounted c
      → IsAccounted (detach own biz (record c { pending = qs }))
  unfolding detach
  detach_with own biz qs c f h = elim (Option-cases (lookup biz c.batches)) [
    | inl e ↦
        rw (e, detach)
          record {
            once = h.once;
            keys = h.keys;
            waiting = h.waiting;
            started = h.started;
            phase =
                Phase-map c.stopped c.stopping c.stop_closed c.pending qs c.batches c.batches
                  (λ covers. subst (λ bs. Covers qs bs) (delete_absent biz c.batches e) (f covers))
                  h.phase;
          }
    | inr r ↦
        rw (r.1, detach)
          record {
            once = λ ch. ground (
              arith,
              h.once ch,
              in_batches-delete ch biz c.batches {b = r.0} h.keys r.1,
              in_running-append ch own r.0 c.running,
            );
            keys = delete-IsMap biz c.batches h.keys;
            waiting = delete-Open biz c.batches h.waiting;
            started =
                append-OpenRunning own r.0 c.running (lookup-Open biz c.batches h.waiting r.1)
                  h.started;
            phase =
                Phase-map c.stopped c.stopping c.stop_closed c.pending qs c.batches
                  (delete biz c.batches) f h.phase;
          }
  ]

  pub detach-IsAccounted :
      (own : Bool) (biz : ℤ) (c : Coordinator M R W)
      → IsAccounted c
      → IsAccounted (detach own biz c)
  detach-IsAccounted own biz c h =
      detach_with own biz c.pending c
        (λ covers j u. covers j (ground (arith, lookup-delete biz j c.batches))) h

  which :
      (b : Bool) (c c' : Coordinator M R W)
      → (b ≡ true → IsAccounted c)
      → (b ≡ false → IsAccounted c')
      → IsAccounted (if b then c else c')
  which true c c' f g = f refl
  which false c c' f g = g refl

  abbrev pub Kept : Option (Coordinator M R W) → Type 0
  Kept o = (c : Coordinator M R W) × (o ≡ some c) × IsAccounted c

  pub begin_stop-IsAccounted : (c : Coordinator M R W) → IsAccounted c → IsAccounted (begin_stop c)
  unfolding begin_stop
  begin_stop-IsAccounted c h =
      which c.stopped _ _ (λ e. h)
        λ e. record {
          once = h.once;
          keys = h.keys;
          waiting = h.waiting;
          started = h.started;
          phase = begin-Phase c.stopped c.stopping c.stop_closed c.pending c.batches e h.phase;
        }

  pub run_pending-IsAccounted :
      (biz : ℤ) (c : Coordinator M R W) → IsAccounted c → IsAccounted (run_pending biz c)
  unfolding run_pending
  run_pending-IsAccounted biz c h =
      which (elem biz c.pending) _ _
        (λ e.
          detach_with true biz (drop_one biz c.pending) c
            (λ covers j u.
              ground
                (arith, covers j, lookup-delete biz j c.batches, elem-drop_one biz j c.pending))
            h)
        (λ e. h)

  pub end_stop-Kept :
      (n : ℕ) (c : Coordinator M R W) → c.stopping ≡ n → IsAccounted c → Kept (end_stop n c)
  unfolding end_stop close_stop
  end_stop-Kept zero c s h = (c, refl, h)
  end_stop-Kept (suc n) c s h =
      elim (Bool-cases (length c.pending == 0 && not (own_running c.running))) [
        | inr e ↦ (c, rw (e, end_stop) refl, h)
        | inl e ↦
            let p : Phase c.stopped (suc n) c.stop_closed c.pending c.batches = rw s at h.phase in
            let (fresh, last, bare) =
              end-Phase c.stopped n c.stop_closed c.pending c.batches (ground arith) p in
            (
              record c { stop_closed = true; batches = []; stopping = n },
              rw (e, fresh) refl,
              record {
                once = λ ch. ground (arith, h.once ch, no_batches ch c.batches bare);
                keys = tt;
                waiting = tt;
                started = h.started;
                phase = last;
              },
            )
      ]

module _ {M R W : Type 0} (process : ℤ → List M → W → Result (List R) × W) (batch_size : ℤ) where
  pub on_receive-IsAccounted :
      (biz : ℤ) (link : Text) (message : M) (c : Coordinator M R W)
      → IsAccounted c
      → IsAccounted (on_receive process batch_size biz link message c)
  unfolding on_receive add_to_batch
  on_receive-IsAccounted biz link message c h =
      let req : Request M = record { message = message; link_id = link; result_chan = c.next } in
      let old : Batch M = batch_for biz c.batches in
      let b : Batch M = record old { requests = old.requests ++ req ∷ [] } in
      elim (Bool-cases c.stopped) [
        | inl e ↦
            rw (e, add_to_batch)
              record {
                once = λ ch. ground (
                  arith,
                  h.once ch,
                  h.once c.next,
                  =?_iff c.next ch,
                  offer-lookup {R = R} req (err (coordinator_stopped ∷ [])) c.results ch,
                );
                keys = h.keys;
                waiting = h.waiting;
                started = h.started;
                phase = rw e at h.phase;
              }
        | inr e ↦
            rw (e, add_to_batch)
              record {
                once = λ ch. ground (
                  arith,
                  h.once ch,
                  =?_iff c.next ch,
                  in_batches-insert ch biz req c.batches b refl,
                );
                keys = insert-IsMap biz b c.batches h.keys;
                waiting =
                    insert-Open biz b c.batches (batch_for-Open biz c.batches h.waiting) h.waiting;
                started = h.started;
                phase = rw e at (
                    idle_phase_lem c.stopped c.stopping c.stop_closed c.pending c.batches
                      (insert biz b c.batches) e h.phase);
              }
      ]

  -- A batch on its way is answered: each of its requests gets what `verdict` says.
  abbrev pub Settled : Batch M → Coordinator M R W → Type 0
  Settled b c =
      (c' : Coordinator M R W) × (settle_batch process batch_size b c ≡ some c')
      × (c'.next ≡ c.next)
      × (c'.batches ≡ c.batches)
      × (c'.running ≡ c.running)
      × ((ch : ℕ) → answered ch c'.results ≡ count ch b.requests + answered ch c.results)
      × ((i : ℕ) (req : Request M)
          → get_elem? b.requests i ≡ some req
          → lookup req.result_chan c'.results
            ≡ some (
                verdict (process b.biz_id (map (λ req. req.message) b.requests) c.world).0
                  (length b.requests) i))
      × (Phase c.stopped c.stopping c.stop_closed c.pending c.batches
          → Phase c'.stopped c'.stopping c'.stop_closed c'.pending c'.batches)

  pub settle_batch-Settled :
      (b : Batch M) (c : Coordinator M R W)
      → b.closed ≡ false
      → ((ch : ℕ) → count ch b.requests + answered ch c.results ≤ 1)
      → Settled b c
  unfolding settle_batch
  settle_batch-Settled b c h fresh =
      let reqs = b.requests in
      let served : Served reqs (process b.biz_id (map (λ req. req.message) reqs) c.world).0
          c.results =
        distribute-Served reqs c.results fresh
          (process b.biz_id (map (λ req. req.message) reqs) c.world).0 in
      elim (Bool-cases (length reqs == 0)) [
        | inl e ↦ (
          c,
          ground arith,
          refl,
          refl,
          refl,
          λ ch. ground (arith, none_of ch reqs),
          λ i req at. ground (arith, nowhere i req reqs),
          λ p. p,
        )
        | inr e ↦ (
          record c {
            results = served.0;
            world = (process b.biz_id (map (λ req. req.message) reqs) c.world).1;
          },
          rw (h, e, served.1) refl,
          refl,
          refl,
          refl,
          served.2,
          served.3,
          λ p. p,
        )
      ]
