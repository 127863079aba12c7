-- ===== src/PushRetry/History.antt =====
-- pkg/pushretry/manager.go: sequences of method calls and timer firings.
use ws_gateway.Common.{
  ℕ, ap, sym, ◌∙◌, inl, inr, true, List, [], ◌∷◌, arith, Bool-cases, Option-cases,
}
use ws_gateway.Common.Int.{ℤ, pos}
use ws_gateway.Common.Keys.{Text, nat_eq, text_eq}
use ws_gateway.Common.Map.{lookup_nil, length_eq_of_lookup}
use ws_gateway.Common.SyncMap.{SyncMap}
use ws_gateway.PushRetry.{LinkApi}
use ws_gateway.PushRetry
use ws_gateway.PushRetry.Invariant.{
  IsWellFormed, start-IsWellFormed, stop_and_delete_task-IsWellFormed,
}
use ws_gateway.PushRetry.Retries.{fire-IsWellFormed}

module _ (S : SyncMap Text ℕ) (I : LinkApi) where
  open S use {range}
  open I use {World}

  pub data Call : Type 0 where
    starts : Text → I.Link → I.Message → Call
    stops : Text → Call
    stops_link : Text → Call
    fires : ℕ → Call
    closes : Call

  unfoldable pub step : Call → PushRetry.Manager S I × World → PushRetry.Manager S I × World
  step (starts key l msg) (m, w) = (PushRetry.start S I key l msg m, w)
  step (stops key) (m, w) = (PushRetry.stop S I key m, w)
  step (stops_link id) (m, w) = ((PushRetry.stop_by_link_id S I id m).0, w)
  step (fires i) (m, w) = PushRetry.fire S I i m w
  step closes (m, w) = (PushRetry.close S I m, w)

  unfoldable pub run : List Call → PushRetry.Manager S I × World → PushRetry.Manager S I × World
  run [] s = s
  run (c ∷ cs) s = run cs (step c s)

  stop-IsWellFormed :
      (key : Text) (m : PushRetry.Manager S I)
      → IsWellFormed S I m
      → IsWellFormed S I (PushRetry.stop S I key m)
  unfolding PushRetry.stop
  stop-IsWellFormed key m h = elim (Option-cases (S.load key m.tasks)) [
    | inl e ↦ rw (e, PushRetry.stop) h
    | inr (i, e) ↦ rw (e, PushRetry.stop) (stop_and_delete_task-IsWellFormed S I key m h)
  ]

  stop_loop-IsWellFormed :
      (id : Text) (es : List (Text × ℕ)) (r : PushRetry.Manager S I × ℕ)
      → IsWellFormed S I r.0
      → IsWellFormed S I (PushRetry.stop_loop S I id es r).0
  unfolding PushRetry.stop_loop PushRetry.visit
  stop_loop-IsWellFormed id [] r h = h
  stop_loop-IsWellFormed id ((key, i) ∷ es) r h =
      stop_loop-IsWellFormed id es (PushRetry.visit S I id (key, i) r)
        (elim (Bool-cases (PushRetry.on_link id (PushRetry.link_of S I i r.0))) [
          | inl hit ↦ rw (hit, PushRetry.visit) (stop_and_delete_task-IsWellFormed S I key r.0 h)
          | inr miss ↦ rw (miss, PushRetry.visit) h
        ])

  close_loop-IsWellFormed :
      (es : List (Text × ℕ)) (m : PushRetry.Manager S I)
      → IsWellFormed S I m
      → IsWellFormed S I (PushRetry.close_loop S I es m)
  unfolding PushRetry.close_loop
  close_loop-IsWellFormed [] m h = h
  close_loop-IsWellFormed ((key, i) ∷ es) m h =
      close_loop-IsWellFormed es (PushRetry.stop_and_delete_task S I key m).0
        (stop_and_delete_task-IsWellFormed S I key m h)

  close-IsWellFormed :
      (m : PushRetry.Manager S I) → IsWellFormed S I m → IsWellFormed S I (PushRetry.close S I m)
  unfolding PushRetry.close
  close-IsWellFormed m h =
      close_loop-IsWellFormed (range m.tasks) (record m { closed = true })
        (record { counted = h.counted; named = h.named; live = h.live; fresh = h.fresh })

  pub step-IsWellFormed :
      (c : Call) (m : PushRetry.Manager S I) (w : World)
      → IsWellFormed S I m
      → IsWellFormed S I (step c (m, w)).0
  unfolding step PushRetry.stop_by_link_id
  step-IsWellFormed (starts key l msg) m w h = start-IsWellFormed S I key l msg m h
  step-IsWellFormed (stops key) m w h = stop-IsWellFormed key m h
  step-IsWellFormed (stops_link id) m w h = stop_loop-IsWellFormed id (range m.tasks) (m, 0) h
  step-IsWellFormed (fires i) m w h = fire-IsWellFormed S I i m w h
  step-IsWellFormed closes m w h = close-IsWellFormed m h

  pub new_manager-IsWellFormed : (n : ℤ) → IsWellFormed S I (PushRetry.new_manager S I n)
  unfolding PushRetry.new_manager
  new_manager-IsWellFormed n = record {
    counted = ap pos (
        sym (
          length_eq_of_lookup (range S.empty) [] (S.range-IsMap S.empty) tt
            (λ k. S.lookup-range k S.empty ∙ (S.load-empty k ∙ sym (lookup_nil k)))));
    named = λ k i e. absurd (ground (arith, S.load-empty k));
    live = λ i t e a. absurd (ground (arith, lookup_nil {V = PushRetry.Task S I} i));
    fresh = λ i u. lookup_nil i;
  }

  run-IsWellFormed :
      (cs : List Call) (m : PushRetry.Manager S I) (w : World)
      → IsWellFormed S I m
      → IsWellFormed S I (run cs (m, w)).0
  unfolding run
  run-IsWellFormed [] m w h = h
  run-IsWellFormed (c ∷ cs) m w h =
      run-IsWellFormed cs (step c (m, w)).0 (step c (m, w)).1 (step-IsWellFormed c m w h)

  -- After any calls and firings from a new manager, each of which ends before the next begins, the
  -- manager is well formed.
  pub history-IsWellFormed :
      (n : ℤ) (cs : List Call) (w : World)
      → IsWellFormed S I (run cs (PushRetry.new_manager S I n, w)).0
  history-IsWellFormed n cs w =
      run-IsWellFormed cs (PushRetry.new_manager S I n) w (new_manager-IsWellFormed n)
