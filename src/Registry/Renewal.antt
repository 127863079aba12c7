-- ===== src/Registry/Renewal.antt =====
-- internal/registry/registry.go, `KeepAlive`: when it gives up.
use ws_gateway.Common.{ℕ, zero, suc, ◌≡◌, ◌≤◌, refl, Bool, true, false, List, [], ◌∷◌, arith}
use ws_gateway.Common.Int.{pos}
use ws_gateway.Registry.{
  Renewed, answered, nothing_answered, done, closed, KeepAlive, waiting, returned_nil, gave_up,
  on_closed, keep_alive_step, keep_alive_run,
}

-- Not given up, and the retry count is 0.
abbrev pub fresh : KeepAlive → Bool
fresh (waiting zero) = true
fresh (waiting (suc n)) = false
fresh returned_nil = true
fresh gave_up = false

step-fresh :
    (m : ℕ) (e : Renewed) (s : KeepAlive)
    → 2 ≤ m
    → fresh s ≡ true
    → fresh (keep_alive_step (pos m) e s) ≡ true
unfolding keep_alive_step on_closed
step-fresh m done (waiting n) u h = refl
step-fresh m answered (waiting n) u h = refl
step-fresh m nothing_answered (waiting n) u h = h
step-fresh m (closed b) (waiting zero) u h = ground arith
step-fresh m (closed b) (waiting (suc n)) u h = ground arith
step-fresh m done returned_nil u h = h
step-fresh m answered returned_nil u h = h
step-fresh m nothing_answered returned_nil u h = h
step-fresh m (closed b) returned_nil u h = h
step-fresh m done gave_up u h = h
step-fresh m answered gave_up u h = h
step-fresh m nothing_answered gave_up u h = h
step-fresh m (closed b) gave_up u h = h

run-fresh :
    (m : ℕ) (es : List Renewed) (s : KeepAlive)
    → 2 ≤ m
    → fresh s ≡ true
    → fresh (keep_alive_run (pos m) es s) ≡ true
unfolding keep_alive_run
run-fresh m [] s u h = h
run-fresh m (e ∷ es) s u h = run-fresh m es (keep_alive_step (pos m) e s) u (step-fresh m e s u h)

-- With a limit of two retries or more, `KeepAlive` never gives up, however often its channel is closed
-- and the restart of the renewal fails: whatever it receives, it waits with the retry count 0 or has
-- returned nil, and does not return `ErrMaxRetriesExceeded`.
pub never_gives_up :
    (m : ℕ) (es : List Renewed) → 2 ≤ m → fresh (keep_alive_run (pos m) es (waiting 0)) ≡ true
never_gives_up m es u = run-fresh m es (waiting 0) u refl
