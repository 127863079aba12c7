-- ===== src/Coordinator/Tests.antt =====
-- internal/linkevent/coordinator.go: a run of the coordinator on numbers, and the theorems at it. The
-- backend answers each number with its successor, unless the batch starts with 0.
use ws_gateway.Common.{ℕ, zero, suc, ◌+◌, ◌≡◌, refl, true, false, some, List, [], ◌∷◌, map, arith}
use ws_gateway.Common.Int.{ℤ, pos}
use ws_gateway.Common.Keys.{nat_eq, int_eq}
use ws_gateway.Common.Map.{lookup, insert, delete, lookup_nil}
use ws_gateway.Errors.{Result, ok, err, other}
use ws_gateway.Coordinator.{
  Request, Batch, Coordinator, Event, receives, spawned_runs, settles, stop_begins, stop_triggers,
  stop_ends, new_coordinator, run, step, on_receive, add_to_batch, batch_for, run_spawned, detach,
  settle, elem,
}
use ws_gateway.Coordinator.Conservation.{IsAccounted}
use ws_gateway.Coordinator.History.{settle_lem, run-IsAccounted}
use ws_gateway.Coordinator.Threshold.{full_batch_spawned}

abbrev backend : ℤ → List ℕ → ℕ → Result (List ℕ) × ℕ
backend biz (zero ∷ rest) w = (err (other ∷ []), w + 1)
backend biz reqs w = (ok (map suc reqs), w + 1)

abbrev gathered : List (Event ℕ)
gathered = receives (pos 7) [] 4 ∷ receives (pos 7) [] 5 ∷ []

-- Two requests reach the size 2; the batch is removed and waits for the backend.
abbrev two : List (Event ℕ)
two = receives (pos 7) [] 4 ∷ receives (pos 7) [] 5 ∷ spawned_runs (pos 7) ∷ []

abbrev halted : List (Event ℕ)
halted =
    receives (pos 7) [] 4
    ∷ receives (pos 7) [] 5
    ∷ stop_begins
    ∷ stop_triggers (pos 7)
    ∷ settles 0
    ∷ stop_ends
    ∷ []

abbrev first : Request ℕ
first = record { message = 4; link_id = []; result_chan = 0 }

abbrev second : Request ℕ
second = record { message = 5; link_id = []; result_chan = 1 }

abbrev pair : Batch ℕ
pair = record { biz_id = pos 7; requests = first ∷ second ∷ []; armed = true; closed = false }

abbrev base : Coordinator ℕ ℕ ℕ
base = record {
  batches = [];
  stopped = false;
  stop_closed = false;
  stopping = 0;
  pending = [];
  results = [];
  next = 2;
  spawned = [];
  running = (false, pair) ∷ [];
  world = 0;
}

abbrev waiting : Coordinator ℕ ℕ ℕ
waiting = record base { batches = (pos 7, pair) ∷ []; spawned = pos 7 ∷ []; running = [] }

abbrev finished : Coordinator ℕ ℕ ℕ
finished = record base {
  stopped = true;
  stop_closed = true;
  results = (0, ok 5) ∷ (1, ok 6) ∷ [];
  spawned = pos 7 ∷ [];
  running = [];
  world = 1;
}

two-run : run backend (pos 2) two (new_coordinator 0) ≡ some base
unfolding run step on_receive add_to_batch batch_for run_spawned detach new_coordinator lookup
    insert delete
two-run = refl

base-IsAccounted : IsAccounted base
base-IsAccounted = record {
  once = λ ch. ground (arith, lookup_nil {V = Result ℕ} ch);
  keys = tt;
  waiting = tt;
  started = (refl, tt);
  phase = tt;
}

settle_lem_example :
    (c' : Coordinator ℕ ℕ ℕ) × (settle backend (pos 2) 0 base ≡ some c')
    × (lookup 1 c'.results ≡ some (ok 6))
settle_lem_example =
    settle_lem backend (pos 2) base 0 1 false pair [] second base-IsAccounted refl refl

run-IsAccounted_example :
    (c : Coordinator ℕ ℕ ℕ) × (run backend (pos 2) two (new_coordinator 0) ≡ some c) × IsAccounted c
run-IsAccounted_example = run-IsAccounted backend (pos 2) two 0

full_batch_spawned_example : elem (pos 7) waiting.spawned ≡ true
unfolding run step on_receive add_to_batch batch_for new_coordinator lookup insert
full_batch_spawned_example = full_batch_spawned backend (pos 2) gathered 0 waiting (pos 7) refl refl
