-- ===== src/BatchProcessor/Tests.antt =====
-- internal/linkevent/batch_processor.go: a backend that fails once and then doubles its requests, and
-- the theorems at concrete inputs.
use ws_gateway.Common.{
  ℕ, ◌+◌, ◌≡◌, refl, true, false, none, some, [], ◌∷◌, map, arith, if◌then◌else◌, ◌==◌, ltb,
}
use ws_gateway.Common.Int.{ℤ, pos}
use ws_gateway.Common.Keys.{int_eq, nat_eq}
use ws_gateway.Common.Map.{lookup, lookup_nil}
use ws_gateway.Common.SyncMap.{list_map}
use ws_gateway.Errors.{Result}
use ws_gateway.Coordinator.{Coordinator, Batch, Request, settle}
use ws_gateway.Coordinator.Conservation.{IsAccounted}
use ws_gateway.BatchProcessor.{Backends, Processor, process}
use ws_gateway.BatchProcessor.Answers.{IsAnswer, delivered}

-- The world counts the calls.
abbrev toy : Backends ℕ ℕ
toy = record {
  Client = ℕ;
  World = ℕ;
  clients = list_map ℤ ℕ;
  load_clients = λ w. ((list_map ℤ ℕ).store (pos 7) 1 (list_map ℤ ℕ).empty, w);
  batch_on_receive = λ c reqs w. (if w == 0 then none else some (map (λ r. r + r) reqs), w + 1);
  next_retry = λ n. ltb n 3;
  retry_limit = 3;
  retry_limit_law = refl;
}

abbrev idle : Processor toy
idle = record { biz_to_batch_client = (list_map ℤ ℕ).empty; world = 0 }

abbrev request : ℕ → ℕ → Request ℕ
request m ch = record { message = m; link_id = []; result_chan = ch }

abbrev pair : Batch ℕ
pair = record {
  biz_id = pos 7;
  requests = request 4 0 ∷ request 5 1 ∷ [];
  armed = true;
  closed = false;
}

abbrev sent : Coordinator ℕ ℕ (Processor toy)
sent = record {
  batches = [];
  stopped = false;
  stop_closed = false;
  stopping = 0;
  pending = [];
  results = [];
  next = 2;
  spawned = [];
  running = (false, pair) ∷ [];
  world = idle;
}

sent-IsAccounted : IsAccounted sent
sent-IsAccounted = record {
  once = λ ch. ground (arith, lookup_nil {V = Result ℕ} ch);
  keys = tt;
  waiting = tt;
  started = (refl, tt);
  phase = tt;
}

delivered_example :
    (c' : Coordinator ℕ ℕ (Processor toy)) × (answer : Result ℕ) × (settle
        (process toy)
        (pos 2)
        0
        sent
      ≡ some c')
    × (lookup 1 c'.results ≡ some answer)
    × IsAnswer toy pair.requests 1 answer
delivered_example =
    delivered toy (pos 2) sent 0 1 false pair [] (request 5 1) sent-IsAccounted refl refl
