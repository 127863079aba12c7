-- ===== src/BatchProcessor.antt =====
-- internal/linkevent/batch_processor.go: the call that answers a batch of requests.
-- The clients, their loader and the retry strategy are parameters; `M` is a request, `R` a response.
-- Logging is left out.
pub mod Answers
pub mod Tests
use ws_gateway.Common.{
  ℕ, zero, suc, Bool, Option, none, some, List, [], ◌∷◌, ◌≡◌, false, if◌then◌else◌, ◌==◌, length,
}
use ws_gateway.Common.Int.{ℤ}
use ws_gateway.Common.Keys.{int_eq}
use ws_gateway.Common.SyncMap.{SyncMap}
use ws_gateway.Errors.{Result, ok, err, unknown_biz, max_retries_exceeded, response_mismatch, other}

pub record Backends (M R : Type 0) : Type 1 where
  pub Client : Type 0
  pub World : Type 0
  pub clients : SyncMap ℤ Client
  -- BatchBackendClientLoader
  pub load_clients : World → clients.Store × World
  -- One call of `BatchOnReceive` with its timeout; `none` is an error.
  pub batch_on_receive : Client → List M → World → Option (List R) × World
  -- The n-th answer of the retry strategy's `Next`; after `retry_limit` retries it says no.
  pub next_retry : ℕ → Bool
  pub retry_limit : ℕ
  pub retry_limit_law : next_retry retry_limit ≡ false

module _ {M R : Type 0} (B : Backends M R) where
  open B use {Client, World}

  pub record Processor : Type 0 where
    pub biz_to_batch_client : B.clients.Store
    pub world : World

  -- A client that is not in the map is looked for once more after the map was loaded anew.
  unfoldable pub get_batch_backend_service_client : ℤ → Processor → Result Client × Processor
  get_batch_backend_service_client biz p = elim (B.clients.load biz p.biz_to_batch_client) [
    | some client ↦ (ok client, p)
    | none ↦
        let l = B.load_clients p.world in
        let p' : Processor = record { biz_to_batch_client = l.0; world = l.1 } in
        elim (B.clients.load biz l.0) [
          | some client ↦ (ok client, p')
          | none ↦ (err (unknown_biz ∷ []), p')
        ]
  ]

  -- On fuel, `n` retries done; `none` means that the fuel ran out.
  unfoldable pub call_batch_service_with_retry :
      ℕ → ℕ → Client → List M → World → Option (Result (List R) × World)
  call_batch_service_with_retry zero n client reqs w = none
  call_batch_service_with_retry (suc fuel) n client reqs w =
      let r = B.batch_on_receive client reqs w in
      let again = call_batch_service_with_retry fuel (suc n) client reqs r.1 in
      elim r.0 [
        | some resp ↦ some (ok resp, r.1)
        | none ↦
            if B.next_retry n then again else some (err (other ∷ max_retries_exceeded ∷ []), r.1)
      ]

  -- As many responses as requests, or an error.
  unfoldable pub check_count : List M → Result (List R) → Result (List R)
  check_count reqs (err e) = err e
  check_count reqs (ok rs) =
      if length rs == length reqs then ok rs else err (response_mismatch ∷ [])

  -- With a client at hand; the fuel is one more than the retries that the strategy grants.
  unfoldable pub process_by : Result Client → List M → Processor → Result (List R) × Processor
  process_by (err e) reqs p = (err e, p)
  process_by (ok client) reqs p =
      elim (call_batch_service_with_retry (suc B.retry_limit) 0 client reqs p.world) [
        | none ↦ (err [], p)
        | some (r, w) ↦ (check_count reqs r, record p { world = w })
      ]

  unfoldable pub process : ℤ → List M → Processor → Result (List R) × Processor
  process biz reqs p = let c = get_batch_backend_service_client biz p in process_by c.0 reqs c.1
