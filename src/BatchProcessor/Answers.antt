-- ===== src/BatchProcessor/Answers.antt =====
-- internal/linkevent/batch_processor.go: what `Process` answers, and what the requests of a coordinator's
-- batch find when `Process` is its processor.
use ws_gateway.Common.{
  ℕ, zero, suc, ◌+◌, ◌<◌, ◌≡◌, refl, ap, ◌∙◌, ◌⊎◌, inl, inr, Bool, true, Option, some, List, [],
  ◌∷◌, map, arith, Bool-cases, Option-cases, length, get_elem?, ◌==◌, ==_iff, length-map,
}
use ws_gateway.Common.Int.{ℤ}
use ws_gateway.Common.Keys.{int_eq, nat_eq}
use ws_gateway.Common.Map.{lookup}
use ws_gateway.Errors.{
  Error, Result, ok, err, unknown_biz, max_retries_exceeded, response_mismatch, other,
}
use ws_gateway.Coordinator.{Coordinator, Batch, Request, take_at, settle}
use ws_gateway.Coordinator.Conservation.{IsAccounted}
use ws_gateway.Coordinator.Delivery.{verdict}
use ws_gateway.Coordinator.History.{settle_lem}
use ws_gateway.BatchProcessor.{
  Backends, Processor, get_batch_backend_service_client, call_batch_service_with_retry, check_count,
  process_by, process,
}

-- The errors of `Process`: no client, retries used up, or a wrong number of responses.
abbrev pub IsFailure : Error → Type 0
IsFailure e =
    (e ≡ unknown_biz ∷ [])
    ⊎ ((e ≡ other ∷ max_retries_exceeded ∷ []) ⊎ (e ≡ response_mismatch ∷ []))

module _ {M R : Type 0} (B : Backends M R) where
  open B use {Client, World}

  -- One call of a backend gave these responses.
  abbrev pub Responded : List M → List R → Type 0
  Responded reqs rs =
      (client : Client) × (w : World) × ((B.batch_on_receive client reqs w).0 ≡ some rs)

  -- How the loop may end.
  abbrev Verdict : List M → Result (List R) → Type 0
  Verdict reqs (ok rs) = Responded reqs rs
  Verdict reqs (err e) = e ≡ other ∷ max_retries_exceeded ∷ []

  abbrev Ended : List M → Option (Result (List R) × World) → Type 0
  Ended reqs o = (r : Result (List R)) × (w : World) × (o ≡ some (r, w)) × Verdict reqs r

  -- A round ends the loop, or the strategy grants another one.
  one_round :
      (fuel n : ℕ) (c : Client) (reqs : List M) (w : World)
      → (B.next_retry n ≡ true
          → Ended reqs
              (call_batch_service_with_retry B fuel (suc n) c reqs (B.batch_on_receive c reqs w).1))
      → Ended reqs (call_batch_service_with_retry B (suc fuel) n c reqs w)
  unfolding call_batch_service_with_retry
  one_round fuel n c reqs w go_on = elim (Option-cases (B.batch_on_receive c reqs w).0) [
    | inr (rs, got) ↦ (
      ok rs,
      (B.batch_on_receive c reqs w).1,
      rw (got, call_batch_service_with_retry),
      (c, w, got),
    )
    | inl failed ↦ elim (Bool-cases (B.next_retry n)) [
      | inr last ↦ (
        err (other ∷ max_retries_exceeded ∷ []),
        (B.batch_on_receive c reqs w).1,
        rw (failed, last, call_batch_service_with_retry),
        refl,
      )
      | inl more ↦
          let (r, w', e, v) = go_on more in
          (r, w', rw (failed, more, call_batch_service_with_retry) e, v)
    ]
  ]

  loop_ends :
      (fuel n : ℕ) (c : Client) (reqs : List M) (w : World)
      → n + fuel ≡ B.retry_limit
      → Ended reqs (call_batch_service_with_retry B (suc fuel) n c reqs w)
  loop_ends zero n c reqs w e = one_round zero n c reqs w λ more.
      let last : n ≡ B.retry_limit = omega arith in
      absurd (cc (ap B.next_retry last, B.retry_limit_law, more))
  loop_ends (suc fuel) n c reqs w e =
      one_round (suc fuel) n c reqs w λ more. loop_ends fuel (suc n) c reqs _ (omega arith)

  -- What `Process` may answer.
  abbrev pub Answered : List M → Result (List R) → Type 0
  Answered reqs (ok rs) = Responded reqs rs × (length rs ≡ length reqs)
  Answered reqs (err e) = IsFailure e

  check_count-Answered :
      (reqs : List M) (r : Result (List R)) → Verdict reqs r → Answered reqs (check_count B reqs r)
  unfolding check_count
  check_count-Answered reqs (err e) v = inr (inl v)
  check_count-Answered reqs (ok rs) v = elim (Bool-cases (length rs == length reqs)) [
    | inl same ↦ rw same (v, (==_iff (length rs) (length reqs)).0 same)
    | inr not_same ↦ rw not_same (inr (inr refl))
  ]

  with_client :
      (client : Client) (reqs : List M) (p : Processor B)
      → Answered reqs (process_by B (ok client) reqs p).0
  unfolding process_by
  with_client client reqs p =
      let (r, w, e, v) = loop_ends B.retry_limit 0 client reqs p.world (omega arith) in
      rw (e, process_by) (check_count-Answered reqs r v)

  -- `Process` ends: with the responses of one call of a backend, as many as there are requests, or with
  -- one of its three errors.
  pub process_lem :
      (biz : ℤ) (reqs : List M) (p : Processor B) → Answered reqs (process B biz reqs p).0
  unfolding process get_batch_backend_service_client process_by
  process_lem biz reqs p = elim (Option-cases (B.clients.load biz p.biz_to_batch_client)) [
    | inr (client, known) ↦
        rw (known, process, get_batch_backend_service_client) (with_client client reqs p)
    | inl missing ↦ elim (Option-cases (B.clients.load biz (B.load_clients p.world).0)) [
      | inr (client, known) ↦
          rw (missing, known, process, get_batch_backend_service_client) (with_client client reqs _)
      | inl unknown ↦
          rw (missing, unknown, process, get_batch_backend_service_client, process_by) (inl refl)
    ]
  ]

  get_elem?-below : (rs : List R) (j : ℕ) → j < length rs → (r : R) × (get_elem? rs j ≡ some r)
  get_elem?-below [] j h = absurd (omega arith)
  get_elem?-below (r ∷ rs) zero h = (r, refl)
  get_elem?-below (r ∷ rs) (suc j) h = get_elem?-below rs j (omega arith)

  get_elem?-length :
      (reqs : List (Request M)) (j : ℕ) (req : Request M)
      → get_elem? reqs j ≡ some req
      → j < length reqs
  get_elem?-length [] j req h = ground arith
  get_elem?-length (q ∷ reqs) zero req h = omega arith
  get_elem?-length (q ∷ reqs) (suc j) req h = omega (arith, get_elem?-length reqs j req h)

  -- What request `j` of a batch of requests is answered with.
  abbrev pub IsAnswer : List (Request M) → ℕ → Result R → Type 0
  IsAnswer reqs j answer =
      ((rs : List R) × (r : R) × Responded (map (λ req. req.message) reqs) rs
        × (get_elem? rs j ≡ some r)
        × (answer ≡ ok r))
      ⊎ ((e : Error) × IsFailure e × (answer ≡ err e))

  verdict_lem :
      (reqs : List (Request M)) (j : ℕ) (r : Result (List R))
      → j < length reqs
      → Answered (map (λ req. req.message) reqs) r
      → IsAnswer reqs j (verdict r (length reqs) j)
  verdict_lem reqs j (err e) h a = inr (e, a, refl)
  verdict_lem reqs j (ok rs) h a =
      let same : length rs ≡ length reqs = a.1 ∙ length-map (λ req. req.message) reqs in
      let (r, at) = get_elem?-below rs j (omega (arith, same)) in
      inl (rs, r, a.0, at, ground (arith, same, at))

  module _ (batch_size : ℤ) where
    -- With this processor, when the `i`-th batch of a coordinator is answered, in a state where every
    -- request is accounted for, nothing panics, and the request at place `j` finds in its channel
    -- the `j`-th response of one call of a backend with the messages of the batch, or one of the
    -- processor's three errors.
    pub delivered :
        (c : Coordinator M R (Processor B)) (i j : ℕ) (own : Bool) (b : Batch M)
        (rest : List (Bool × Batch M)) (req : Request M)
        → IsAccounted c
        → take_at i c.running ≡ some ((own, b), rest)
        → get_elem? b.requests j ≡ some req
        → (c' : Coordinator M R (Processor B)) × (answer : Result R) × (settle
              (process B)
              batch_size
              i
              c
            ≡ some c')
          × (lookup req.result_chan c'.results ≡ some answer)
          × IsAnswer b.requests j answer
    delivered c i j own b rest req h e at =
        let (c', run, found) = settle_lem (process B) batch_size c i j own b rest req h e at in
        let msgs = map (λ req. req.message) b.requests in
        (
          c',
          verdict (process B b.biz_id msgs c.world).0 (length b.requests) j,
          run,
          found,
          verdict_lem b.requests j (process B b.biz_id msgs c.world).0
              (get_elem?-length b.requests j req at) (process_lem b.biz_id msgs c.world),
        )
