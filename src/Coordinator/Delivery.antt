-- ===== src/Coordinator/Delivery.antt =====
-- internal/linkevent/coordinator.go, the results of a batch: which result each channel gets.
use ws_gateway.Common.{
  ℕ, zero, suc, ◌+◌, ◌≤◌, ◌≡◌, refl, true, false, Option, none, some, List, [], ◌∷◌, arith,
  if◌then◌else◌, is_some, ◌==◌, length, get_elem?, Bool-cases, inl, inr,
}
use ws_gateway.Common.Keys.{◌=?◌, =?_iff, nat_eq}
use ws_gateway.Common.Map.{lookup, lookup-insert}
use ws_gateway.Errors.{Error, Result, ok, err, response_mismatch}
use ws_gateway.Coordinator.{Request, offer, distribute_error, distribute_results, distribute}

module _ {M : Type 0} where
  -- How often a channel stands in a list of requests.
  abbrev pub count : ℕ → List (Request M) → ℕ
  count ch [] = 0
  count ch (req ∷ reqs) = if req.result_chan =? ch then suc (count ch reqs) else count ch reqs

  count_at :
      (reqs : List (Request M)) (i : ℕ) (req : Request M)
      → get_elem? reqs i ≡ some req
      → 1 ≤ count req.result_chan reqs
  count_at [] i req h = ground arith
  count_at (q ∷ reqs) zero req h = ground (arith, =?_iff q.result_chan req.result_chan)
  count_at (q ∷ reqs) (suc i) req h = ground (arith, count_at reqs i req)

module _ {R : Type 0} where
  abbrev pub answered : ℕ → List (ℕ × Result R) → ℕ
  answered ch results = if is_some (lookup ch results) then 1 else 0

  -- What request `i` of `n` is owed when the backend answers.
  abbrev pub verdict : Result (List R) → ℕ → ℕ → Result R
  verdict (err e) n i = err e
  verdict (ok rs) n i =
      if length rs == n
      then (elim (get_elem? rs i) [ none ↦ err [] | some r ↦ ok r ])
      else err (response_mismatch ∷ [])

module _ {M R : Type 0} where
  pub offer-lookup :
      (req : Request M) (r : Result R) (results : List (ℕ × Result R)) (ch : ℕ)
      → lookup ch (offer req r results) ≡ (
          if is_some (lookup ch results)
          then lookup ch results
          else if req.result_chan =? ch
          then some r
          else none)
  unfolding offer
  offer-lookup req r results ch =
      ground (arith, lookup-insert req.result_chan ch r results, =?_iff req.result_chan ch)

  pub distribute_error-lookup :
      (reqs : List (Request M)) (e : Error) (results : List (ℕ × Result R)) (ch : ℕ)
      → lookup ch (distribute_error reqs e results) ≡ (
          if is_some (lookup ch results)
          then lookup ch results
          else if count ch reqs == 0
          then none
          else some (err e))
  unfolding distribute_error
  distribute_error-lookup [] e results ch = ground arith
  distribute_error-lookup (req ∷ reqs) e results ch = ground (
    arith,
    distribute_error-lookup reqs e (offer req (err e) results) ch,
    offer-lookup req (err e) results ch,
    =?_iff req.result_chan ch,
  )

  -- The response at the first place where a channel stands.
  abbrev pub response_for : ℕ → List (Request M) → List R → Option (Result R)
  response_for ch [] rs = none
  response_for ch (req ∷ reqs) [] = none
  response_for ch (req ∷ reqs) (r ∷ rs) =
      if req.result_chan =? ch then some (ok r) else response_for ch reqs rs

  pub distribute_results-lookup :
      (reqs : List (Request M)) (rs : List R) (results : List (ℕ × Result R))
      → length rs ≡ length reqs
      → (results' : List (ℕ × Result R)) × (distribute_results reqs rs results ≡ some results')
        × ((ch : ℕ)
            → lookup ch results' ≡ (
                if is_some (lookup ch results) then lookup ch results else response_for ch reqs rs))
  unfolding distribute_results
  distribute_results-lookup [] rs results h = (results, refl, λ ch. ground arith)
  distribute_results-lookup (req ∷ reqs) [] results h = ground arith
  distribute_results-lookup (req ∷ reqs) (r ∷ rs) results h =
      let rec = distribute_results-lookup reqs rs (offer req (ok r) results) (omega arith) in
      (
        rec.0,
        rec.1,
        λ ch.
            ground (arith, rec.2 ch, offer-lookup req (ok r) results ch, =?_iff req.result_chan ch),
      )

  response_for_at :
      (reqs : List (Request M)) (rs : List R) (i : ℕ) (req : Request M)
      → length rs ≡ length reqs
      → count req.result_chan reqs ≤ 1
      → get_elem? reqs i ≡ some req
      → response_for req.result_chan reqs rs
        ≡ some (elim (get_elem? rs i) [ none ↦ err [] | some r ↦ ok r ])
  response_for_at [] rs i req l u h = ground arith
  response_for_at (q ∷ reqs) [] i req l u h = ground arith
  response_for_at (q ∷ reqs) (r ∷ rs) zero req l u h =
      ground (arith, =?_iff q.result_chan req.result_chan)
  response_for_at (q ∷ reqs) (r ∷ rs) (suc i) req l u h = ground (
    arith,
    count_at reqs i req,
    response_for_at reqs rs i req,
    =?_iff q.result_chan req.result_chan,
  )

  response_for_absent :
      (reqs : List (Request M)) (rs : List R) (ch : ℕ)
      → length rs ≡ length reqs
      → is_some (response_for ch reqs rs) ≡ (if count ch reqs == 0 then false else true)
  response_for_absent [] rs ch l = refl
  response_for_absent (q ∷ reqs) [] ch l = ground arith
  response_for_absent (q ∷ reqs) (r ∷ rs) ch l = ground (arith, response_for_absent reqs rs ch)

  -- All that a distribution does, for every channel and every place at once.
  abbrev pub Served : List (Request M) → Result (List R) → List (ℕ × Result R) → Type 0
  Served reqs answer results =
      (results' : List (ℕ × Result R)) × (distribute reqs answer results ≡ some results')
      × ((ch : ℕ) → answered ch results' ≡ count ch reqs + answered ch results)
      × ((i : ℕ) (req : Request M)
          → get_elem? reqs i ≡ some req
          → lookup req.result_chan results' ≡ some (verdict answer (length reqs) i))

  module _ (reqs : List (Request M)) (results : List (ℕ × Result R))
      (fresh : (ch : ℕ) → count ch reqs + answered ch results ≤ 1) where
    error-answered :
        (e : Error) (ch : ℕ)
        → answered ch (distribute_error reqs e results) ≡ count ch reqs + answered ch results
    error-answered e ch = ground (arith, fresh ch, distribute_error-lookup reqs e results ch)

    error-lookup :
        (e : Error) (i : ℕ) (req : Request M)
        → get_elem? reqs i ≡ some req
        → lookup req.result_chan (distribute_error reqs e results) ≡ some (err e)
    error-lookup e i req h = ground (
      arith,
      fresh req.result_chan,
      count_at reqs i req,
      distribute_error-lookup reqs e results req.result_chan,
    )

    mismatched : (rs : List R) → (length rs == length reqs) ≡ false → Served reqs (ok rs) results
    unfolding distribute
    mismatched rs h = (
      distribute_error reqs (response_mismatch ∷ []) results,
      ground arith,
      error-answered (response_mismatch ∷ []),
      λ i req at. ground (arith, error-lookup (response_mismatch ∷ []) i req),
    )

    matched : (rs : List R) → (length rs == length reqs) ≡ true → Served reqs (ok rs) results
    unfolding distribute
    matched rs h =
        let all = distribute_results-lookup reqs rs results (ground arith) in
        (
          all.0,
          ground (arith, all.1),
          λ ch. ground (arith, fresh ch, all.2 ch, response_for_absent reqs rs ch),
          λ i req at. ground (
            arith,
            fresh req.result_chan,
            all.2 req.result_chan,
            count_at reqs i req,
            response_for_at reqs rs i req,
          ),
        )

    pub distribute-Served : (answer : Result (List R)) → Served reqs answer results
    unfolding distribute
    distribute-Served (err e) =
        (distribute_error reqs e results, refl, error-answered e, error-lookup e)
    distribute-Served (ok rs) = elim (Bool-cases (length rs == length reqs)) [
      | inl h ↦ matched rs h
      | inr h ↦ mismatched rs h
    ]
