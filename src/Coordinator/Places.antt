-- ===== src/Coordinator/Places.antt =====
-- internal/linkevent/coordinator.go: counting a channel in the batches of the map and in those on
-- their way to the backend.
use ws_gateway.Common.{
  ℕ, zero, suc, ◌+◌, ◌≡◌, Bool, false, some, List, [], ◌∷◌, ◌++◌, arith, if◌then◌else◌,
  Option-cases, inl, inr,
}
use ws_gateway.Common.Int.{ℤ}
use ws_gateway.Common.Keys.{◌=?◌, =?_iff, nat_eq, int_eq}
use ws_gateway.Common.Map.{lookup, insert, delete, IsMap, delete_absent}
use ws_gateway.Coordinator.{Request, Batch, take_at, batch_for}
use ws_gateway.Coordinator.Delivery.{count}

module _ {M : Type 0} where
  -- How often a channel stands in the batches of the map, and in those on their way.
  abbrev pub in_batches : ℕ → List (ℤ × Batch M) → ℕ
  in_batches ch [] = 0
  in_batches ch ((biz, b) ∷ rest) = count ch b.requests + in_batches ch rest

  abbrev pub in_running : ℕ → List (Bool × Batch M) → ℕ
  in_running ch [] = 0
  in_running ch ((own, b) ∷ rest) = count ch b.requests + in_running ch rest

  abbrev pub Open : List (ℤ × Batch M) → Type 0
  Open [] = Unit
  Open ((biz, b) ∷ rest) = (b.closed ≡ false) × Open rest

  abbrev pub OpenRunning : List (Bool × Batch M) → Type 0
  OpenRunning [] = Unit
  OpenRunning ((own, b) ∷ rest) = (b.closed ≡ false) × OpenRunning rest

  pub count-append :
      (ch : ℕ) (xs : List (Request M)) (req : Request M)
      → count ch (xs ++ req ∷ []) ≡ count ch xs + (if req.result_chan =? ch then 1 else 0)
  count-append ch [] req = ground arith
  count-append ch (x ∷ xs) req = ground (arith, count-append ch xs req)

  -- A request added to the batch of its business.
  pub in_batches-insert :
      (ch : ℕ) (biz : ℤ) (req : Request M) (batches : List (ℤ × Batch M)) (b : Batch M)
      → b.requests ≡ (batch_for biz batches).requests ++ req ∷ []
      → in_batches ch (insert biz b batches)
        ≡ in_batches ch batches + (if req.result_chan =? ch then 1 else 0)
  unfolding insert lookup batch_for
  in_batches-insert ch biz req [] b e = rw e (ground arith)
  in_batches-insert ch biz req ((biz', b') ∷ rest) b e =
      ground (
        arith,
        =?_iff biz' biz,
        count-append ch b'.requests req,
        in_batches-insert ch biz req rest b,
      )

  pub in_batches-delete :
      (ch : ℕ) (biz : ℤ) (batches : List (ℤ × Batch M)) {b : Batch M}
      → IsMap batches
      → lookup biz batches ≡ some b
      → in_batches ch (delete biz batches) + count ch b.requests ≡ in_batches ch batches
  unfolding delete lookup
  in_batches-delete ch biz [] u h = ground arith
  in_batches-delete ch biz ((biz', b') ∷ rest) {b} u h =
      ground (arith, =?_iff biz' biz, delete_absent biz rest, in_batches-delete ch biz rest {b = b})

  pub in_running-append :
      (ch : ℕ) (own : Bool) (b : Batch M) (xs : List (Bool × Batch M))
      → in_running ch (xs ++ (own, b) ∷ []) ≡ in_running ch xs + count ch b.requests
  in_running-append ch own b [] = omega arith
  in_running-append ch own b ((o, x) ∷ xs) = ground (arith, in_running-append ch own b xs)

  pub in_running-take :
      (ch i : ℕ) (xs rest : List (Bool × Batch M)) (x : Bool × Batch M)
      → take_at i xs ≡ some (x, rest)
      → in_running ch xs ≡ count ch x.1.requests + in_running ch rest
  in_running-take ch i [] rest x h = ground arith
  in_running-take ch zero (y ∷ xs) rest x h = ground arith
  in_running-take ch (suc i) (y ∷ xs) rest x h = elim (Option-cases (take_at i xs)) [
    | inl e ↦ ground arith
    | inr r ↦ ground (arith, in_running-take ch i xs r.0.1 r.0.0)
  ]

  pub insert-Open :
      (biz : ℤ) (b : Batch M) (batches : List (ℤ × Batch M))
      → b.closed ≡ false
      → Open batches
      → Open (insert biz b batches)
  unfolding insert
  insert-Open biz b [] h u = (h, tt)
  insert-Open biz b ((biz', b') ∷ rest) h u = ground (arith, insert-Open biz b rest)

  pub delete-Open :
      (biz : ℤ) (batches : List (ℤ × Batch M)) → Open batches → Open (delete biz batches)
  unfolding delete
  delete-Open biz [] u = tt
  delete-Open biz ((biz', b') ∷ rest) u = ground (arith, delete-Open biz rest)

  pub lookup-Open :
      (biz : ℤ) (batches : List (ℤ × Batch M)) {b : Batch M}
      → Open batches
      → lookup biz batches ≡ some b
      → b.closed ≡ false
  unfolding lookup
  lookup-Open biz [] u h = ground arith
  lookup-Open biz ((biz', b') ∷ rest) {b} u h = ground (arith, lookup-Open biz rest {b = b})

  pub append-OpenRunning :
      (own : Bool) (b : Batch M) (xs : List (Bool × Batch M))
      → b.closed ≡ false
      → OpenRunning xs
      → OpenRunning (xs ++ (own, b) ∷ [])
  append-OpenRunning own b [] h u = (h, tt)
  append-OpenRunning own b (x ∷ xs) h u = (u.0, append-OpenRunning own b xs h u.1)

  pub take-OpenRunning :
      (i : ℕ) (xs rest : List (Bool × Batch M)) (x : Bool × Batch M)
      → take_at i xs ≡ some (x, rest)
      → OpenRunning xs
      → (x.1.closed ≡ false) × OpenRunning rest
  take-OpenRunning i [] rest x h u = ground arith
  take-OpenRunning zero (y ∷ xs) rest x h u = ground arith
  take-OpenRunning (suc i) (y ∷ xs) rest x h u = elim (Option-cases (take_at i xs)) [
    | inl e ↦ ground arith
    | inr r ↦ ground (arith, take-OpenRunning i xs r.0.1 r.0.0)
  ]
