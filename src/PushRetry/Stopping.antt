-- ===== src/PushRetry/Stopping.antt =====
-- pkg/pushretry/manager.go: what `Stop`, `StopByLinkID` and `Close` remove.
use ws_gateway.Common.{
  ℕ, ◌+◌, ◌≡◌, refl, ◌∙◌, inl, inr, true, false, Option, none, some, List, [], ◌∷◌, arith,
  Option-cases, is_some, if◌then◌else◌,
}
use ws_gateway.Common.Keys.{Text, ◌=?◌, =?_iff, nat_eq, text_eq}
use ws_gateway.Common.Map.{lookup, IsMap, lookup-insert}
use ws_gateway.Common.SyncMap.{SyncMap, size, size-remove}
use ws_gateway.PushRetry.{LinkApi}
use ws_gateway.PushRetry

module _ (S : SyncMap Text ℕ) (I : LinkApi) where
  open S use {load, range}

  -- The effect on the map: the key goes, the others stay.
  pub load-stop_and_delete_task :
      (key k : Text) (m : PushRetry.Manager S I)
      → load k (PushRetry.stop_and_delete_task S I key m).0.tasks
        ≡ (if key =? k then none else load k m.tasks)
  unfolding PushRetry.stop_and_delete_task
  load-stop_and_delete_task key k m = ground (arith, S.load-remove key k m.tasks, =?_iff key k)

  pub stop_lem :
      (key k : Text) (m : PushRetry.Manager S I)
      → load k (PushRetry.stop S I key m).tasks ≡ (if key =? k then none else load k m.tasks)
  unfolding PushRetry.stop
  stop_lem key k m = ground (arith, load-stop_and_delete_task key k m, =?_iff key k)

  -- No method but `fire` changes what link a reference stands for.
  link_of_stopped :
      (key : Text) (i : ℕ) (m : PushRetry.Manager S I)
      → PushRetry.link_of S I i (PushRetry.stop_and_delete_task S I key m).0
        ≡ PushRetry.link_of S I i m
  unfolding PushRetry.link_of PushRetry.stop_and_delete_task
  link_of_stopped key i m = elim (Option-cases (load key m.tasks)) [
    | inl e ↦ ground arith
    | inr (j, e) ↦ elim (Option-cases (lookup j m.heap)) [
      | inl e1 ↦ ground arith
      | inr (t, e1) ↦
          ground (arith, lookup-insert j i (record t { armed = false }) m.heap, =?_iff j i)
    ]
  ]

  load-visit :
      (id key k : Text) (j : ℕ) (r : PushRetry.Manager S I × ℕ)
      → load k (PushRetry.visit S I id (key, j) r).0.tasks ≡ (
          if PushRetry.on_link id (PushRetry.link_of S I j r.0)
          then (if key =? k then none else load k r.0.tasks)
          else load k r.0.tasks)
  unfolding PushRetry.visit
  load-visit id key k j r = ground (arith, load-stop_and_delete_task key k r.0)

  link_of-visit :
      (id key : Text) (i j : ℕ) (r : PushRetry.Manager S I × ℕ)
      → PushRetry.link_of S I i (PushRetry.visit S I id (key, j) r).0 ≡ PushRetry.link_of S I i r.0
  unfolding PushRetry.visit
  link_of-visit id key i j r = ground (arith, link_of_stopped key i r.0)

  -- What is left of the entry `cur` of a key that the loop of `StopByLinkID` visits, or does not.
  abbrev pub left : Text → Option ℕ → Option ℕ → PushRetry.Manager S I → Option ℕ
  left id none cur m = cur
  left id (some i) cur m = if PushRetry.on_link id (PushRetry.link_of S I i m) then none else cur

  stop_loop_lem :
      (id : Text) (es : List (Text × ℕ)) (r : PushRetry.Manager S I × ℕ) (k : Text)
      → IsMap es
      → load k (PushRetry.stop_loop S I id es r).0.tasks
        ≡ left id (lookup k es) (load k r.0.tasks) r.0
  unfolding PushRetry.stop_loop lookup
  stop_loop_lem id [] r k u = refl
  stop_loop_lem id ((key, j) ∷ rest) r k u =
      stop_loop_lem id rest (PushRetry.visit S I id (key, j) r) k u.1
      ∙ elim (Option-cases (lookup k rest)) [
        | inl e ↦ ground (arith, load-visit id key k j r, =?_iff key k)
        | inr (i, e) ↦
            ground (arith, load-visit id key k j r, =?_iff key k, link_of-visit id key i j r)
      ]

  -- `StopByLinkID` frees exactly the keys whose task runs on the link, and keeps every other entry.
  pub stop_by_link_id_lem :
      (id k : Text) (m : PushRetry.Manager S I)
      → load k (PushRetry.stop_by_link_id S I id m).0.tasks
        ≡ left id (load k m.tasks) (load k m.tasks) m
  unfolding PushRetry.stop_by_link_id
  stop_by_link_id_lem id k m =
      stop_loop_lem id (range m.tasks) (m, 0) k (S.range-IsMap m.tasks)
      ∙ rw (S.lookup-range k m.tasks)

  visit-size :
      (id key : Text) (j : ℕ) (r : PushRetry.Manager S I × ℕ)
      → size S (PushRetry.visit S I id (key, j) r).0.tasks + (PushRetry.visit S I id (key, j) r).1
        ≡ size S r.0.tasks + r.1
  unfolding PushRetry.visit PushRetry.stop_and_delete_task
  visit-size id key j r = elim (Option-cases (load key r.0.tasks)) [
    | inl e ↦ ground arith
    | inr (i, e) ↦ ground (arith, size-remove S key r.0.tasks e)
  ]

  stop_loop-size :
      (id : Text) (es : List (Text × ℕ)) (r : PushRetry.Manager S I × ℕ)
      → size S (PushRetry.stop_loop S I id es r).0.tasks + (PushRetry.stop_loop S I id es r).1
        ≡ size S r.0.tasks + r.1
  unfolding PushRetry.stop_loop
  stop_loop-size id [] r = refl
  stop_loop-size id ((key, j) ∷ rest) r =
      stop_loop-size id rest (PushRetry.visit S I id (key, j) r) ∙ visit-size id key j r

  -- The count that `StopByLinkID` logs is the number of entries that it removed.
  pub stop_by_link_id-count :
      (id : Text) (m : PushRetry.Manager S I)
      → size S (PushRetry.stop_by_link_id S I id m).0.tasks + (PushRetry.stop_by_link_id S I id m).1
        ≡ size S m.tasks
  unfolding PushRetry.stop_by_link_id
  stop_by_link_id-count id m = omega (arith, stop_loop-size id (range m.tasks) (m, 0))

  close_loop_lem :
      (es : List (Text × ℕ)) (m : PushRetry.Manager S I) (k : Text)
      → load k (PushRetry.close_loop S I es m).tasks
        ≡ (if is_some (lookup k es) then none else load k m.tasks)
  unfolding PushRetry.close_loop lookup
  close_loop_lem [] m k = refl
  close_loop_lem ((key, j) ∷ rest) m k =
      close_loop_lem rest (PushRetry.stop_and_delete_task S I key m).0 k
      ∙ ground (arith, load-stop_and_delete_task key k m)

  stopped-closed :
      (key : Text) (m : PushRetry.Manager S I)
      → (PushRetry.stop_and_delete_task S I key m).0.closed ≡ m.closed
  unfolding PushRetry.stop_and_delete_task
  stopped-closed key m = ground arith

  close_loop-closed :
      (es : List (Text × ℕ)) (m : PushRetry.Manager S I)
      → (PushRetry.close_loop S I es m).closed ≡ m.closed
  unfolding PushRetry.close_loop
  close_loop-closed [] m = refl
  close_loop-closed ((key, j) ∷ rest) m =
      close_loop-closed rest (PushRetry.stop_and_delete_task S I key m).0 ∙ stopped-closed key m

  -- `Close` removes every task, and no later `Start` changes the manager.
  pub close_lem :
      (m : PushRetry.Manager S I)
      → ((k : Text) → load k (PushRetry.close S I m).tasks ≡ none)
        × ((key : Text) (l : I.Link) (msg : I.Message)
            → PushRetry.start S I key l msg (PushRetry.close S I m) ≡ PushRetry.close S I m)
  unfolding PushRetry.close PushRetry.start
  close_lem m = (
    λ k. ground (
      arith,
      close_loop_lem (range m.tasks) (record m { closed = true }) k,
      S.lookup-range k m.tasks,
    ),
    λ key l msg. ground (arith, close_loop-closed (range m.tasks) (record m { closed = true })),
  )
