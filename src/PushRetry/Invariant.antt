-- ===== src/PushRetry/Invariant.antt =====
-- pkg/pushretry/manager.go: what holds of the manager between two method calls.
use ws_gateway.Common.{
  ◌⊎◌, inl, inr, Bool-cases, subst, sym, Option-cases, ◌∙◌, ℕ, suc, ◌≤◌, ◌≡◌, refl, true, false,
  none, some, List, arith,
}
use ws_gateway.Common.Int.{pos, negsuc, ◌+ℤ◌, +ℤ-one, +ℤ-minus_one}
use ws_gateway.Common.Keys.{Text, ◌=?◌, =?_iff, nat_eq, text_eq}
use ws_gateway.Common.Map.{lookup, insert, lookup-insert}
use ws_gateway.Common.SyncMap.{SyncMap, size, size-store_fresh, size-remove}
use ws_gateway.PushRetry.{LinkApi}
use ws_gateway.PushRetry

module _ (S : SyncMap Text ℕ) (I : LinkApi) where
  open S use {load, store, remove}

  -- The counter counts the entries; an entry names a task of its key; a task is armed exactly
  -- while it is the entry of its key; references are allocated in order.
  pub record IsWellFormed (m : PushRetry.Manager S I) : Type 0 where
    pub counted : m.total_tasks ≡ pos (size S m.tasks)
    pub named :
        (k : Text) (i : ℕ)
        → load k m.tasks ≡ some i
        → (t : PushRetry.Task S I) × (lookup i m.heap ≡ some t) × (t.key ≡ k) × (t.armed ≡ true)
    pub live :
        (i : ℕ) (t : PushRetry.Task S I)
        → lookup i m.heap ≡ some t
        → t.armed ≡ true
        → load t.key m.tasks ≡ some i
    pub fresh : (i : ℕ) → m.next ≤ i → lookup i m.heap ≡ none

  -- A new task under a free key.
  module _ (key : Text) (l : I.Link) (msg : I.Message) (m : PushRetry.Manager S I) where
    abbrev new_task : PushRetry.Task S I
    new_task = record { key = key; link = l; message = msg; armed = true; retry_count = 0 }

    abbrev added : PushRetry.Manager S I
    added = record m {
      tasks = store key m.next m.tasks;
      heap = insert m.next new_task m.heap;
      next = suc m.next;
      total_tasks = m.total_tasks +ℤ pos 1;
    }

    added-IsWellFormed : IsWellFormed m → load key m.tasks ≡ none → IsWellFormed added
    added-IsWellFormed h free = record {
      counted =
          rw (h.counted, size-store_fresh S key m.next m.tasks free) (+ℤ-one (size S m.tasks));
      named = λ k i e. elim (Bool-cases (key =? k)) [
        | inl same ↦ (
          new_task,
          ground (
            arith,
            S.load-store key k m.next m.tasks,
            lookup-insert m.next i new_task m.heap,
            =?_iff m.next i,
          ),
          (=?_iff key k).0 same,
          refl,
        )
        | inr other ↦
            let (t, e1, e2, e3) = h.named k i (ground (arith, S.load-store key k m.next m.tasks)) in
            (
              t,
              ground (arith, lookup-insert m.next i new_task m.heap, =?_iff m.next i, h.fresh i),
              e2,
              e3,
            )
      ];
      live = λ i t e a. ground (
        arith,
        lookup-insert m.next i new_task m.heap,
        =?_iff m.next i,
        =?_iff key t.key,
        S.load-store key t.key m.next m.tasks,
        h.live i t,
      );
      fresh =
          λ i u. ground (arith, lookup-insert m.next i new_task m.heap, =?_iff m.next i, h.fresh i);
    }

  start_cases :
      (key : Text) (l : I.Link) (msg : I.Message) (m : PushRetry.Manager S I)
      → (PushRetry.start S I key l msg m ≡ m)
        ⊎ ((load key m.tasks ≡ none) × (PushRetry.start S I key l msg m ≡ added key l msg m))
  unfolding PushRetry.start
  start_cases key l msg m = ground arith

  pub start-IsWellFormed :
      (key : Text) (l : I.Link) (msg : I.Message) (m : PushRetry.Manager S I)
      → IsWellFormed m
      → IsWellFormed (PushRetry.start S I key l msg m)
  start-IsWellFormed key l msg m h = elim (start_cases key l msg m) [
    | inl e ↦ subst IsWellFormed (sym e) h
    | inr (free, e) ↦ subst IsWellFormed (sym e) (added-IsWellFormed key l msg m h free)
  ]

  pub start-max_retries :
      (key : Text) (l : I.Link) (msg : I.Message) (m : PushRetry.Manager S I)
      → (PushRetry.start S I key l msg m).max_retries ≡ m.max_retries
  unfolding PushRetry.start
  start-max_retries key l msg m = ground arith

  -- The task of key `k` leaves: its reference keeps a task that is not armed.
  module _ (k : Text) (i : ℕ) (m : PushRetry.Manager S I)
      (heap' : List (ℕ × PushRetry.Task S I)) where
    abbrev removed : PushRetry.Manager S I
    removed = record m {
      tasks = remove k m.tasks;
      heap = heap';
      total_tasks = m.total_tasks +ℤ negsuc 0;
    }

    pub removed-IsWellFormed :
        IsWellFormed m
        → load k m.tasks ≡ some i
        → ((t : PushRetry.Task S I) → lookup i heap' ≡ some t → t.armed ≡ false)
        → ((j : ℕ) → (i =? j) ≡ false → lookup j heap' ≡ lookup j m.heap)
        → IsWellFormed removed
    removed-IsWellFormed h here off same = record {
      counted =
          rw (h.counted, ← size-remove S k m.tasks here) (+ℤ-minus_one (size S (remove k m.tasks)));
      named = λ k' j e.
          let e' : load k' m.tasks ≡ some j = ground (arith, S.load-remove k k' m.tasks) in
          let (t, e1, e2, e3) = h.named k' j e' in
          let apart : (i =? j) ≡ false =
            ground (arith, =?_iff i j, =?_iff k k', h.named k i here, S.load-remove k k' m.tasks) in
          (t, same j apart ∙ e1, e2, e3);
      live = λ j t e a. ground (
        arith,
        off t,
        same j,
        h.live j t,
        =?_iff i j,
        =?_iff k t.key,
        S.load-remove k t.key m.tasks,
      );
      fresh = λ j u. ground (arith, same j, h.named k i here, h.fresh j, =?_iff i j);
    }

    -- The task of key `k` stays, and is armed again.
    abbrev kept : PushRetry.Manager S I
    kept = record m { heap = heap' }

    pub kept-IsWellFormed :
        (t' : PushRetry.Task S I)
        → IsWellFormed m
        → load k m.tasks ≡ some i
        → lookup i heap' ≡ some t'
        → t'.key ≡ k
        → t'.armed ≡ true
        → ((j : ℕ) → (i =? j) ≡ false → lookup j heap' ≡ lookup j m.heap)
        → IsWellFormed kept
    kept-IsWellFormed t' h here at key on same = record {
      counted = h.counted;
      named = λ k' j e. elim (Bool-cases (i =? j)) [
        | inl eq ↦ (
          t',
          ground (arith, =?_iff i j),
          ground (arith, =?_iff i j, h.named k i here, h.named k' j e),
          on,
        )
        | inr ne ↦ let (t, e1, e2, e3) = h.named k' j e in (t, same j ne ∙ e1, e2, e3)
      ];
      live = λ j t e a. ground (arith, same j, h.live j t, =?_iff i j);
      fresh = λ j u. ground (arith, same j, h.named k i here, h.fresh j, =?_iff i j);
    }

  abbrev pub stopped : Text → ℕ → PushRetry.Task S I → PushRetry.Manager S I → PushRetry.Manager S I
  stopped key i t m = removed key i m (insert i (record t { armed = false }) m.heap)

  pub stop_missing :
      (key : Text) (m : PushRetry.Manager S I)
      → load key m.tasks ≡ none
      → PushRetry.stop_and_delete_task S I key m ≡ (m, false)
  unfolding PushRetry.stop_and_delete_task
  stop_missing key m e = rw (e, PushRetry.stop_and_delete_task)

  pub stop_present :
      (key : Text) (i : ℕ) (t : PushRetry.Task S I) (m : PushRetry.Manager S I)
      → load key m.tasks ≡ some i
      → lookup i m.heap ≡ some t
      → PushRetry.stop_and_delete_task S I key m ≡ (stopped key i t m, true)
  unfolding PushRetry.stop_and_delete_task
  stop_present key i t m e e1 = ground arith

  pub stop_and_delete_task-IsWellFormed :
      (key : Text) (m : PushRetry.Manager S I)
      → IsWellFormed m
      → IsWellFormed (PushRetry.stop_and_delete_task S I key m).0
  stop_and_delete_task-IsWellFormed key m h = elim (Option-cases (load key m.tasks)) [
    | inl e ↦ rw (stop_missing key m e) h
    | inr (i, e) ↦
        let (t, e1, e2, e3) = h.named key i e in
        rw (stop_present key i t m e e1) (
          removed-IsWellFormed key i m (insert i (record t { armed = false }) m.heap) h e
            (λ t' e'.
              ground (arith, lookup-insert i i (record t { armed = false }) m.heap, =?_iff i i))
            (λ j ne. ground (arith, lookup-insert i j (record t { armed = false }) m.heap)))
  ]
