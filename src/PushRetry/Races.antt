-- ===== src/PushRetry/Races.antt =====
-- pkg/pushretry/manager.go: a `Stop` that comes while `retry` is in `pushFunc`.
use ws_gateway.Common.{
  ℕ, suc, ◌+◌, ◌≡◌, ◌≢◌, refl, ap, ◌∙◌, inl, inr, true, false, none, some, List, arith, Bool-cases,
  Option-cases, is_some,
}
use ws_gateway.Common.Int.{pos, leb_ℤ, ◌+ℤ◌}
use ws_gateway.Common.Keys.{Text, nat_eq, text_eq, =?_iff, =?_refl}
use ws_gateway.Common.Map.{lookup, insert, lookup-insert, insert-insert}
use ws_gateway.Common.SyncMap.{SyncMap}
use ws_gateway.PushRetry
use ws_gateway.PushRetry.{LinkApi, begin_fire, end_fire, begun, rearm, stop_and_delete_task}
use ws_gateway.PushRetry.Invariant.{stopped, stop_present}

module _ (S : SyncMap Text ℕ) (I : LinkApi) where
  open S use {load}
  open I use {Link, Message, World, link_id, push, update_active_time}

  -- The task after a push that succeeded, before its timer is set again.
  abbrev pub sent : PushRetry.Task S I → World → PushRetry.Task S I
  sent t w = record t {
    armed = false;
    retry_count = t.retry_count + 1;
    message = (push t.link t.message w).1;
  }

  again_lem :
      (i : ℕ) (t : PushRetry.Task S I) (heap : List (ℕ × PushRetry.Task S I))
      → rearm S I i (insert i t heap) ≡ insert i (record t { armed = true }) heap
  again_lem i t heap = rw (at, rearm) (insert-insert i t (record t { armed = true }) heap)
    where
      at : lookup i (insert i t heap) ≡ some t
      at = lookup-insert i i t heap ∙ rw (=?_refl i) refl

  -- The two halves of a retry, with nothing between them, are the retry.
  pub halves_lem :
      (i : ℕ) (m : PushRetry.Manager S I) (w : World)
      → (let b = begin_fire S I i m w in end_fire S I i b.0 b.1 b.2) ≡ PushRetry.fire S I i m w
  unfolding begin_fire end_fire PushRetry.fire
  halves_lem i m w = elim (Option-cases (lookup i m.heap)) [
    | inl e ↦ rw (e, begin_fire, PushRetry.fire) refl
    | inr (t, e) ↦ elim (Bool-cases t.armed) [
      | inr off ↦ rw (e, off, begin_fire, PushRetry.fire, begun) refl
      | inl on ↦ elim (Bool-cases (is_some (load t.key m.tasks))) [
        | inr gone ↦ rw (e, on, gone, begin_fire, PushRetry.fire, begun) refl
        | inl there ↦ elim (Bool-cases (leb_ℤ m.max_retries (pos (t.retry_count + 1)))) [
          | inl x ↦ rw (e, on, there, x, begin_fire, PushRetry.fire, begun) refl
          | inr x ↦ elim (Bool-cases (push t.link t.message w).0) [
            | inl f ↦ rw (e, on, there, x, f, begin_fire, PushRetry.fire, begun) refl
            | inr f ↦
                rw (e, on, there, x, f, begin_fire, PushRetry.fire, begun)
                  (ap
                    (λ h. (
                      record m { heap = h },
                      update_active_time t.link (push t.link t.message w).2,
                    ))
                    (again_lem i (sent t w) m.heap))
          ]
        ]
      ]
    ]
  ]

  begin_lem :
      (i : ℕ) (t : PushRetry.Task S I) (m : PushRetry.Manager S I) (w : World)
      → lookup i m.heap ≡ some t
      → t.armed ≡ true
      → is_some (load t.key m.tasks) ≡ true
      → leb_ℤ m.max_retries (pos (t.retry_count + 1)) ≡ false
      → begin_fire S I i m w ≡ (
        some ((push t.link t.message w).0, sent t w),
        record m { heap = insert i (sent t w) m.heap },
        (push t.link t.message w).2,
      )
  unfolding begin_fire
  begin_lem i t m w here armed there below = rw (here, armed, there, below, begin_fire) refl

  stop_lem :
      (i : ℕ) (t : PushRetry.Task S I) (m : PushRetry.Manager S I)
      → lookup i m.heap ≡ some t
      → load t.key m.tasks ≡ some i
      → PushRetry.stop S I t.key m ≡ stopped S I t.key i t m
  unfolding PushRetry.stop
  stop_lem i t m here there =
      rw (there, PushRetry.stop) (ap (λ p. p.0) (stop_present S I t.key i t m there here))

  abbrev pushing : ℕ → PushRetry.Task S I → PushRetry.Manager S I → World → PushRetry.Manager S I
  pushing i t m w = record m { heap = insert i (sent t w) m.heap }

  abbrev pub on_again : PushRetry.Task S I → PushRetry.Task S I
  on_again t = record t { armed = true }

  -- The manager after the retry, with a `Stop` of the key during its push.
  abbrev raced : ℕ → PushRetry.Task S I → PushRetry.Manager S I → World → PushRetry.Manager S I
  raced i t m w =
      let h = (stopped S I t.key i (sent t w) (pushing i t m w)).heap in
      record (stopped S I t.key i (sent t w) (pushing i t m w)) {
        heap = insert i (on_again (sent t w)) h;
      }

  rearm_lem :
      (i : ℕ) (t : PushRetry.Task S I) (heap : List (ℕ × PushRetry.Task S I))
      → lookup i heap ≡ some t
      → rearm S I i heap ≡ insert i (on_again t) heap
  rearm_lem i t heap e = rw (e, rearm) refl

  end_lem :
      (i : ℕ) (t : PushRetry.Task S I) (m : PushRetry.Manager S I) (w w' : World)
      → load t.key m.tasks ≡ some i
      → (end_fire S I i (some (false, sent t w)) (PushRetry.stop S I t.key (pushing i t m w)) w').0
        ≡ raced i t m w
  unfolding end_fire
  end_lem i t m w w' there =
      let at : lookup i (pushing i t m w).heap ≡ some (sent t w) =
        lookup-insert i i (sent t w) m.heap ∙ rw (=?_refl i) refl in
      let still : lookup i (insert i (sent t w) (pushing i t m w).heap) ≡ some (sent t w) =
        lookup-insert i i (sent t w) (pushing i t m w).heap ∙ rw (=?_refl i) refl in
      rw (stop_lem i (sent t w) (pushing i t m w) at there) (
        ap (λ h. record (stopped S I t.key i (sent t w) (pushing i t m w)) { heap = h })
          (rearm_lem i (sent t w) _ still))

  raced-armed :
      (i : ℕ) (t : PushRetry.Task S I) (m : PushRetry.Manager S I) (w : World)
      → lookup i (raced i t m w).heap ≡ some (on_again (sent t w))
  raced-armed i t m w = lookup-insert i i _ _ ∙ rw (=?_refl i) refl

  raced-gone :
      (i : ℕ) (t : PushRetry.Task S I) (m : PushRetry.Manager S I) (w : World)
      → load t.key (raced i t m w).tasks ≡ none
  raced-gone i t m w = ground (arith, S.load-remove t.key t.key m.tasks, =?_refl t.key)

  abbrev fresh_task : Text → Link → Message → PushRetry.Task S I
  fresh_task key l msg = record {
    key = key;
    link = l;
    message = msg;
    armed = true;
    retry_count = 0;
  }

  abbrev restarted : Text → Link → Message → PushRetry.Manager S I → PushRetry.Manager S I
  restarted key l msg m = record m {
    tasks = S.store key m.next m.tasks;
    heap = insert m.next (fresh_task key l msg) m.heap;
    next = suc m.next;
    total_tasks = m.total_tasks +ℤ pos 1;
  }

  start_lem :
      (key : Text) (l : Link) (msg : Message) (m : PushRetry.Manager S I)
      → m.closed ≡ false
      → load key m.tasks ≡ none
      → PushRetry.start S I key l msg m ≡ restarted key l msg m
  unfolding PushRetry.start
  start_lem key l msg m open_ gone = ground arith

  -- A task whose timer is armed sends again once its key leads to a new task.
  revived :
      (i : ℕ) (t : PushRetry.Task S I) (m : PushRetry.Manager S I) (w : World) (l : Link)
      (msg : Message)
      → lookup i m.heap ≡ some t
      → t.armed ≡ true
      → load t.key m.tasks ≡ none
      → m.closed ≡ false
      → i ≢ m.next
      → leb_ℤ m.max_retries (pos (t.retry_count + 1)) ≡ false
      → (begin_fire S I i (PushRetry.start S I t.key l msg m) w).0
        ≡ some ((push t.link t.message w).0, sent t w)
  revived i t m w l msg here armed gone open_ other below =
      let kept : lookup i (restarted t.key l msg m).heap ≡ some t =
        ground (arith, lookup-insert m.next i (fresh_task t.key l msg) m.heap, =?_iff m.next i) in
      let there : is_some (load t.key (restarted t.key l msg m).tasks) ≡ true =
        ground (arith, S.load-store t.key t.key m.next m.tasks, =?_refl t.key) in
      rw (start_lem t.key l msg m open_ gone)
        (ap (λ p. p.0) (begin_lem i t (restarted t.key l msg m) w kept armed there below))

  -- A `Stop` that comes while the retry of its task is in `pushFunc`, on a manager that is not closed: if
  -- the push succeeds, the retry sets the timer again although the key is gone; and if the key is
  -- started again before that timer fires, with another message or link, the old task sends its own
  -- message once more, unless its retries have run out.
  pub stop_in_push_lem :
      (i : ℕ) (t : PushRetry.Task S I) (m : PushRetry.Manager S I) (w w' : World) (l : Link)
      (msg : Message)
      → lookup i m.heap ≡ some t
      → t.armed ≡ true
      → load t.key m.tasks ≡ some i
      → i ≢ m.next
      → m.closed ≡ false
      → leb_ℤ m.max_retries (pos (t.retry_count + 1)) ≡ false
      → leb_ℤ m.max_retries (pos (t.retry_count + 1 + 1)) ≡ false
      → (push t.link t.message w).0 ≡ false
      → let b = begin_fire S I i m w in
        let stopped = PushRetry.stop S I t.key b.1 in
        let m' = (end_fire S I i b.0 stopped b.2).0 in
        (load t.key stopped.tasks ≡ none)
        × (load t.key m'.tasks ≡ none)
        × (lookup i m'.heap ≡ some (on_again (sent t w)))
        × ((begin_fire S I i (PushRetry.start S I t.key l msg m') w').0
            ≡ some ((push t.link (sent t w).message w').0, sent (on_again (sent t w)) w'))
  stop_in_push_lem i t m w w' l msg here armed there other open_ below below' fine =
      let begins = begin_lem i t m w here armed (rw there refl) below in
      let at : lookup i (pushing i t m w).heap ≡ some (sent t w) =
        lookup-insert i i (sent t w) m.heap ∙ rw (=?_refl i) refl in
      rw (begins, fine, end_lem i t m w (push t.link t.message w).2 there)
        (
          rw (stop_lem i (sent t w) (pushing i t m w) at there) (raced-gone i t m w),
          raced-gone i t m w,
          raced-armed i t m w,
          revived i (on_again (sent t w)) (raced i t m w) w' l msg (raced-armed i t m w) refl
              (raced-gone i t m w) open_ other below',
        )
