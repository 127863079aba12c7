-- ===== src/PushRetry/Retries.antt =====
-- pkg/pushretry/manager.go: the timer's handler `retry` and its repetition.
use ws_gateway.Common.{
  ℕ, zero, suc, ◌+◌, ◌<◌, ◌≡◌, refl, ap, sym, subst, ◌⊎◌, inl, inr, Bool, true, false, none, some,
  arith, Bool-cases, Option-cases,
}
use ws_gateway.Common.Int.{pos, leb_ℤ, ◌≤ℤ◌}
use ws_gateway.Common.Keys.{Text, =?_iff, nat_eq, text_eq}
use ws_gateway.Common.Map.{lookup, insert, lookup-insert}
use ws_gateway.Common.SyncMap.{SyncMap}
use ws_gateway.PushRetry.{LinkApi}
use ws_gateway.PushRetry
use ws_gateway.PushRetry.Invariant
use ws_gateway.PushRetry.Invariant.{IsWellFormed}

module _ (S : SyncMap Text ℕ) (I : LinkApi) where
  open S use {load}
  open I use {World, push, update_active_time}

  -- The task after the counter went up and its timer was spent.
  abbrev pub counted : PushRetry.Task S I → PushRetry.Task S I
  counted t = record t { armed = false; retry_count = t.retry_count + 1 }

  -- The same after a push, which may have changed the shared message.
  abbrev pub pushed : PushRetry.Task S I → World → PushRetry.Task S I
  pushed t w = record t {
    armed = false;
    retry_count = t.retry_count + 1;
    message = (push t.link t.message w).1;
  }

  -- The limit is reached with this firing.
  abbrev pub exhausted : PushRetry.Task S I → PushRetry.Manager S I → Bool
  exhausted t m = leb_ℤ m.max_retries (pos (t.retry_count + 1))

  -- The manager that gives up the task `i` with contents `t`.
  abbrev pub given_up : ℕ → PushRetry.Task S I → PushRetry.Manager S I → PushRetry.Manager S I
  given_up i t m = Invariant.stopped S I t.key i t (record m { heap = insert i t m.heap })

  -- The manager that waits for the next firing of the task `i`.
  abbrev pub rearmed : ℕ → PushRetry.Task S I → PushRetry.Manager S I → PushRetry.Manager S I
  rearmed i t m = record m { heap = insert i (record t { armed = true }) m.heap }

  module _ (i : ℕ) (t : PushRetry.Task S I) (m : PushRetry.Manager S I) (w : World)
      (h : IsWellFormed S I m) (at : lookup i m.heap ≡ some t) (on : t.armed ≡ true) where
    drop :
        (t' : PushRetry.Task S I)
        → t'.key ≡ t.key
        → (PushRetry.stop_and_delete_task S I t.key (record m { heap = insert i t' m.heap })).0
          ≡ given_up i t' m
    drop t' k = rw (
      Invariant.stop_present S I t.key i t' (record m { heap = insert i t' m.heap })
          (h.live i t at on) (ground (arith, lookup-insert i i t' m.heap, =?_iff i i)),
      k,
    )

    -- At the limit the task is dropped and nothing is sent.
    pub fire-exhausted :
        exhausted t m ≡ true → PushRetry.fire S I i m w ≡ (given_up i (counted t) m, w)
    unfolding PushRetry.fire
    fire-exhausted x = ground (arith, drop (counted t) refl, h.live i t at on)

    -- Below the limit the message is sent once; an error drops the task.
    pub fire_failed :
        exhausted t m ≡ false
        → (push t.link t.message w).0 ≡ true
        → PushRetry.fire S I i m w ≡ (given_up i (pushed t w) m, (push t.link t.message w).2)
    unfolding PushRetry.fire
    fire_failed x f = ground (arith, drop (pushed t w) refl, h.live i t at on)

    pub fire_sent :
        exhausted t m ≡ false
        → (push t.link t.message w).0 ≡ false
        → PushRetry.fire S I i m w
          ≡ (rearmed i (pushed t w) m, update_active_time t.link (push t.link t.message w).2)
    unfolding PushRetry.fire
    fire_sent x f = ground (arith, h.live i t at on)

    -- What a firing leaves: a manager without the task, or one that waits again.
    pub fire_cases :
        ((t' : PushRetry.Task S I) × (t'.key ≡ t.key)
          × (t'.armed ≡ false)
          × ((PushRetry.fire S I i m w).0 ≡ given_up i t' m))
        ⊎ ((exhausted t m ≡ false) × ((PushRetry.fire S I i m w).0 ≡ rearmed i (pushed t w) m))
    fire_cases = elim (Bool-cases (exhausted t m)) [
      | inl x ↦ inl (counted t, refl, refl, ap (λ r. r.0) (fire-exhausted x))
      | inr x ↦ elim (Bool-cases (push t.link t.message w).0) [
        | inl f ↦ inl (pushed t w, refl, refl, ap (λ r. r.0) (fire_failed x f))
        | inr f ↦ inr (x, ap (λ r. r.0) (fire_sent x f))
      ]
    ]

    given_up-IsWellFormed :
        (t' : PushRetry.Task S I) → t'.key ≡ t.key → IsWellFormed S I (given_up i t' m)
    given_up-IsWellFormed t' k =
        let stale : PushRetry.Task S I = record t' { armed = false } in
        Invariant.removed-IsWellFormed S I t'.key i m (insert i stale (insert i t' m.heap)) h
          (rw k (h.live i t at on))
          (λ u e. ground (arith, lookup-insert i i stale (insert i t' m.heap), =?_iff i i))
          (λ j ne.
            ground
              (arith, lookup-insert i j stale (insert i t' m.heap), lookup-insert i j t' m.heap))

    pub rearmed-IsWellFormed :
        (t' : PushRetry.Task S I) → t'.key ≡ t.key → IsWellFormed S I (rearmed i t' m)
    rearmed-IsWellFormed t' k =
        let again : PushRetry.Task S I = record t' { armed = true } in
        Invariant.kept-IsWellFormed S I t.key i m (insert i again m.heap) again h (h.live i t at on)
          (ground (arith, lookup-insert i i again m.heap, =?_iff i i)) k refl
          (λ j ne. ground (arith, lookup-insert i j again m.heap))

    armed-IsWellFormed : IsWellFormed S I (PushRetry.fire S I i m w).0
    armed-IsWellFormed = elim fire_cases [
      | inl (t', k, off, e) ↦ rw e (given_up-IsWellFormed t' k)
      | inr (x, e) ↦ rw e (rearmed-IsWellFormed (pushed t w) refl)
    ]

  -- A timer that is not armed does nothing.
  pub fire_idle :
      (i : ℕ) (m : PushRetry.Manager S I) (w : World)
      → ((t : PushRetry.Task S I) → lookup i m.heap ≡ some t → t.armed ≡ false)
      → PushRetry.fire S I i m w ≡ (m, w)
  unfolding PushRetry.fire
  fire_idle i m w off = elim (Option-cases (lookup i m.heap)) [
    | inl e ↦ ground arith
    | inr (t, e) ↦ ground (arith, off t)
  ]

  pub fire-IsWellFormed :
      (i : ℕ) (m : PushRetry.Manager S I) (w : World)
      → IsWellFormed S I m
      → IsWellFormed S I (PushRetry.fire S I i m w).0
  fire-IsWellFormed i m w h = elim (Option-cases (lookup i m.heap)) [
    | inl e ↦ rw (fire_idle i m w (λ t e'. ground arith)) h
    | inr (t, e) ↦ elim (Bool-cases t.armed) [
      | inl on ↦ armed-IsWellFormed i t m w h e on
      | inr off ↦ rw (fire_idle i m w (λ t' e'. ground arith)) h
    ]
  ]

  -- The timer of one task fires `n` times.
  unfoldable pub fires : ℕ → ℕ → PushRetry.Manager S I → World → PushRetry.Manager S I × World
  fires zero i m w = (m, w)
  fires (suc n) i m w = fires n i (PushRetry.fire S I i m w).0 (PushRetry.fire S I i m w).1

  fires_idle :
      (n i : ℕ) (m : PushRetry.Manager S I) (w : World)
      → ((t : PushRetry.Task S I) → lookup i m.heap ≡ some t → t.armed ≡ false)
      → fires n i m w ≡ (m, w)
  unfolding fires
  fires_idle zero i m w off = refl
  fires_idle (suc n) i m w off = rw (fire_idle i m w off) (fires_idle n i m w off)

  -- Once given up, a task's timer changes nothing any more.
  pub fires-given_up :
      (n i : ℕ) (t : PushRetry.Task S I) (m : PushRetry.Manager S I) (w : World)
      → fires n i (given_up i t m) w ≡ (given_up i t m, w)
  fires-given_up n i t m w =
      let stale : PushRetry.Task S I = record t { armed = false } in
      fires_idle n i (given_up i t m) w
        (λ u e. ground (arith, lookup-insert i i stale (insert i t m.heap), =?_iff i i))

  gone :
      (n i : ℕ) (t : PushRetry.Task S I) (m : PushRetry.Manager S I) (w : World)
      → load t.key (fires n i (given_up i t m) w).0.tasks ≡ none
  gone n i t m w =
      rw (fires-given_up n i t m w)
        (ground (arith, S.load-remove t.key t.key m.tasks, =?_iff t.key t.key))

  -- In a well-formed manager, a task whose timer is armed has ended after `n` firings, for any `n`
  -- from 1 on that brings its retry count to the limit, whatever the pushes return: its key is then
  -- free.
  pub fires_end :
      (n i : ℕ) (t : PushRetry.Task S I) (m : PushRetry.Manager S I) (w : World)
      → IsWellFormed S I m
      → lookup i m.heap ≡ some t
      → t.armed ≡ true
      → 0 < n
      → m.max_retries ≤ℤ pos (t.retry_count + n)
      → load t.key (fires n i m w).0.tasks ≡ none
  unfolding fires
  fires_end zero i t m w h at on p q = absurd (omega arith)
  fires_end (suc n) i t m w h at on p q = elim (fire_cases i t m w h at on) [
    | inl (t', k, off, e) ↦
        subst (λ x. load t.key (fires n i x w').0.tasks ≡ none) (sym e)
          (rw (← k) (gone n i t' m w'))
    | inr (x, e) ↦
        subst (λ x. load t.key (fires n i x w').0.tasks ≡ none) (sym e)
          (fires_end n i again (rearmed i (pushed t w) m) w'
            (rearmed-IsWellFormed i t m w h at on (pushed t w) refl)
            (ground (arith, lookup-insert i i again m.heap, =?_iff i i)) refl (ground arith)
            (omega arith))
  ]
    where
      w' : World
      w' = (PushRetry.fire S I i m w).1

      again : PushRetry.Task S I
      again = record (pushed t w) { armed = true }
