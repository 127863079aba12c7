-- ===== src/PushRetry/Budget.antt =====
-- pkg/pushretry/manager.go: how many times the timer of one task sends.
use ws_gateway.Common.{
  ℕ, zero, suc, ◌+◌, ◌≤◌, ◌≡◌, refl, sym, subst, inl, inr, true, some, arith, Bool-cases,
  if◌then◌else◌,
}
use ws_gateway.Common.Int.{pos}
use ws_gateway.Common.Keys.{Text, =?_iff, nat_eq, text_eq}
use ws_gateway.Common.Map.{lookup, lookup-insert}
use ws_gateway.Common.SyncMap.{SyncMap}
use ws_gateway.PushRetry.{LinkApi}
use ws_gateway.PushRetry
use ws_gateway.PushRetry.Invariant.{IsWellFormed}
use ws_gateway.PushRetry.Retries.{
  counted, pushed, exhausted, given_up, rearmed, fire-exhausted, fire_failed, fire_sent, fires,
  fires-given_up, rearmed-IsWellFormed,
}

module _ (S : SyncMap Text ℕ) (I : LinkApi) where
  open I use {World, push, update_active_time}

  -- One firing of an armed timer in a well-formed manager, on every branch: a task that has used
  -- its retries up, and one whose push fails, is removed; any other is sent, armed again, and its
  -- link counts as active.
  pub fire_lem :
      (i : ℕ) (t : PushRetry.Task S I) (m : PushRetry.Manager S I) (w : World)
      → IsWellFormed S I m
      → lookup i m.heap ≡ some t
      → t.armed ≡ true
      → PushRetry.fire S I i m w ≡ (
          if exhausted S I t m
          then (given_up S I i (counted S I t) m, w)
          else if (push t.link t.message w).0
          then (given_up S I i (pushed S I t w) m, (push t.link t.message w).2)
          else (
            rearmed S I i (pushed S I t w) m,
            update_active_time t.link (push t.link t.message w).2,
          ))
  fire_lem i t m w h at on = elim (Bool-cases (exhausted S I t m)) [
    | inl x ↦ simp x (fire-exhausted S I i t m w h at on x)
    | inr x ↦ elim (Bool-cases (push t.link t.message w).0) [
      | inl f ↦ simp (x, f) (fire_failed S I i t m w h at on x f)
      | inr f ↦ simp (x, f) (fire_sent S I i t m w h at on x f)
    ]
  ]

  -- `sends` counts the calls of the push function in a world.
  module _ (sends : World → ℕ)
      (one_more : (l : I.Link) (msg : I.Message) (w : World) → sends (push l msg w).2 ≡ sends w + 1)
      (none_more : (l : I.Link) (w : World) → sends (update_active_time l w) ≡ sends w) where
    -- In a well-formed manager with the limit `r + 1`, a task whose timer is armed is sent at most
    -- `r` times less its retry count, however often its timer fires: a new task is sent at most
    -- `max_retries - 1` times.
    pub fires-sends :
        (n r i : ℕ) (t : PushRetry.Task S I) (m : PushRetry.Manager S I) (w : World)
        → m.max_retries ≡ pos (suc r)
        → IsWellFormed S I m
        → lookup i m.heap ≡ some t
        → t.armed ≡ true
        → t.retry_count ≤ r
        → sends (fires S I n i m w).1 + t.retry_count ≤ sends w + r
    unfolding fires
    fires-sends zero r i t m w q h at on u = omega arith
    fires-sends (suc n) r i t m w q h at on u = elim (Bool-cases (exhausted S I t m)) [
      | inl x ↦
          subst Within (sym (fire-exhausted S I i t m w h at on x))
            (rw (fires-given_up S I n i (counted S I t) m w) (omega arith))
      | inr x ↦
          let room : t.retry_count + 1 ≤ r = ground arith in
          elim (Bool-cases (push t.link t.message w).0) [
            | inl f ↦ subst Within (sym (fire_failed S I i t m w h at on x f)) (
                rw (fires-given_up S I n i (pushed S I t w) m (push t.link t.message w).2)
                  (omega (arith, one_more t.link t.message w)))
            | inr f ↦ subst Within (sym (fire_sent S I i t m w h at on x f)) (
                omega (
                  arith,
                  one_more t.link t.message w,
                  none_more t.link (push t.link t.message w).2,
                  fires-sends n r i again (rearmed S I i (pushed S I t w) m)
                      (update_active_time t.link (push t.link t.message w).2) q
                      (rearmed-IsWellFormed S I i t m w h at on (pushed S I t w) refl)
                      (ground (arith, lookup-insert i i again m.heap, =?_iff i i)) refl room,
                ))
          ]
    ]
      where
        again : PushRetry.Task S I
        again = record (pushed S I t w) { armed = true }

        Within : PushRetry.Manager S I × World → Type 0
        Within s = sends (fires S I n i s.0 s.1).1 + t.retry_count ≤ sends w + r
