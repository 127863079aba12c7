-- ===== src/Handler/Forwarding.antt =====
-- internal/linkevent/handler.go: the retries of `forwardToBusinessBackend`.
use ws_gateway.Common.{
  ℕ, zero, suc, ◌+◌, ◌≤◌, ◌≡◌, refl, ap, ◌∙◌, inl, inr, true, false, Option, none, some, [], ◌∷◌,
  arith, Bool-cases, Option-cases,
}
use ws_gateway.Common.Keys.{Text}
use ws_gateway.Errors.{is_error, Result, ok, err, other, max_retries_exceeded}
use ws_gateway.Message.{Message, Gateway}
use ws_gateway.Handler.{forward_loop}

module _ (G : Gateway) where
  open G use {Client, Response, World}

  -- How the loop may end: with an answer of the backend, or with the retries used up.
  abbrev pub IsVerdict : Result Response → Type 0
  IsVerdict (ok resp) = Unit
  IsVerdict (err e) = is_error max_retries_exceeded e ≡ true

  -- One call of the backend.
  module _ (fuel n : ℕ) (c : Client) (msg : Message) (w : World) where
    after : World
    after = (G.on_receive c msg.key msg.body w).1

    answered :
        (resp : Response)
        → (G.on_receive c msg.key msg.body w).0 ≡ some resp
        → forward_loop G (suc fuel) n c msg w ≡ some (ok resp, after)
    unfolding forward_loop after
    answered resp e = ground arith

    given_up :
        (G.on_receive c msg.key msg.body w).0 ≡ none
        → G.next_retry n ≡ false
        → forward_loop G (suc fuel) n c msg w
          ≡ some (err (other ∷ max_retries_exceeded ∷ []), after)
    unfolding forward_loop after
    given_up e u = ground arith

    tried_again :
        (G.on_receive c msg.key msg.body w).0 ≡ none
        → G.next_retry n ≡ true
        → forward_loop G (suc fuel) n c msg w ≡ forward_loop G fuel (suc n) c msg after
    unfolding forward_loop after
    tried_again e u = ground arith

  module _ (calls : World → ℕ)
      (one_more : (c : Client) (k b : Text) (w : World)
        → calls (G.on_receive c k b w).1 ≡ calls w + 1) where
    abbrev Ended : ℕ → World → Option (Result Response × World) → Type 0
    Ended fuel w res =
        (r : Result Response) × (w' : World) × (res ≡ some (r, w'))
        × IsVerdict r
        × (calls w' ≤ calls w + suc fuel)

    -- A round ends the loop, or the strategy grants another one.
    one_round :
        (fuel n : ℕ) (c : Client) (msg : Message) (w : World)
        → ((G.on_receive c msg.key msg.body w).0 ≡ none
            → G.next_retry n ≡ true
            → Ended fuel w (forward_loop G (suc fuel) n c msg w))
        → Ended fuel w (forward_loop G (suc fuel) n c msg w)
    unfolding after
    one_round fuel n c msg w go_on = elim (Option-cases (G.on_receive c msg.key msg.body w).0) [
      | inr (resp, got) ↦ (
        ok resp,
        after fuel n c msg w,
        answered fuel n c msg w resp got,
        tt,
        omega (arith, one_more c msg.key msg.body w),
      )
      | inl failed ↦ elim (Bool-cases (G.next_retry n)) [
        | inr stop ↦ (
          err (other ∷ max_retries_exceeded ∷ []),
          after fuel n c msg w,
          given_up fuel n c msg w failed stop,
          refl,
          omega (arith, one_more c msg.key msg.body w),
        )
        | inl more ↦ go_on failed more
      ]
    ]

    loop_ends :
        (fuel n : ℕ) (c : Client) (msg : Message) (w : World)
        → n + fuel ≡ G.retry_limit
        → Ended fuel w (forward_loop G (suc fuel) n c msg w)
    unfolding after
    loop_ends zero n c msg w e = one_round zero n c msg w λ failed more.
        let last : n ≡ G.retry_limit = omega arith in
        absurd (cc (ap G.next_retry last, G.retry_limit_law))
    loop_ends (suc fuel) n c msg w e = one_round (suc fuel) n c msg w λ failed more.
        let (r, w', again, v, b) =
          loop_ends fuel (suc n) c msg (after fuel n c msg w) (omega arith) in
        (
          r,
          w',
          tried_again (suc fuel) n c msg w failed more ∙ again,
          v,
          omega (arith, one_more c msg.key msg.body w),
        )

    -- With the fuel that the handler gives it the loop ends: by an answer of the backend, or with
    -- an error that wraps `ErrMaxRetriesExceeded`, after at most one call more than the retries.
    pub forward_loop_lem :
        (c : Client) (msg : Message) (w : World)
        → (r : Result Response) × (w' : World) × (forward_loop G (suc G.retry_limit) 0 c msg w
            ≡ some (r, w'))
          × IsVerdict r
          × (calls w' ≤ calls w + suc G.retry_limit)
    forward_loop_lem c msg w = loop_ends G.retry_limit 0 c msg w (omega arith)
