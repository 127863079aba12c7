-- ===== src/Links/Retrying.antt =====
-- internal/link/link.go: the retries of `sendWithRetry`.
use ws_gateway.Common.{
  ℕ, zero, suc, ◌+◌, ◌≤◌, ◌≡◌, refl, Bool, true, false, Option, some, arith, if◌then◌else◌,
  Bool-cases, inl, inr, ◌⊎◌, ap, ◌∙◌,
}
use ws_gateway.Common.Keys.{Text}
use ws_gateway.Links.{Written, written, timed_out, failed, send_with_retry}

abbrev pub is_written : Written → Bool
is_written written = true
is_written _ = false

written-cases : (x : Written) → (x ≡ written) ⊎ ((x ≡ failed) ⊎ (x ≡ timed_out))
written-cases written = inl refl
written-cases failed = inr (inl refl)
written-cases timed_out = inr (inr refl)

module _ {W : Type 0} (done : W → Bool) (write : Text → W → Written × W) (wait : W → Bool × W)
    (next_retry : ℕ → Bool) where
  module _ (fuel n : ℕ) (payload : Text) (w : W) where
    abbrev after : W
    after = (write payload w).1

    abbrev this : Option (Bool × W)
    this = send_with_retry done write wait next_retry (suc fuel) n payload w

    closed_first : done w ≡ true → this ≡ some (false, w)
    unfolding send_with_retry
    closed_first h = ground arith

    sent_now : done w ≡ false → (write payload w).0 ≡ written → this ≡ some (true, after)
    unfolding send_with_retry
    sent_now h e = ground arith

    refused : done w ≡ false → (write payload w).0 ≡ failed → this ≡ some (false, after)
    unfolding send_with_retry
    refused h e = ground arith

    given_up :
        done w ≡ false
        → (write payload w).0 ≡ timed_out
        → next_retry n ≡ false
        → this ≡ some (false, after)
    unfolding send_with_retry
    given_up h e u = ground arith

    closed_waiting :
        done w ≡ false
        → (write payload w).0 ≡ timed_out
        → next_retry n ≡ true
        → (wait after).0 ≡ false
        → this ≡ some (false, (wait after).1)
    unfolding send_with_retry
    closed_waiting h e u v = ground arith

    tried_again :
        done w ≡ false
        → (write payload w).0 ≡ timed_out
        → next_retry n ≡ true
        → (wait after).0 ≡ true
        → this ≡ send_with_retry done write wait next_retry fuel (suc n) payload (wait after).1
    unfolding send_with_retry
    tried_again h e u v = ground arith

  module _ (limit : ℕ) (stops : next_retry limit ≡ false) (calls delivered : W → ℕ)
      (write-calls : (p : Text) (w : W) → calls (write p w).1 ≡ calls w + 1)
      (wait-calls : (w : W) → calls (wait w).1 ≡ calls w)
      (write-delivered : (p : Text) (w : W)
        → delivered (write p w).1 ≡ delivered w + (if is_written (write p w).0 then 1 else 0))
      (wait-delivered : (w : W) → delivered (wait w).1 ≡ delivered w) where
    abbrev Ends : ℕ → W → Option (Bool × W) → Type 0
    Ends fuel w res =
        (sent : Bool) × (w' : W) × (res ≡ some (sent, w'))
        × (delivered w' ≡ delivered w + (if sent then 1 else 0))
        × (calls w' ≤ calls w + fuel)

    -- A round ends the loop, or a write timed out and another is granted.
    one_round :
        (fuel n : ℕ) (payload : Text) (w : W)
        → (done w ≡ false
            → (write payload w).0 ≡ timed_out
            → next_retry n ≡ true
            → (wait (write payload w).1).0 ≡ true
            → Ends (suc fuel) w (send_with_retry done write wait next_retry (suc fuel) n payload w))
        → Ends (suc fuel) w (send_with_retry done write wait next_retry (suc fuel) n payload w)
    one_round fuel n payload w go_on =
        let w1 : W = (write payload w).1 in
        elim (Bool-cases (done w)) [
          | inl h ↦ (false, w, closed_first fuel n payload w h, omega arith, omega arith)
          | inr h ↦ elim (written-cases (write payload w).0) [
            | inl e ↦ (
              true,
              w1,
              sent_now fuel n payload w h e,
              ground (arith, write-delivered payload w),
              omega (arith, write-calls payload w),
            )
            | inr (inl e) ↦ (
              false,
              w1,
              refused fuel n payload w h e,
              ground (arith, write-delivered payload w),
              omega (arith, write-calls payload w),
            )
            | inr (inr e) ↦ elim (Bool-cases (next_retry n)) [
              | inr u ↦ (
                false,
                w1,
                given_up fuel n payload w h e u,
                ground (arith, write-delivered payload w),
                omega (arith, write-calls payload w),
              )
              | inl u ↦ elim (Bool-cases (wait w1).0) [
                | inr v ↦ (
                  false,
                  (wait w1).1,
                  closed_waiting fuel n payload w h e u v,
                  ground (arith, write-delivered payload w, wait-delivered w1),
                  omega (arith, write-calls payload w, wait-calls w1),
                )
                | inl v ↦ go_on h e u v
              ]
            ]
          ]
        ]

    loop-Ends :
        (fuel n : ℕ) (payload : Text) (w : W)
        → n + fuel ≡ limit
        → Ends (suc fuel) w (send_with_retry done write wait next_retry (suc fuel) n payload w)
    loop-Ends zero n payload w e =
        one_round zero n payload w
          λ h t u v. let last : n ≡ limit = omega arith in absurd (cc (ap next_retry last, stops))
    loop-Ends (suc fuel) n payload w e = one_round (suc fuel) n payload w λ h t u v.
        let w1 : W = (write payload w).1 in
        let (sent, w', again, d, b) = loop-Ends fuel (suc n) payload (wait w1).1 (omega arith) in
        (
          sent,
          w',
          tried_again (suc fuel) n payload w h t u v ∙ again,
          ground (arith, write-delivered payload w, wait-delivered w1),
          omega (arith, write-calls payload w, wait-calls w1),
        )

    -- When the strategy grants no retry after the `limit`-th, `sendWithRetry` ends within `limit + 1`
    -- writes; it returns true exactly if one write succeeded, and then it was only one.
    pub send_with_retry_lem :
        (payload : Text) (w : W)
        → (sent : Bool) × (w' : W) × (send_with_retry done write wait next_retry
              (suc limit)
              0
              payload
              w
            ≡ some (sent, w'))
          × (delivered w' ≡ delivered w + (if sent then 1 else 0))
          × (calls w' ≤ calls w + suc limit)
    send_with_retry_lem payload w = loop-Ends limit 0 payload w (omega arith)
