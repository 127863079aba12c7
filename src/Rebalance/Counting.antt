-- ===== src/Rebalance/Counting.antt =====
-- internal/websocket_server.go: how many links `consumeScaleUpEvent` redirects.
use ws_gateway.Common.{
  ℕ, suc, min, ◌+◌, ◌-◌, ◌*◌, ◌/◌, ◌≤◌, ◌<◌, ◌≡◌, ap, subst, some, List, arith, take, length,
  length-take, Bool-cases, false, inl, inr, leb,
}
use ws_gateway.Common.Int.{pos, half64, sub64_small, mul64_small, quot64_small}
use ws_gateway.Common.Keys.{◌=?◌, int_eq}
use ws_gateway.Rebalance.{redirect_count, select_random}
use native.Mathlib.Nat.{mul-sub, div-le_self, div-mul-le_self, lt-div-mul-add, div-lt_iff_lt-mul}

-- Rounded up, the share k / n of m.
pub record IsShare (m n k c : ℕ) : Type 0 where
  pub at_most : c ≤ m
  pub enough : m * k ≤ c * n
  pub least : c * n < m * k + n

share : (m d k : ℕ) → 0 < d + k → IsShare m (d + k) k (m - (m * d) / (d + k))
share m d k h =
    let low = div-mul-le_self (m * d) (d + k) in
    let high = lt-div-mul-add {a = m * d} {b = d + k} h in
    let q_le : (m * d) / (d + k) < m + 1 = (div-lt_iff_lt-mul h).1 (omega arith) in
    let whole : (m - (m * d) / (d + k)) * (d + k) + (m * d) / (d + k) * (d + k) ≡ m * (d + k) =
      let e : m - (m * d) / (d + k) + (m * d) / (d + k) ≡ m = omega arith in
      omega (arith, ap (λ x. x * (d + k)) e) in
    record {
      at_most = omega arith;
      enough = omega (arith, low, whole);
      least = omega (arith, high, whole);
    }

pub quotient-IsShare : (m n k : ℕ) → 0 < n → k ≤ n → IsShare m n k (m - (m * (n - k)) / n)
quotient-IsShare m n k h le =
    let e : n - k + k ≡ n = omega arith in
    subst (λ x. IsShare m x k (m - (m * (n - k)) / x)) e (share m (n - k) k (omega arith))

pub redirect_count_lem :
    (m n k : ℕ)
    → 0 < n
    → k ≤ n
    → n < half64
    → m * n < half64
    → redirect_count (pos m) (pos n) (pos k) ≡ some (pos (m - (m * (n - k)) / n))
unfolding redirect_count
redirect_count_lem m n k h le small fits =
    let e : suc (n - 1) ≡ n = omega arith in
    let m_le : m ≤ m * n = omega (arith, ap (λ x. m * x) e) in
    let product : m * (n - k) < half64 = omega (arith, mul-sub m n k) in
    let q_le : (m * (n - k)) / n ≤ m * (n - k) = div-le_self (m * (n - k)) n in
    let q_le_m : (m * (n - k)) / n ≤ m = omega (
      arith,
      (quotient-IsShare m n k h le).enough,
      (div-lt_iff_lt-mul {x = m * (n - k)} {y = m + 1} h).1 (omega (arith, mul-sub m n k)),
    ) in
    let total : (pos n =? pos 0) ≡ false = ground arith in
    rw (total, sub64_small n k le small)
      (rw (mul64_small m (n - k) product) (
        rw (quot64_small (m * (n - k)) n (omega arith))
          (ap some (sub64_small m ((m * (n - k)) / n) q_le_m (omega arith)))))

-- The selector gives as many links as it is asked for, or all of them where there are fewer.
pub select_random_lem :
    (shuffle : List ℕ → List ℕ) (links : List ℕ) (c : ℕ)
    → ((xs : List ℕ) → length (shuffle xs) ≡ length xs)
    → (chosen : List ℕ) × (select_random shuffle (pos c) links ≡ some chosen)
      × (length chosen ≡ min c (length links))
unfolding select_random
select_random_lem shuffle links c perm = elim (Bool-cases (leb (length links) c)) [
  | inl all ↦ (links, ground arith, ground arith)
  | inr some_of ↦ (
    take c (shuffle links),
    ground arith,
    ground (arith, length-take c (shuffle links), perm links),
  )
]
