-- ===== src/Balancer/Picking.antt =====
-- pkg/grpc/balancer/capacity/v2/picker.go: which connection a pick gives, and how a capacity grows.
use ws_gateway.Common.{
  ℕ, ◌+◌, ◌≤◌, ◌<◌, ◌≡◌, ap, ◌∙◌, Bool, true, false, Option, none, some, List, [], ◌∷◌, arith,
  if◌then◌else◌, is_some, min, ◌⊎◌,
}
use ws_gateway.Common.Int.{ℤ, pos, add64, add64_small, half64, ◌<ℤ◌}
use ws_gateway.Common.Keys.{◌=?◌, nat_eq}
use ws_gateway.Common.Map.{lookup}
use ws_gateway.Balancer.{SubConn, growth, increase_capacity}

-- Every reference of the list has a state.
abbrev pub allocated : {F : Type 0} → List (ℕ × SubConn F) → List ℕ → Bool
allocated heap [] = true
allocated heap (i ∷ is) = if is_some (lookup i heap) then allocated heap is else false

abbrev pub member : ℕ → List ℕ → Bool
member i [] = false
member i (x ∷ xs) = if x =? i then true else member i xs

module _ {F : Type 0} (draw : ℕ → ℤ → Option ℤ) (heap : List (ℕ × SubConn F)) where
  -- The node is full, or the number that was drawn is below its capacity.
  abbrev pub Deserves : (ℤ → Option ℤ) → SubConn F → Type 0
  Deserves d c =
      (c.cur_capacity ≡ c.max_capacity)
      ⊎ ((pos 0 <ℤ c.max_capacity) × (r : ℤ) × (d c.max_capacity ≡ some r) × (r <ℤ c.cur_capacity))

  -- The node of a reference won one of the turns.
  abbrev pub Won : ℕ → Type 0
  Won i = (c : SubConn F) × (k : ℕ) × (lookup i heap ≡ some c) × Deserves (draw k) c

  -- What the loop ends with: a node that won, or none when all the turns are over.
  abbrev Outcome : List ℕ → Option ℕ → ℕ → ℕ → Type 0
  Outcome conns none m stop = m ≡ stop
  Outcome conns (some i) m stop = (member i conns ≡ true) × Won i

  -- A reference that won, or the one after all the turns.
  abbrev pub Reason : ℕ → ℕ → ℕ → Type 0
  Reason i k stop = Won i ⊎ (k ≡ stop + 1)

module _ {F : Type 0} (scale : F → ℤ → ℤ) where
  -- When the capacity `a` is at most the maximum `b`, the growth is `g`, not negative, and `a + g` fits
  -- in an int64, a successful call makes the
  -- capacity the smaller of `a + g` and `b`.
  pub increase_capacity_lem :
      (c : SubConn F) (a b g : ℕ)
      → c.cur_capacity ≡ pos a
      → c.max_capacity ≡ pos b
      → growth scale c ≡ pos g
      → a ≤ b
      → a + g < half64
      → (increase_capacity scale c).cur_capacity ≡ pos (min (a + g) b)
  unfolding increase_capacity
  increase_capacity_lem c a b g ea eb eg h u =
      let sum : add64 c.cur_capacity (growth scale c) ≡ pos (a + g) =
        ap (λ x. add64 x (growth scale c)) ea
        ∙ (ap (λ x. add64 (pos a) x) eg ∙ add64_small a g u) in
      rw (sum, ea, eb) (ground arith)
