-- ===== src/Generator/Tests.antt =====
-- pkg/generator/etcd.go: the theorem on a store of one key.
use ws_gateway.Common.{
  ℕ, ◌+◌, ◌≡◌, refl, inr, Bool, true, false, Option, none, some, List, [], ◌∷◌, arith,
  if◌then◌else◌, ◌==◌,
}
use ws_gateway.Common.Int.{pos}
use ws_gateway.Common.Keys.{Text}
use ws_gateway.Common.Format.{show_nat}
use ws_gateway.Generator.{Etcd, Event, initializes, reads, commits, node_id_key, run}
use ws_gateway.Generator.Increasing.{Falls, IsStore, generated_increases}

abbrev create_cell : Text → Option (Text × ℕ) → Option Bool × Option (Text × ℕ)
create_cell v none = (some true, some (v, 1))
create_cell v (some p) = (some false, some p)

abbrev swap_cell : ℕ → Text → Option (Text × ℕ) → Option Bool × Option (Text × ℕ)
swap_cell r v none = (some false, none)
swap_cell r v (some (t, now)) =
    if r == now then (some true, some (v, now + 1)) else (some false, some (t, now))

abbrev cell : Etcd
cell = record {
  State = Option (Text × ℕ);
  get = λ k s. (some s, s);
  create = λ k v s. create_cell v s;
  swap = λ k r v s. swap_cell r v s;
}

cell-IsStore : IsStore cell node_id_key (λ s. s)
cell-IsStore = record {
  get-view = λ s. refl;
  get-answer = λ s a e. ground arith;
  create-view = λ v s p e. rw e refl;
  refuses = λ r v s t now e d.
      let differs : (r == now) ≡ false = ground arith in rw (e, differs) (refl, λ h. ground arith);
  swaps = λ r v t s e.
      let same : (r == r) ≡ true = ground arith in rw (e, same) (inr (r + 1, refl, omega arith));
}

-- Two processes read the same value, a new node tries to initialize it, and the one that loses the race
-- goes round again.
abbrev race : List Event
race = reads 0 ∷ reads 1 ∷ initializes (pos 1) ∷ commits 1 ∷ commits 0 ∷ reads 0 ∷ commits 0 ∷ []

generated_increases_example :
    Falls 3 11
      (run cell node_id_key race
        (record { store = some (show_nat 3, 1); held = λ i. none; generated = [] })).generated
generated_increases_example =
    generated_increases cell node_id_key (λ s. s) cell-IsStore 3 1 race (some (show_nat 3, 1)) refl
      (omega arith)
