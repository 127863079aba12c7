-- ===== src/Registry/Tests.antt =====
-- internal/registry/registry.go: an etcd with one table, whose first two writes fail, and the theorems
-- at it. A node is written as its load, its weight and its id.
use ws_gateway.Common.{
  ℕ, zero, suc, ◌+◌, ◌-◌, ◌≡◌, refl, subst, Bool, true, false, Option, none, some, List, [], ◌∷◌,
  ◌++◌, arith, if◌then◌else◌, ltb, All, map,
}
use ws_gateway.Common.Int.{ℤ, pos, negsuc}
use ws_gateway.Common.Keys.{Text, ◌=?◌, =?_iff, text_eq}
use ws_gateway.Common.Map.{lookup, insert, lookup-insert}
use ws_gateway.Errors.{Result, err, max_retries_exceeded, other}
use ws_gateway.Registry.{
  Node, Etcd, Registry, key, register_loop, graceful_deregister, other_nodes, answered, closed,
  waiting, keep_alive_run,
}
use ws_gateway.Registry.Registering.{is_ok, register_loop_lem}
use ws_gateway.Registry.Renewal.{fresh, never_gives_up}
use ws_gateway.Registry.Leaving.{other_nodes-All}

abbrev World : Type 0
World = List (Text × Text) × (ℕ × ℕ)

abbrev code : ℤ → List ℕ
code (pos n) = 0 ∷ n ∷ []
code (negsuc n) = 1 ∷ n ∷ []

abbrev decode : ℕ → ℕ → ℤ
decode zero n = pos n
decode (suc k) n = negsuc n

abbrev read : Text → Option Node
read (a ∷ b ∷ c ∷ d ∷ id) = some (record { id = id; weight = decode c d; load = decode a b })
read _ = none

abbrev write : Node → Option Text
write n = some (code n.load ++ code n.weight ++ n.id)

abbrev values_at : Option Text → List Text
values_at none = []
values_at (some v) = v ∷ []

abbrev put_first : Text → Text → World → Bool × World
put_first k v w =
    if ltb w.1.1 2 then (true, (w.0, (w.1.0, w.1.1 + 1))) else (false, (insert k v w.0, w.1))

abbrev toy : Etcd
toy = record {
  World = World;
  grant = λ w. (some 7, (w.0, (w.1.0 + 1, w.1.1)));
  put = λ k v l w. put_first k v w;
  revoke = λ l w. (false, (w.0, (w.1.0 - 1, w.1.1)));
  get = λ k w. some (values_at (lookup k w.0));
  get_prefix = λ k w. some (map (λ e. e.1) w.0);
  marshal = write;
  unmarshal = read;
  next_retry = λ n. ltb n 3;
  retry_limit = 3;
  retry_limit_law = refl;
}

abbrev here : Node
here = record { id = 65 ∷ []; weight = pos 100; load = pos 3 }

-- The table after two failed writes.
abbrev settled : Registry toy
settled = record {
  cancelled = false;
  world = ((key (65 ∷ []), 0 ∷ 3 ∷ 0 ∷ 100 ∷ 65 ∷ []) ∷ [], (1, 2));
}

put-get :
    (k v : Text) (l : ℕ) (w : World)
    → (toy.put k v l w).0 ≡ false
    → toy.get k (toy.put k v l w).1 ≡ some (v ∷ [])
put-get k v l w h = ground (arith, lookup-insert k k v w.0, =?_iff k k)

read-code :
    (l w : ℤ) (id : Text)
    → read (code l ++ code w ++ id) ≡ some (record { id = id; weight = w; load = l })
read-code (pos m) (pos n) id = refl
read-code (pos m) (negsuc n) id = refl
read-code (negsuc m) (pos n) id = refl
read-code (negsuc m) (negsuc n) id = refl

abbrev read_maybe : Option Text → Option Node
read_maybe none = none
read_maybe (some v) = read v

read-write : (n : Node) (v : Text) → toy.marshal n ≡ some v → toy.unmarshal v ≡ some n
read-write n v h = subst (λ o. read_maybe o ≡ some n) h (read-code n.load n.weight n.id)

never_gives_up_example :
    fresh (keep_alive_run (pos 3) (closed false ∷ closed false ∷ answered ∷ []) (waiting 0)) ≡ true
never_gives_up_example =
    never_gives_up 3 (closed false ∷ closed false ∷ answered ∷ []) (omega arith)

other_nodes-All_example :
    All
      (λ node. (node.id =? (65 ∷ [])) ≡ false)
      (other_nodes toy (65 ∷ []) ((0 ∷ 3 ∷ 0 ∷ 9 ∷ 65 ∷ []) ∷ []))
other_nodes-All_example = other_nodes-All toy (65 ∷ []) ((0 ∷ 3 ∷ 0 ∷ 9 ∷ 65 ∷ []) ∷ [])

put-leases : (k v : Text) (l : ℕ) (w : World) → (toy.put k v l w).1.1.0 ≡ w.1.0
put-leases k v l w = ground arith

abbrev is_live : ℕ → World → Bool
is_live l w = ltb 0 w.1.0

put-live :
    (k v : Text) (l j : ℕ) (w : World) → is_live j w ≡ true → is_live j (toy.put k v l w).1 ≡ true
put-live k v l j w h = ground arith

revoke-leases : (l : ℕ) (w : World) → is_live l w ≡ true → (toy.revoke l w).1.1.0 + 1 ≡ w.1.0
revoke-leases l w h = ground arith

register_loop_lem_example :
    (r : Result ℕ) × (w' : World) × (register_loop toy 4 0 here [] ([], (0, 0)) ≡ some (r, w'))
    × ((is_ok r ≡ true → w'.1.0 ≡ 1) × (r ≡ err (other ∷ max_retries_exceeded ∷ []) → w'.1.0 ≡ 0))
register_loop_lem_example =
    register_loop_lem toy (λ w. w.1.0) is_live (λ w l h. refl) (λ w l h. ground arith) put-leases
      put-live revoke-leases here [] ([], (0, 0))

abbrev departed : Registry toy
departed = (graceful_deregister toy 7 (65 ∷ []) settled).1
