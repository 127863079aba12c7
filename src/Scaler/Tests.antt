-- ===== src/Scaler/Tests.antt =====
-- pkg/scaler/docker.go: a platform with one registered node, and the theorems at concrete inputs. The
-- world is the container names in use and whether a session of the lock is open.
use ws_gateway.Common.{
  ◌-◌, ◌≤◌, ◌≡◌, refl, Bool, true, false, ◌||◌, none, some, List, [], ◌∷◌, arith, if◌then◌else◌,
  length, All,
}
use ws_gateway.Common.Int.{pos, ◌≤ℤ◌, half64}
use ws_gateway.Common.Keys.{Text, ◌=?◌, text_eq, =?_refl}
use ws_gateway.Common.Format.{parse}
use ws_gateway.Common.Parse.{parse_int}
use ws_gateway.Errors.{Result, ok}
use ws_gateway.Scaler.{
  Node, Image, ticks, times_out, locked, Platform, latest_loop, first_tag, next_id_and_port,
  create_loop, extract_node_id_number, wait_for_nodes_registration, scale_up, all_registered,
  find_registered_nodes,
}
use ws_gateway.Scaler.Allocation.{UpTo, IsBelow, fresh_node}
use ws_gateway.Scaler.Creating.{IsSteady, at_most_one}
use ws_gateway.Scaler.Waiting.{IsLeft, scale_up_ends}

abbrev pub node : Node
node = record { id = 103 ∷ 119 ∷ 45 ∷ 49 ∷ []; ip = []; port = pos 9002; capacity = pos 10 }

abbrev has_name : Text → List Text → Bool
has_name n [] = false
has_name n (x ∷ xs) = x =? n || has_name n xs

abbrev pub toy : Platform
toy = record {
  World = List Text × Bool;
  lock = λ w. (locked, (w.0, true));
  unlock = λ w. w;
  close_session = λ w. (false, (w.0, false));
  image_list = λ w. (some (record { created = pos 5; repo_tags = (1 ∷ []) ∷ [] } ∷ []), w);
  host_ip = λ w. (some (7 ∷ []), w);
  available_nodes = λ self w. (some (node ∷ []), w);
  container_create =
      λ c w. if has_name c.name w.0 then (none, w) else (some (8 ∷ []), (c.name ∷ w.0, w.1));
  container_start = λ id w. (false, w);
  is_local = λ t. false;
  project = 119 ∷ [];
  current_node_id = [];
}

node-UpTo : All (UpTo toy (pos (half64 - 2)) (pos (half64 - 2))) (node ∷ [])
unfolding extract_node_id_number parse_int parse
node-UpTo = ((omega arith, omega arith), tt)

fresh_node_example :
    All (IsBelow toy (next_id_and_port toy (node ∷ []))) (node ∷ [])
    × (pos 2 ≤ℤ (next_id_and_port toy (node ∷ [])).0)
    × (pos 9003 ≤ℤ (next_id_and_port toy (node ∷ [])).1)
fresh_node_example = fresh_node toy (node ∷ []) node-UpTo

abbrev images : List Image
images =
    record { created = pos 5; repo_tags = (1 ∷ []) ∷ [] }
    ∷ record { created = pos 9; repo_tags = (2 ∷ []) ∷ (3 ∷ []) ∷ [] }
    ∷ record { created = pos 9; repo_tags = [] }
    ∷ []

images_tag : first_tag (latest_loop images (pos 0) none) ≡ ok (2 ∷ [])
unfolding first_tag latest_loop
images_tag = refl

has_name_here : (n : Text) (xs : List Text) → has_name n (n ∷ xs) ≡ true
has_name_here n xs = ground (arith, =?_refl n)

abbrev taken : Text → List Text × Bool → Bool
taken n w = has_name n w.0

toy-IsSteady : IsSteady toy taken (node ∷ [])
toy-IsSteady = record {
  answers = λ w. refl;
  refuses = λ c w h. rw h;
  takes = λ c w id e. ground (arith, has_name_here c.name w.0);
  kept_by_registry = λ n w h. h;
  kept_by_create = λ n c w h. ground arith;
  kept_by_start = λ n id w h. h;
}

at_most_one_example : length (create_loop toy 3 [] [] ([], true)).0 ≤ 1
at_most_one_example = at_most_one toy taken (node ∷ []) toy-IsSteady [] [] 3 ([], true)

scale_up_ends_example :
    (r : Result (List Node)) × (w' : List Text × Bool) × (scale_up toy 3
        (ticks ∷ times_out ∷ [])
        ([], false)
      ≡ some (r, w'))
    × IsLeft toy (λ w. w.1) (λ w e. refl) (λ w e. ground arith) w'
scale_up_ends_example =
    scale_up_ends toy (λ w. w.1) (λ w e. refl) (λ w e. ground arith) 3 (ticks ∷ times_out ∷ [])
      ([], false) tt refl

first_tick :
    wait_for_nodes_registration toy (ticks ∷ []) (node ∷ []) ([], true)
    ≡ some (ok (node ∷ []), ([], true))
unfolding wait_for_nodes_registration all_registered find_registered_nodes
first_tick = refl
