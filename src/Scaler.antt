-- ===== src/Scaler.antt =====
-- pkg/scaler/docker.go: new gateway nodes are started as containers.
-- Docker, etcd's lock, the registry and what parses addresses are parameters; the world is
-- what they keep. Of a container's configuration the model has what differs between two containers.
-- A tick and the timeout of a wait are its wake-ups. Logging is left out.
pub mod Allocation
pub mod Creating
pub mod Waiting
pub mod Tests
use ws_gateway.Common.{
  ℕ, zero, suc, ◌-◌, ◌%◌, Bool, true, false, ◌&&◌, ◌||◌, Option, none, some, List, [], ◌∷◌, ◌++◌,
  if◌then◌else◌, ltb, ◌==◌, length, is_some,
}
use ws_gateway.Common.Int.{ℤ, pos, negsuc, ltb_ℤ, add64}
use ws_gateway.Common.Keys.{Text, ◌=?◌, text_eq}
use ws_gateway.Common.Format.{show_int}
use ws_gateway.Common.Parse.{parse_int}
use ws_gateway.Errors.{Error, Result, ok, err, other}

pub record Node : Type 0 where
  pub id : Text
  pub ip : Text
  pub port : ℤ
  pub capacity : ℤ

pub record Image : Type 0 where
  pub created : ℤ
  pub repo_tags : List Text

pub record Container : Type 0 where
  pub name : Text
  pub node_id : Text
  pub image : Text
  pub host_ip : Text
  pub host_port : ℤ
  pub binding_ip : Text

pub data Wake : Type 0 where
  ticks times_out : Wake

-- How `TryLock` on a new etcd session ends: no session, a lock that someone else has, or the lock.
pub data Locking : Type 0 where
  no_session contended locked : Locking

pub record Platform : Type 1 where
  pub World : Type 0
  pub lock : World → Locking × World
  pub unlock : World → World
  -- Whether closing it failed.
  pub close_session : World → Bool × World
  -- The images that match the name pattern; `none` is an error.
  pub image_list : World → Option (List Image) × World
  pub host_ip : World → Option Text × World
  -- The registered nodes but the one named.
  pub available_nodes : Text → World → Option (List Node) × World
  -- ContainerCreate gives the container's id; ContainerStart tells whether it failed.
  pub container_create : Container → World → Option Text × World
  pub container_start : Text → World → Bool × World
  -- net.ParseIP gives a loopback or an unspecified address.
  pub is_local : Text → Bool
  pub project : Text
  pub current_node_id : Text

-- "gw-", "-gateway-", "-1" and "localhost"
abbrev pub gw : Text
gw = 103 ∷ 119 ∷ 45 ∷ []

abbrev pub gateway_infix : Text
gateway_infix = 45 ∷ 103 ∷ 97 ∷ 116 ∷ 101 ∷ 119 ∷ 97 ∷ 121 ∷ 45 ∷ []

abbrev pub minus_one : Text
minus_one = 45 ∷ 49 ∷ []

abbrev pub localhost : Text
localhost = 108 ∷ 111 ∷ 99 ∷ 97 ∷ 108 ∷ 104 ∷ 111 ∷ 115 ∷ 116 ∷ []

-- Go's int32(n), from the bits of n.
abbrev pub bits32 : ℕ → ℤ
bits32 b = if ltb b 2147483648 then pos b else negsuc (4294967295 - b)

abbrev pub to_int32 : ℤ → ℤ
to_int32 (pos n) = bits32 (n % 4294967296)
to_int32 (negsuc n) = bits32 (4294967295 - n % 4294967296)

-- The loop of `findLatestImage`, from the latest time and image so far.
unfoldable pub latest_loop : List Image → ℤ → Option Image → Option Image
latest_loop [] time latest = latest
latest_loop (i ∷ is) time latest =
    if ltb_ℤ time i.created then latest_loop is i.created (some i) else latest_loop is time latest

unfoldable pub first_tag : Option Image → Result Text
first_tag none = err (other ∷ [])
first_tag (some i) = elim i.repo_tags [ [] ↦ err (other ∷ []) | t ∷ ts ↦ ok t ]

-- The first node with an id.
abbrev pub find_node : Text → List Node → Option Node
find_node id [] = none
find_node id (n ∷ ns) = if id =? n.id then some n else find_node id ns

unfoldable pub find_registered_nodes : List Node → List Node → List Node
find_registered_nodes [] available = []
find_registered_nodes (e ∷ es) available =
    let rest = find_registered_nodes es available in
    elim (find_node e.id available) [ none ↦ rest | some n ↦ n ∷ rest ]

-- What a tick finds: the nodes, if all the new ones are registered.
unfoldable pub all_registered : List Node → Option (List Node) → Option (List Node)
all_registered expected none = none
all_registered expected (some available) =
    let found = find_registered_nodes expected available in
    if length found == length expected then some found else none

module _ (P : Platform) where
  open P use {World}

  unfoldable pub find_latest_image : World → Result Text × World
  find_latest_image w = elim (P.image_list w).0 [
    | none ↦ (err (other ∷ []), (P.image_list w).1)
    | some images ↦ (first_tag (latest_loop images (pos 0) none), (P.image_list w).1)
  ]

  unfoldable pub extract_node_id_number : Text → ℤ
  extract_node_id_number (a ∷ b ∷ c ∷ d ∷ rest) =
      if (a ∷ b ∷ c ∷ []) =? gw
      then (elim (parse_int (d ∷ rest)) [ none ↦ pos 0 | some n ↦ n ])
      else pos 0
  extract_node_id_number _ = pos 0

  -- The loop over the nodes, from the largest number and the largest port so far.
  unfoldable pub max_loop : List Node → ℤ → ℤ → ℤ × ℤ
  max_loop [] id port = (id, port)
  max_loop (n ∷ ns) id port =
      let num = extract_node_id_number n.id in
      max_loop ns (if ltb_ℤ id num then num else id) (if ltb_ℤ port n.port then n.port else port)

  -- The constants are DefaultStartNodeID and DefaultStartPort.
  unfoldable pub next_id_and_port : List Node → ℤ × ℤ
  next_id_and_port nodes =
      let m = max_loop nodes (pos 1) (pos 9002) in (add64 m.0 (pos 1), add64 m.1 (pos 1))

  unfoldable pub get_next_available_node_id_and_port : World → Option (ℤ × ℤ) × World
  get_next_available_node_id_and_port w = elim (P.available_nodes [] w).0 [
    | none ↦ (none, (P.available_nodes [] w).1)
    | some nodes ↦ (some (next_id_and_port nodes), (P.available_nodes [] w).1)
  ]

  unfoldable pub get_binding_ip : Text → Text
  get_binding_ip ip = if ip =? localhost || P.is_local ip then [] else ip

  abbrev pub new_node_id : ℤ → Text
  new_node_id n = gw ++ show_int n

  abbrev pub container_name : ℤ → Text
  container_name n = P.project ++ gateway_infix ++ show_int n ++ minus_one

  unfoldable pub create_and_start_container : Container → World → Bool × World
  create_and_start_container c w = elim (P.container_create c w).0 [
    | none ↦ (false, (P.container_create c w).1)
    | some id ↦
        let s = P.container_start id (P.container_create c w).1 in
        (if s.0 then false else true, s.1)
  ]

  -- The container and the node for a number and a port.
  abbrev pub container_for : Text → Text → ℤ × ℤ → Container
  container_for image ip np = record {
    name = container_name np.0;
    node_id = new_node_id np.0;
    image = image;
    host_ip = ip;
    host_port = np.1;
    binding_ip = get_binding_ip ip;
  }

  abbrev pub node_for : Text → ℤ × ℤ → Node
  node_for ip np = record {
    id = new_node_id np.0;
    ip = ip;
    port = to_int32 np.1;
    capacity = pos 10;
  }

  unfoldable pub create_single_node : Text → Text → World → Option Node × World
  create_single_node image ip w =
      let next = get_next_available_node_id_and_port w in
      elim next.0 [
        | none ↦ (none, next.1)
        | some np ↦
            let r = create_and_start_container (container_for image ip np) next.1 in
            (if r.0 then some (node_for ip np) else none, r.1)
      ]

  abbrev pub add_node : Option Node → List Node → List Node
  add_node none ns = ns
  add_node (some n) ns = n ∷ ns

  -- The loop of `createNewNodes`; a node that fails is skipped.
  unfoldable pub create_loop : ℕ → Text → Text → World → List Node × World
  create_loop zero image ip w = ([], w)
  create_loop (suc n) image ip w =
      let r = create_single_node image ip w in
      let rest = create_loop n image ip r.1 in (add_node r.0 rest.0, rest.1)

  unfoldable pub create_new_nodes : ℕ → Text → World → Result (List Node) × World
  create_new_nodes count image w = elim (P.host_ip w).0 [
    | none ↦ (err (other ∷ []), (P.host_ip w).1)
    | some ip ↦ let r = create_loop count image ip (P.host_ip w).1 in (ok r.0, r.1)
  ]

  -- The loop of `waitForNodesRegistration` along the wake-ups; `none` is still waiting.
  unfoldable pub wait_for_nodes_registration :
      List Wake → List Node → World → Option (Result (List Node) × World)
  wait_for_nodes_registration [] expected w = none
  wait_for_nodes_registration (times_out ∷ ws) expected w = some (err (other ∷ []), w)
  wait_for_nodes_registration (ticks ∷ ws) expected w =
      let a = P.available_nodes P.current_node_id w in
      let again = wait_for_nodes_registration ws expected a.1 in
      elim (all_registered expected a.0) [ none ↦ again | some found ↦ some (ok found, a.1) ]

  unfoldable pub await_created :
      List Wake → Result (List Node) × World → Option (Result (List Node) × World)
  await_created ws (err e, w) = some (err e, w)
  await_created ws (ok [], w) = some (ok [], w)
  await_created ws (ok (n ∷ ns), w) = wait_for_nodes_registration ws (n ∷ ns) w

  -- With the image at hand.
  unfoldable pub scale_from :
      ℕ → List Wake → Result Text × World → Option (Result (List Node) × World)
  scale_from count ws (err e, w) = some (err e, w)
  scale_from count ws (ok image, w) = await_created ws (create_new_nodes count image w)

  -- The deferred calls: the lock is released and the session closed.
  unfoldable pub leave : Option (Result (List Node) × World) → Option (Result (List Node) × World)
  leave none = none
  leave (some (r, w)) = some (r, (P.close_session (P.unlock w)).1)

  -- What follows the attempt to lock; a lock that someone else has is no error.
  unfoldable pub scale_locked :
      ℕ → List Wake → Locking → World → Option (Result (List Node) × World)
  scale_locked count ws no_session w = some (err (other ∷ []), w)
  scale_locked count ws contended w = some (ok [], (P.close_session w).1)
  scale_locked count ws locked w = leave (scale_from count ws (find_latest_image w))

  unfoldable pub scale_up : ℕ → List Wake → World → Option (Result (List Node) × World)
  scale_up count ws w = scale_locked count ws (P.lock w).0 (P.lock w).1
