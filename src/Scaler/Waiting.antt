-- ===== src/Scaler/Waiting.antt =====
-- pkg/scaler/docker.go: what `ScaleUp` returns, and the lock it leaves.
use ws_gateway.Common.{
  ℕ, ◌≤◌, ◌≡◌, refl, ap, ◌∙◌, inl, inr, Bool, true, false, Bool-cases, ◌⊎◌, Option, none, some,
  List, [], ◌∷◌, arith, Option-cases, length, ==_iff,
}
use ws_gateway.Common.Keys.{Text, text_eq, =?_iff}
use ws_gateway.Errors.{Result, ok, err}
use ws_gateway.Scaler.{
  Node, Wake, ticks, times_out, Locking, no_session, contended, locked, Platform, find_node,
  find_registered_nodes, all_registered, wait_for_nodes_registration, await_created,
  create_new_nodes, scale_from, leave, scale_locked, scale_up, find_latest_image,
}

abbrev pub ids : List Node → List Text
ids [] = []
ids (n ∷ ns) = n.id ∷ ids ns

find_node-id : (id : Text) (ns : List Node) (n : Node) → find_node id ns ≡ some n → n.id ≡ id
find_node-id id [] n e = ground arith
find_node-id id (x ∷ xs) n e = ground (arith, =?_iff id x.id, find_node-id id xs n)

length-find_registered_nodes :
    (es available : List Node) → length (find_registered_nodes es available) ≤ length es
unfolding find_registered_nodes
length-find_registered_nodes [] available = omega arith
length-find_registered_nodes (e ∷ es) available =
    ground (arith, length-find_registered_nodes es available)

-- As many registered nodes as new ones are the new ones.
find_registered_nodes-ids :
    (es available : List Node)
    → length (find_registered_nodes es available) ≡ length es
    → ids (find_registered_nodes es available) ≡ ids es
unfolding find_registered_nodes
find_registered_nodes-ids [] available h = refl
find_registered_nodes-ids (e ∷ es) available h = elim (Option-cases (find_node e.id available)) [
  | inl missing ↦ absurd (
      omega (
        arith,
        rw (missing, find_registered_nodes) at h,
        length-find_registered_nodes es available,
      ))
  | inr (n, found) ↦
      rw (found, find_registered_nodes)
        (ap (λ x. x ∷ ids (find_registered_nodes es available))
            (find_node-id e.id available n found)
          ∙ ap (λ x. e.id ∷ x)
              (find_registered_nodes-ids es available
                (omega (arith, rw (found, find_registered_nodes) at h))))
]

all_registered_lem :
    (expected : List Node) (o : Option (List Node)) (found : List Node)
    → all_registered expected o ≡ some found
    → ids found ≡ ids expected
unfolding all_registered
all_registered_lem expected none found e = ground arith
all_registered_lem expected (some available) found e = ground (
  arith,
  find_registered_nodes-ids expected available,
  ==_iff (length (find_registered_nodes expected available)) (length expected),
)

module _ (P : Platform) where
  open P use {World}

  -- When the wait for the new nodes ends without an error, what it returns are registered nodes with
  -- the ids of the new ones, all of them in the order of their creation.
  pub registered_all :
      (ws : List Wake) (expected found : List Node) (w w' : World)
      → wait_for_nodes_registration P ws expected w ≡ some (ok found, w')
      → ids found ≡ ids expected
  unfolding wait_for_nodes_registration
  registered_all [] expected found w w' e = ground arith
  registered_all (times_out ∷ ws) expected found w w' e = ground arith
  registered_all (ticks ∷ ws) expected found w w' e =
      let a = P.available_nodes P.current_node_id w in
      elim (Option-cases (all_registered expected a.0)) [
        | inl missing ↦
            registered_all ws expected found a.1 w' (rw (missing, wait_for_nodes_registration) at e)
        | inr (there, known) ↦
            all_registered_lem expected a.0 found
              (ground (arith, known, rw (known, wait_for_nodes_registration) at e))
      ]

  -- The timeout is among the wake-ups.
  abbrev pub TimesOut : List Wake → Type 0
  TimesOut [] = ⊥
  TimesOut (times_out ∷ ws) = Unit
  TimesOut (ticks ∷ ws) = TimesOut ws

  abbrev Ends : Option (Result (List Node) × World) → Type 0
  Ends o = (r : Result (List Node)) × (w : World) × (o ≡ some (r, w))

  wait-Ends :
      (ws : List Wake) (expected : List Node) (w : World)
      → TimesOut ws
      → Ends (wait_for_nodes_registration P ws expected w)
  unfolding wait_for_nodes_registration
  wait-Ends [] expected w h = absurd h
  wait-Ends (times_out ∷ ws) expected w h = (_, _, refl)
  wait-Ends (ticks ∷ ws) expected w h =
      let a = P.available_nodes P.current_node_id w in
      elim (Option-cases (all_registered expected a.0)) [
        | inl missing ↦ rw (missing, wait_for_nodes_registration) (wait-Ends ws expected a.1 h)
        | inr (there, known) ↦ (ok there, a.1, rw (known, wait_for_nodes_registration))
      ]

  await-Ends :
      (ws : List Wake) (r : Result (List Node) × World) → TimesOut ws → Ends (await_created P ws r)
  unfolding await_created
  await-Ends ws (err e, w) h = (_, _, refl)
  await-Ends ws (ok [], w) h = (_, _, refl)
  await-Ends ws (ok (n ∷ ns), w) h = wait-Ends ws (n ∷ ns) w h

  scale_from-Ends :
      (count : ℕ) (ws : List Wake) (r : Result Text × World)
      → TimesOut ws
      → Ends (scale_from P count ws r)
  unfolding scale_from
  scale_from-Ends count ws (err e, w) h = (_, _, refl)
  scale_from-Ends count ws (ok image, w) h = await-Ends ws (create_new_nodes P count image w) h

  -- Closing the session leaves none open, if it does not fail; and a session that could not be opened
  -- leaves what was.
  module _ (open_session : World → Bool)
      (closed : (w : World)
        → (P.close_session w).0 ≡ false
        → open_session (P.close_session w).1 ≡ false)
      (unopened : (w : World)
        → (P.lock w).0 ≡ no_session
        → open_session (P.lock w).1 ≡ open_session w) where
    -- No session is open, or the last thing that was done is to close one, which failed.
    abbrev pub IsLeft : World → Type 0
    IsLeft w =
        (open_session w ≡ false)
        ⊎ ((v : World) × ((P.close_session v).0 ≡ true) × (w ≡ (P.close_session v).1))

    close-IsLeft : (v : World) → IsLeft (P.close_session v).1
    close-IsLeft v = elim (Bool-cases (P.close_session v).0) [
      | inl failed ↦ inr (v, failed, refl)
      | inr fine ↦ inl (closed v fine)
    ]

    locked-Ends :
        (count : ℕ) (ws : List Wake) (w v : World) (l : Locking)
        → TimesOut ws
        → (l ≡ no_session → open_session v ≡ open_session w)
        → open_session w ≡ false
        → (r : Result (List Node)) × (w' : World) × (scale_locked P count ws l v ≡ some (r, w'))
          × IsLeft w'
    unfolding scale_locked leave
    locked-Ends count ws w v no_session h u n = (_, _, refl, inl (u refl ∙ n))
    locked-Ends count ws w v contended h u n = (_, _, refl, close-IsLeft v)
    locked-Ends count ws w v locked h u n =
        let (r, w', e) = scale_from-Ends count ws (find_latest_image P v) h in
        (r, (P.close_session (P.unlock w')).1, rw e, close-IsLeft (P.unlock w'))

    -- If no session of the scaling lock was open, and a `Close` that does not fail leaves none, `ScaleUp`
    -- returns once the wait's timeout is due, whatever Docker, the registry and etcd answer; and on
    -- every path either no session is open then, and with it no lock, or closing it, which is the last
    -- thing `ScaleUp` does, failed.
    pub scale_up_ends :
        (count : ℕ) (ws : List Wake) (w : World)
        → TimesOut ws
        → open_session w ≡ false
        → (r : Result (List Node)) × (w' : World) × (scale_up P count ws w ≡ some (r, w'))
          × IsLeft w'
    unfolding scale_up
    scale_up_ends count ws w h n = locked-Ends count ws w (P.lock w).1 (P.lock w).0 h (unopened w) n
