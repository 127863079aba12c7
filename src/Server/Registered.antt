-- ===== src/Server/Registered.antt =====
-- internal/websocket_server.go: the links of the manager along a run of the server.
use ws_gateway.Common.{
  ℕ, ◌≡◌, ◌≢◌, refl, sym, subst, ◌∙◌, inl, inr, Bool, Option, none, some, List, [], ◌∷◌, arith,
  if◌then◌else◌, Bool-cases, either,
}
use ws_gateway.Common.Int.{ℤ}
use ws_gateway.Common.Keys.{Text, ◌=?◌, nat_eq, text_eq, =?_iff, =?_refl}
use ws_gateway.Common.Map.{lookup, delete, lookup-insert}
use ws_gateway.Common.SyncMap.{SyncMap}
use ws_gateway.Errors.{Error, is_error, link_closed}
use ws_gateway.Links.Manager.{
  UserInfo, generate_link_id, new_link, find_link_by_user_info, clean_idle_links,
}
use ws_gateway.Server.{
  Collaborators, at_top, in_accept, at, Stage, upgrading, connecting, serving, Event, accept_loops,
  accepts, accept_fails, upgrades, connects, ends, receives, cleans, ramp_ticks, ramp_moves,
  ramp_cancels, graceful_stop_begins, stops, Server, accept_loop, accepted, accept_failed,
  drop_conn, drop_link, upgraded, with_shared, connected, finish, received, upgrade_step,
  connect_step, receive_step, end_step, begin_graceful_stop, stop, step, run,
}
use ws_gateway.Server.Tokens.{IsBalanced}
use ws_gateway.Server.Bounds.{step-IsBalanced}
use ws_gateway.Server.Ownership.{
  owner, Owned, Owned-delete, Owned-insert, drop_link-load, clean_loop-load, finish-load,
  finish-conns, IsOwned,
}

module _ {W : Type 0} (C : Collaborators W) (S : SyncMap Text ℕ) where
  -- A connection without a link, or whose link was removed, is dropped.
  unlinked-IsOwned :
      (i : ℕ) (s : Server C S)
      → lookup i s.conns ≡ some upgrading
      → IsOwned C S s
      → IsOwned C S (drop_conn C S i s)
  unfolding drop_conn
  unlinked-IsOwned i s e h id r l =
      Owned-delete i (id, r) upgrading s.conns e (λ x. ground arith) (h id r l)

  dropped-IsOwned :
      (i n : ℕ) (id : Text) (st : Stage) (s t : Server C S)
      → lookup i s.conns ≡ some st
      → owner st ≡ some (id, n)
      → IsOwned C S s
      → t.conns ≡ delete i s.conns
      → ((j : Text)
          → S.load j t.link_manager.links
            ≡ (if id =? j then none else S.load j s.link_manager.links))
      → IsOwned C S t
  dropped-IsOwned i n id st s t e o h ec el j r l =
      let other : owner st ≢ some (j, r) = λ x. ground (arith, el j, =?_iff id j) in
      let before : S.load j s.link_manager.links ≡ some r = ground (arith, el j) in
      subst (Owned (j, r)) (sym ec) (Owned-delete i (j, r) st s.conns e other (h j r before))

  connected-IsOwned :
      (i r : ℕ) (id : Text) (e : Option Error) (s : Server C S)
      → lookup i s.conns ≡ some (connecting id r)
      → IsOwned C S s
      → IsOwned C S (connected C S i id r e s)
  unfolding connected drop_conn
  connected-IsOwned i r id none s e h = λ j r' l.
      Owned-insert i (j, r') (some (connecting id r)) (serving id r) s.conns e
        (λ t f o. ground arith) (h j r' l)
  connected-IsOwned i r id (some x) s e h =
      dropped-IsOwned i r id (connecting id r) s
        (drop_conn C S i (record s { link_manager = drop_link C S id r s.link_manager })) e refl h
        refl (λ j. drop_link-load C S id j r s.link_manager)

  upgraded-IsOwned :
      (i : ℕ) (now : ℤ) (u : Option (UserInfo × Option Bool)) (s : Server C S)
      → lookup i s.conns ≡ some upgrading
      → IsOwned C S s
      → IsOwned C S (upgraded C S i now u s)
  unfolding upgraded new_link
  upgraded-IsOwned i now none s e h = unlinked-IsOwned i s e h
  upgraded-IsOwned i now (some (u, c)) s e h = λ j r l.
      elim (Bool-cases (generate_link_id u =? j)) [
        | inl same ↦ (
          i,
          connecting (generate_link_id u) s.link_manager.next,
          lookup-insert i i _ s.conns ∙ rw (=?_refl i),
          let id_same : generate_link_id u ≡ j = (=?_iff (generate_link_id u) j).0 same in
              let r_same : s.link_manager.next ≡ r = ground (
                arith,
                l,
                same,
                S.load-store (generate_link_id u) j s.link_manager.next s.link_manager.links,
              ) in
              cc (id_same, r_same),
        )
        | inr apart ↦
            let before : S.load j s.link_manager.links ≡ some r =
              sym (
                S.load-store (generate_link_id u) j s.link_manager.next s.link_manager.links
                ∙ rw apart)
              ∙ l in
            Owned-insert i (j, r) (some upgrading) _ s.conns e (λ t f o. ground arith)
              (h j r before)
      ]

  finish-IsOwned :
      (i r : ℕ) (id : Text) (s : Server C S)
      → lookup i s.conns ≡ some (serving id r)
      → IsOwned C S s
      → IsOwned C S (finish C S i id r s)
  finish-IsOwned i r id s e h =
      dropped-IsOwned i r id (serving id r) s (finish C S i id r s) e refl h
        (finish-conns C S i r id s) (λ j. finish-load C S i r id j s)

  received-IsOwned :
      (i r : ℕ) (id : Text) (e : Option Error) (s : Server C S)
      → lookup i s.conns ≡ some (serving id r)
      → IsOwned C S s
      → IsOwned C S (received C S i id r e s)
  unfolding received
  received-IsOwned i r id none s e h = h
  received-IsOwned i r id (some x) s e h =
      either (IsOwned C S) (is_error link_closed x) (finish-IsOwned i r id s e h) h

  upgrade_step-IsOwned :
      (i : ℕ) (now : ℤ) (o : Option Stage) (s : Server C S)
      → lookup i s.conns ≡ o
      → IsOwned C S s
      → IsOwned C S (upgrade_step C S i now o s)
  unfolding upgrade_step
  upgrade_step-IsOwned i now (some upgrading) s e h = upgraded-IsOwned i now _ _ e h
  upgrade_step-IsOwned i now (some (connecting id r)) s e h = h
  upgrade_step-IsOwned i now (some (serving id r)) s e h = h
  upgrade_step-IsOwned i now none s e h = h

  connect_step-IsOwned :
      (i : ℕ) (o : Option Stage) (s : Server C S)
      → lookup i s.conns ≡ o
      → IsOwned C S s
      → IsOwned C S (connect_step C S i o s)
  unfolding connect_step with_shared
  connect_step-IsOwned i (some (connecting id r)) s e h = connected-IsOwned i r id _ _ e h
  connect_step-IsOwned i (some upgrading) s e h = h
  connect_step-IsOwned i (some (serving id r)) s e h = h
  connect_step-IsOwned i none s e h = h

  receive_step-IsOwned :
      (i : ℕ) (payload : Text) (o : Option Stage) (s : Server C S)
      → lookup i s.conns ≡ o
      → IsOwned C S s
      → IsOwned C S (receive_step C S i payload o s)
  unfolding receive_step with_shared
  receive_step-IsOwned i payload (some (serving id r)) s e h = received-IsOwned i r id _ _ e h
  receive_step-IsOwned i payload (some upgrading) s e h = h
  receive_step-IsOwned i payload (some (connecting id r)) s e h = h
  receive_step-IsOwned i payload none s e h = h

  end_step-IsOwned :
      (i : ℕ) (o : Option Stage) (s : Server C S)
      → lookup i s.conns ≡ o
      → IsOwned C S s
      → IsOwned C S (end_step C S i o s)
  unfolding end_step
  end_step-IsOwned i (some (serving id r)) s e h = finish-IsOwned i r id s e h
  end_step-IsOwned i (some upgrading) s e h = h
  end_step-IsOwned i (some (connecting id r)) s e h = h
  end_step-IsOwned i none s e h = h

  accepted-IsOwned :
      (s : Server C S) → IsBalanced C S s → IsOwned C S s → IsOwned C S (accepted C S s)
  unfolding accepted
  accepted-IsOwned s b h =
      either (IsOwned C S) s.listening
        (λ id r l.
          Owned-insert s.next_conn (id, r) none upgrading s.conns
            (b.fresh s.next_conn (omega arith)) (λ t f o. ground arith) (h id r l))
        h

  step-IsOwned :
      (e : Event) (s : Server C S) → IsBalanced C S s → IsOwned C S s → IsOwned C S (step C S e s)
  unfolding step accept_loop accept_failed begin_graceful_stop stop clean_idle_links
  step-IsOwned accept_loops s b h =
      either (IsOwned C S) (at at_top s.acceptor) (either (IsOwned C S) s.accepting_connections h h)
        h
  step-IsOwned accepts s b h =
      either (IsOwned C S) (at in_accept s.acceptor) (accepted-IsOwned s b h) h
  step-IsOwned accept_fails s b h = either (IsOwned C S) (at in_accept s.acceptor) h h
  step-IsOwned (upgrades i now) s b h = upgrade_step-IsOwned i now (lookup i s.conns) s refl h
  step-IsOwned (connects i) s b h = connect_step-IsOwned i (lookup i s.conns) s refl h
  step-IsOwned (receives i payload) s b h =
      receive_step-IsOwned i payload (lookup i s.conns) s refl h
  step-IsOwned (ends i) s b h = end_step-IsOwned i (lookup i s.conns) s refl h
  step-IsOwned (cleans now timeout) s b h = either (IsOwned C S) s.done h λ id r l.
      h id r
        (clean_loop-load C S now timeout id (S.range s.link_manager.links) (s.link_manager, 0) r l)
  step-IsOwned ramp_ticks s b h = h
  step-IsOwned ramp_moves s b h = h
  step-IsOwned ramp_cancels s b h = either (IsOwned C S) s.done h h
  step-IsOwned graceful_stop_begins s b h = h
  step-IsOwned stops s b h = h

  run-IsOwned :
      (es : List Event) (s : Server C S)
      → IsBalanced C S s
      → IsOwned C S s
      → IsOwned C S (run C S es s)
  unfolding run
  run-IsOwned [] s b h = h
  run-IsOwned (e ∷ es) s b h =
      run-IsOwned es (step C S e s) (step-IsBalanced C S e s b) (step-IsOwned e s b h)

  -- After every run from a balanced state (every token that is out is held by a goroutine, and no
  -- connection has a number twice) in which each link of the manager is the link of a connection that
  -- is handled: a link that is found for a user is the link of a connection that is still handled, and
  -- not one that a connection which has ended left behind.
  pub found_handled :
      (es : List Event) (s : Server C S) (u : UserInfo) (r : ℕ)
      → IsBalanced C S s
      → IsOwned C S s
      → find_link_by_user_info C.conn_close S u (run C S es s).link_manager ≡ some r
      → Owned (generate_link_id u, r) (run C S es s).conns
  unfolding find_link_by_user_info
  found_handled es s u r b h e = run-IsOwned es s b h (generate_link_id u) r e
