-- ===== src/Server/Bounds.antt =====
-- internal/websocket_server.go: how many connections are handled at the same time.
use ws_gateway.Common.{
  ℕ, ◌<◌, ◌≡◌, refl, ◌∙◌, inl, inr, true, Option, none, some, List, [], ◌∷◌, arith, Bool-cases,
  length, either,
}
use ws_gateway.Common.Int.{ℤ, pos, ◌≤ℤ◌}
use ws_gateway.Common.Keys.{Text, nat_eq, text_eq, =?_iff}
use ws_gateway.Common.Map.{lookup, lookup-insert, insert-IsMap, length-insert_fresh}
use ws_gateway.Common.SyncMap.{SyncMap}
use ws_gateway.Links.Manager.{Manager}
use ws_gateway.Limiter
use ws_gateway.Limiter.{System, acquire, release}
use ws_gateway.Limiter.Capacity
use ws_gateway.Server.{
  Collaborators, Acceptor, at_top, in_accept, finished, Stage, upgrading, connecting, serving,
  Event, accept_loops, accepts, accept_fails, upgrades, connects, ends, receives, cleans,
  ramp_ticks, ramp_moves, ramp_cancels, graceful_stop_begins, stops, Server, at, accept_loop,
  accepted, accept_failed, with_shared, upgrade_step, connect_step, receive_step, end_step,
  begin_graceful_stop, stop, step, run, new_web_socket_server,
}
use ws_gateway.Server.Tokens.{
  IsBalanced, give_back-IsAccounted, give_back-held, take_token-IsAccounted, take_token-held,
  quiet-held, connected-IsBalanced, upgraded-IsBalanced, finish-IsBalanced, received-IsBalanced,
}

at_acceptor : (a b : Acceptor) → at a b ≡ true → b ≡ a
at_acceptor at_top at_top e = refl
at_acceptor in_accept in_accept e = refl
at_acceptor finished finished e = refl
at_acceptor at_top in_accept e = ground arith
at_acceptor at_top finished e = ground arith
at_acceptor in_accept at_top e = ground arith
at_acceptor in_accept finished e = ground arith
at_acceptor finished at_top e = ground arith
at_acceptor finished in_accept e = ground arith

module _ {W : Type 0} (C : Collaborators W) (S : SyncMap Text ℕ) where
  -- The steps of one connection, by what its goroutine is found to do.
  upgrade_step-IsBalanced :
      (i : ℕ) (now : ℤ) (o : Option Stage) (s : Server C S)
      → lookup i s.conns ≡ o
      → IsBalanced C S s
      → IsBalanced C S (upgrade_step C S i now o s)
  unfolding upgrade_step
  upgrade_step-IsBalanced i now (some upgrading) s e h =
      upgraded-IsBalanced C S i now upgrading _ _ e
        (record { accounted = h.accounted; held = h.held; distinct = h.distinct; fresh = h.fresh })
  upgrade_step-IsBalanced i now (some (connecting id r)) s e h = h
  upgrade_step-IsBalanced i now (some (serving id r)) s e h = h
  upgrade_step-IsBalanced i now none s e h = h

  connect_step-IsBalanced :
      (i : ℕ) (o : Option Stage) (s : Server C S)
      → lookup i s.conns ≡ o
      → IsBalanced C S s
      → IsBalanced C S (connect_step C S i o s)
  unfolding connect_step with_shared
  connect_step-IsBalanced i (some (connecting id r)) s e h =
      connected-IsBalanced C S i r id (connecting id r) _ _ e
        (record { accounted = h.accounted; held = h.held; distinct = h.distinct; fresh = h.fresh })
  connect_step-IsBalanced i (some upgrading) s e h = h
  connect_step-IsBalanced i (some (serving id r)) s e h = h
  connect_step-IsBalanced i none s e h = h

  receive_step-IsBalanced :
      (i : ℕ) (payload : Text) (o : Option Stage) (s : Server C S)
      → lookup i s.conns ≡ o
      → IsBalanced C S s
      → IsBalanced C S (receive_step C S i payload o s)
  unfolding receive_step with_shared
  receive_step-IsBalanced i payload (some (serving id r)) s e h =
      received-IsBalanced C S i r id (serving id r) _ _ e
        (record { accounted = h.accounted; held = h.held; distinct = h.distinct; fresh = h.fresh })
  receive_step-IsBalanced i payload (some upgrading) s e h = h
  receive_step-IsBalanced i payload (some (connecting id r)) s e h = h
  receive_step-IsBalanced i payload none s e h = h

  end_step-IsBalanced :
      (i : ℕ) (o : Option Stage) (s : Server C S)
      → lookup i s.conns ≡ o
      → IsBalanced C S s
      → IsBalanced C S (end_step C S i o s)
  unfolding end_step
  end_step-IsBalanced i (some (serving id r)) s e h =
      finish-IsBalanced C S i r id (serving id r) s e h
  end_step-IsBalanced i (some upgrading) s e h = h
  end_step-IsBalanced i (some (connecting id r)) s e h = h
  end_step-IsBalanced i none s e h = h

  accept_loop-IsBalanced :
      (s : Server C S) → s.acceptor ≡ at_top → IsBalanced C S s → IsBalanced C S (accept_loop C S s)
  unfolding accept_loop
  accept_loop-IsBalanced s e h = elim (Bool-cases s.accepting_connections) [
    | inr bar ↦ rw bar (record {
      accounted = h.accounted;
      held = rw e at h.held;
      distinct = h.distinct;
      fresh = h.fresh;
    })
    | inl so ↦ rw so (record {
      accounted = take_token-IsAccounted s.system h.accounted;
      held = ground (arith, h.held, take_token-held s.system);
      distinct = h.distinct;
      fresh = h.fresh;
    })
  ]

  accepted-IsBalanced :
      (s : Server C S) → s.acceptor ≡ in_accept → IsBalanced C S s → IsBalanced C S (accepted C S s)
  unfolding accepted
  accepted-IsBalanced s e h =
      either (IsBalanced C S) s.listening
        (record {
          accounted = h.accounted;
          held = ground (
            arith,
            h.held,
            length-insert_fresh s.next_conn upgrading s.conns (h.fresh s.next_conn (omega arith)),
          );
          distinct = insert-IsMap s.next_conn upgrading s.conns h.distinct;
          fresh = λ k le. ground (
            arith,
            lookup-insert s.next_conn k upgrading s.conns,
            =?_iff s.next_conn k,
            h.fresh k (omega arith),
          );
        })
        h

  accept_failed-IsBalanced :
      (s : Server C S)
      → s.acceptor ≡ in_accept
      → IsBalanced C S s
      → IsBalanced C S (accept_failed C S s)
  unfolding accept_failed
  accept_failed-IsBalanced s e h =
      let out : 0 < s.system.held = ground (arith, h.held) in
      record {
        accounted = give_back-IsAccounted s.system h.accounted out;
        held = ground (arith, h.held, give_back-held s.system out);
        distinct = h.distinct;
        fresh = h.fresh;
      }

  limiter-IsBalanced :
      (e : Limiter.Event) (s : Server C S)
      → IsBalanced C S s
      → (Limiter.step e s.system).held ≡ s.system.held
      → IsBalanced C S (record s { system = Limiter.step e s.system })
  limiter-IsBalanced e s h u = record {
    accounted = Capacity.step-IsAccounted e s.system h.accounted;
    held = u ∙ h.held;
    distinct = h.distinct;
    fresh = h.fresh;
  }

  pub step-IsBalanced :
      (e : Event) (s : Server C S) → IsBalanced C S s → IsBalanced C S (step C S e s)
  unfolding step begin_graceful_stop stop Limiter.step
  step-IsBalanced accept_loops s h = elim (Bool-cases (at at_top s.acceptor)) [
    | inl here ↦ rw here (accept_loop-IsBalanced s (at_acceptor at_top s.acceptor here) h)
    | inr away ↦ rw away h
  ]
  step-IsBalanced accepts s h = elim (Bool-cases (at in_accept s.acceptor)) [
    | inl here ↦ rw here (accepted-IsBalanced s (at_acceptor in_accept s.acceptor here) h)
    | inr away ↦ rw away h
  ]
  step-IsBalanced accept_fails s h = elim (Bool-cases (at in_accept s.acceptor)) [
    | inl here ↦ rw here (accept_failed-IsBalanced s (at_acceptor in_accept s.acceptor here) h)
    | inr away ↦ rw away h
  ]
  step-IsBalanced (upgrades i now) s h = upgrade_step-IsBalanced i now (lookup i s.conns) s refl h
  step-IsBalanced (connects i) s h = connect_step-IsBalanced i (lookup i s.conns) s refl h
  step-IsBalanced (receives i payload) s h =
      receive_step-IsBalanced i payload (lookup i s.conns) s refl h
  step-IsBalanced (ends i) s h = end_step-IsBalanced i (lookup i s.conns) s refl h
  step-IsBalanced (cleans now timeout) s h =
      either (IsBalanced C S) s.done h
        (record { accounted = h.accounted; held = h.held; distinct = h.distinct; fresh = h.fresh })
  step-IsBalanced ramp_ticks s h = limiter-IsBalanced Limiter.ticks s h (quiet-held s.system).0
  step-IsBalanced ramp_moves s h = limiter-IsBalanced Limiter.ramps s h (quiet-held s.system).1
  step-IsBalanced ramp_cancels s h =
      either (IsBalanced C S) s.done
        (limiter-IsBalanced Limiter.cancels s h (quiet-held s.system).2) h
  step-IsBalanced graceful_stop_begins s h = record {
    accounted = h.accounted;
    held = h.held;
    distinct = h.distinct;
    fresh = h.fresh;
  }
  step-IsBalanced stops s h = record {
    accounted = Capacity.step-IsAccounted Limiter.closes s.system h.accounted;
    held = (quiet-held s.system).3 ∙ h.held;
    distinct = h.distinct;
    fresh = h.fresh;
  }

  pub run-IsBalanced :
      (es : List Event) (s : Server C S) → IsBalanced C S s → IsBalanced C S (run C S es s)
  unfolding run
  run-IsBalanced [] s h = h
  run-IsBalanced (e ∷ es) s h = run-IsBalanced es (step C S e s) (step-IsBalanced e s h)

  pub new-IsBalanced :
      (c : Limiter.Config) (m : Manager C.conn_close S)
      → Capacity.IsFit c
      → IsBalanced C S (new_web_socket_server C S (Capacity.filled c) m)
  unfolding new_web_socket_server lookup Limiter.launched
  new-IsBalanced c m fit = record {
    accounted = Capacity.launched-IsAccounted c fit;
    held = refl;
    distinct = tt;
    fresh = λ k le. refl;
  }

  -- From a fit configuration of the limiter (a valid one in which the maximum and the step together fit
  -- in an int64), however the goroutines that accept, handle and clean connections, the ramp-up and the
  -- two ways to stop interleave, at most `MaxCapacity` connections are handled at the same time.
  pub connections_bounded :
      (c : Limiter.Config) (m : Manager C.conn_close S) (es : List Event)
      → Capacity.IsFit c
      → let t : Server C S = run C S es (new_web_socket_server C S (Capacity.filled c) m) in
        pos (length t.conns) ≤ℤ t.system.limiter.max_capacity
  connections_bounded c m es fit =
      let b : IsBalanced C S (run C S es (new_web_socket_server C S (Capacity.filled c) m)) =
        run-IsBalanced es (new_web_socket_server C S (Capacity.filled c) m)
          (new-IsBalanced c m fit) in
      ground (arith, b.held, b.accounted.accounted, b.accounted.bounded, b.accounted.rising)

  -- In every balanced state in which `acceptConn` has returned and no connection is left, no token is out: what
  -- was taken came back, on every path of the two goroutines.
  pub all_returned :
      (s : Server C S) → IsBalanced C S s → s.acceptor ≡ finished → s.conns ≡ [] → s.system.held ≡ 0
  all_returned s h a e = rw (a, e) at h.held
