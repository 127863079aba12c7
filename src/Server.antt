-- ===== src/Server.antt =====
-- internal/websocket_server.go: the goroutine that accepts connections, the one that each connection
-- has, and the calls that stop the server.
-- A goroutine is a state machine whose steps the others' may come between; its deferred calls run in
-- one step. The limiter and the link manager are the ones of Limiter and Links.Manager; the upgrader,
-- the event handlers and `net.Conn` are parameters. Logging is left out.
pub mod Tokens
pub mod Bounds
pub mod Ownership
pub mod Registered
pub mod Pushing
pub mod Tests
use ws_gateway.Common.{
  ℕ, zero, suc, ◌+◌, ◌-◌, Bool, true, false, Option, none, some, List, [], ◌∷◌, if◌then◌else◌,
}
use ws_gateway.Common.Int.{ℤ, pos}
use ws_gateway.Common.Keys.{Text, nat_eq, text_eq}
use ws_gateway.Common.Map.{lookup, insert, delete}
use ws_gateway.Common.SyncMap.{SyncMap}
use ws_gateway.Errors.{Error, is_error, link_closed}
use ws_gateway.Links.{Link, close}
use ws_gateway.Links.Manager.{
  Manager, UserInfo, generate_link_id, new_link, remove_link, clean_idle_links,
}
use ws_gateway.Limiter
use ws_gateway.Limiter.{System, acquire, release}

-- What the server is given: the world is all that these keep. A link is its reference.
pub record Collaborators (W : Type 0) : Type 0 where
  -- Upgrader.Upgrade on a connection: the user and the compression, or an error.
  pub upgrade : ℕ → W → Option (UserInfo × Option Bool) × W
  -- net.Conn.Close, of a connection and through its link.
  pub close_conn : ℕ → W → W
  pub conn_close : Text → W → Bool × W
  -- gateway.LinkEventHandler; a handler may change the link.
  pub on_connect : ℕ → List (ℕ × Link) → W → Option Error × List (ℕ × Link) × W
  pub on_frontend_send_message : ℕ → Text → List (ℕ × Link) → W → Option Error × List (ℕ × Link) × W
  pub on_disconnect : ℕ → List (ℕ × Link) → W → Option Error × List (ℕ × Link) × W

-- Where `acceptConn` stands: at the top of its loop, in `Accept` with a token, or returned.
pub data Acceptor : Type 0 where
  at_top in_accept finished : Acceptor

-- Whether `acceptConn` stands at a place.
abbrev pub at : Acceptor → Acceptor → Bool
at at_top at_top = true
at in_accept in_accept = true
at finished finished = true
at _ _ = false

-- Where a `handleConn` stands: before `Upgrade`, before `OnConnect`, or in its loop.
pub data Stage : Type 0 where
  upgrading : Stage
  connecting serving : Text → ℕ → Stage

pub data Event : Type 0 where
  accept_loops accepts accept_fails : Event
  upgrades : ℕ → ℤ → Event
  connects ends : ℕ → Event
  receives : ℕ → Text → Event
  cleans : ℤ → ℤ → Event
  ramp_ticks ramp_moves ramp_cancels : Event
  graceful_stop_begins stops : Event

-- A token taken by `Acquire`, and one given back by `Release`.
unfoldable pub take_token : System → Bool × System
take_token s =
    let (l, taken) = acquire s.limiter in
    (taken, record s { limiter = l; held = if taken then s.held + 1 else s.held })

unfoldable pub give_back : System → System
give_back s = record s { limiter = (release s.limiter).0; held = s.held - 1 }

module _ {W : Type 0} (C : Collaborators W) (S : SyncMap Text ℕ) where
  abbrev pub Links : Type 0
  Links = Manager C.conn_close S

  pub record Server : Type 0 where
    pub system : System
    pub accepting_connections : Bool
    -- The listener is open.
    pub listening : Bool
    pub acceptor : Acceptor
    -- The goroutines `handleConn` that have not returned, by the number of their connection.
    pub conns : List (ℕ × Stage)
    pub next_conn : ℕ
    pub link_manager : Links
    -- The context is done.
    pub done : Bool

  -- The top of the loop of `acceptConn`; without a token it comes back after the back-off.
  unfoldable pub accept_loop : Server → Server
  accept_loop s =
      if s.accepting_connections
      then (let t = take_token s.system in
          record s { system = t.1; acceptor = if t.0 then in_accept else at_top })
      else record s { acceptor = finished }

  -- `Accept` returned a connection.
  unfoldable pub accepted : Server → Server
  accepted s =
      if s.listening
      then record s {
        acceptor = at_top;
        conns = insert s.next_conn upgrading s.conns;
        next_conn = suc s.next_conn;
      }
      else s

  -- `Accept` failed: with net.ErrClosed if the listener is closed.
  unfoldable pub accept_failed : Server → Server
  accept_failed s = record s {
    system = give_back s.system;
    acceptor = if s.listening then at_top else finished;
  }

  -- The first two deferred calls of `handleConn`: the connection is closed, the token given back.
  unfoldable pub drop_conn : ℕ → Server → Server
  drop_conn i s = record s {
    link_manager = record (s.link_manager) { world = C.close_conn i s.link_manager.world };
    system = give_back s.system;
    conns = delete i s.conns;
  }

  -- The third one.
  unfoldable pub drop_link : Text → ℕ → Links → Links
  drop_link id r m =
      let (removed, m') = remove_link C.conn_close S id m in
      elim (lookup r m'.heap) [
        | none ↦ m'
        | some l ↦
            let (failed, l', w) = close C.conn_close l m'.world in
            record m' { heap = insert r l' m'.heap; world = w }
      ]

  -- What follows the answer of `Upgrade`.
  unfoldable pub upgraded : ℕ → ℤ → Option (UserInfo × Option Bool) → Server → Server
  upgraded i now none s = drop_conn i s
  upgraded i now (some (u, compression)) s = record s {
    link_manager = new_link C.conn_close S u compression now s.link_manager;
    conns = insert i (connecting (generate_link_id u) s.link_manager.next) s.conns;
  }

  unfoldable pub with_shared : List (ℕ × Link) → W → Server → Server
  with_shared heap w s = record s {
    link_manager = record (s.link_manager) { heap = heap; world = w };
  }

  -- What follows the answer of `OnConnect`.
  unfoldable pub connected : ℕ → Text → ℕ → Option Error → Server → Server
  connected i id r none s = record s { conns = insert i (serving id r) s.conns }
  connected i id r (some e) s =
      drop_conn i (record s { link_manager = drop_link id r s.link_manager })

  -- The end of a connection that was served: all the deferred calls.
  unfoldable pub finish : ℕ → Text → ℕ → Server → Server
  finish i id r s =
      let d = C.on_disconnect r s.link_manager.heap s.link_manager.world in
      let s' = with_shared d.1 d.2 s in
      drop_conn i (record s' { link_manager = drop_link id r s'.link_manager })

  -- What follows the answer of `OnFrontendSendMessage`: only a closed link ends the loop.
  unfoldable pub received : ℕ → Text → ℕ → Option Error → Server → Server
  received i id r none s = s
  received i id r (some e) s = if is_error link_closed e then finish i id r s else s

  unfoldable pub upgrade_step : ℕ → ℤ → Option Stage → Server → Server
  upgrade_step i now (some upgrading) s =
      let u = C.upgrade i s.link_manager.world in
      upgraded i now u.0 (record s { link_manager = record (s.link_manager) { world = u.1 } })
  upgrade_step i now _ s = s

  unfoldable pub connect_step : ℕ → Option Stage → Server → Server
  connect_step i (some (connecting id r)) s =
      let c = C.on_connect r s.link_manager.heap s.link_manager.world in
      connected i id r c.0 (with_shared c.1 c.2 s)
  connect_step i _ s = s

  unfoldable pub receive_step : ℕ → Text → Option Stage → Server → Server
  receive_step i payload (some (serving id r)) s =
      let m = C.on_frontend_send_message r payload s.link_manager.heap s.link_manager.world in
      received i id r m.0 (with_shared m.1 m.2 s)
  receive_step i payload _ s = s

  unfoldable pub end_step : ℕ → Option Stage → Server → Server
  end_step i (some (serving id r)) s = finish i id r s
  end_step i _ s = s

  -- `GracefulStop` up to its first call of the registry.
  unfoldable pub begin_graceful_stop : Server → Server
  begin_graceful_stop s = record s { accepting_connections = false; listening = false }

  unfoldable pub stop : Server → Server
  stop s = record s { system = Limiter.step Limiter.closes s.system; done = true }

  unfoldable pub step : Event → Server → Server
  step accept_loops s = if at at_top s.acceptor then accept_loop s else s
  step accepts s = if at in_accept s.acceptor then accepted s else s
  step accept_fails s = if at in_accept s.acceptor then accept_failed s else s
  step (upgrades i now) s = upgrade_step i now (lookup i s.conns) s
  step (connects i) s = connect_step i (lookup i s.conns) s
  step (receives i payload) s = receive_step i payload (lookup i s.conns) s
  -- The link's channel was closed, the link was closed, or the server's context is done.
  step (ends i) s = end_step i (lookup i s.conns) s
  step (cleans now timeout) s = if s.done then s else record s {
    link_manager = (clean_idle_links C.conn_close S now timeout s.link_manager).0;
  }
  step ramp_ticks s = record s { system = Limiter.step Limiter.ticks s.system }
  step ramp_moves s = record s { system = Limiter.step Limiter.ramps s.system }
  step ramp_cancels s =
      if s.done then record s { system = Limiter.step Limiter.cancels s.system } else s
  step graceful_stop_begins s = begin_graceful_stop s
  step stops s = stop s

  unfoldable pub run : List Event → Server → Server
  run [] s = s
  run (e ∷ es) s = run es (step e s)

  -- `newWebSocketServer` and the part of `Start` that launches the goroutines.
  unfoldable pub new_web_socket_server : Limiter.Limiter → Links → Server
  new_web_socket_server l m = record {
    system = Limiter.launched l;
    accepting_connections = true;
    listening = true;
    acceptor = at_top;
    conns = [];
    next_conn = 0;
    link_manager = m;
    done = false;
  }
