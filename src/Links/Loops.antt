-- ===== src/Links/Loops.antt =====
-- internal/link/link.go: the goroutines `sendLoop` and `receiveLoop` of a link, as state machines whose
-- steps come between the calls of `Send`, of `Close` and of the reader of `Receive`.
-- The event of a write says what `sendWithRetry` returned, so that all its attempts are one event and
-- one that failed puts nothing on the wire; the event of a read says what the connection gave;
-- the rate limiter only delays.
use ws_gateway.Common.{
  Bool, true, false, Option, none, some, List, [], ◌∷◌, ◌++◌, if◌then◌else◌, length, ◌&&◌,
}
use ws_gateway.Common.Int.{pos, ltb_ℤ}
use ws_gateway.Common.Keys.{Text}
use ws_gateway.Errors.{Error}
use ws_gateway.Links.{Link, send, close}

-- Where the loops stand: at their select or read, with a payload in hand, or returned. A loop that
-- returned may have had a payload in hand.
pub data Sender : Type 0 where
  idle : Sender
  sending : Text → Sender
  stopped : Option Text → Sender

pub data Receiver : Type 0 where
  reading : Receiver
  offering : Text → Receiver
  left : Option Text → Receiver

-- What a read of the connection gives: a payload, a timeout, or an error that ends the loop.
pub data Read : Type 0 where
  got : Text → Read
  read_timed_out read_failed : Read

pub record Pipe (W : Type 0) : Type 0 where
  pub link : Link
  pub sender : Sender
  -- What was written to the connection.
  pub wire : List Text
  pub receiver : Receiver
  pub receive_ch : List Text
  pub receive_closed : Bool
  -- What the reader of `Receive` took.
  pub taken : List Text
  pub world : W

pub data Event : Type 0 where
  sends sends_late : Text → Event
  picks sender_stops offers receiver_stops takes closes : Event
  writes : Bool → Event
  reads : Read → Event

module _ {W : Type 0} (conn_close : Text → W → Bool × W) where
  unfoldable pub close_pipe : Pipe W → Pipe W
  close_pipe p = let c = close conn_close p.link p.world in record p { link = c.1; world = c.2 }

  unfoldable pub send_step : Text → Option (Option Error × Link) → Pipe W → Pipe W
  send_step payload none p = p
  send_step payload (some (e, l)) p = record p { link = l }

  -- A `Send` on a closed link whose select takes the buffer: it returns ErrLinkClosed all the same.
  unfoldable pub send_late : Text → Pipe W → Pipe W
  send_late payload p =
      if p.link.cancelled && ltb_ℤ (pos (length p.link.send_ch)) p.link.send_capacity
      then record p { link = record (p.link) { send_ch = p.link.send_ch ++ payload ∷ [] } }
      else p

  -- `case payload := <-l.sendCh`
  unfoldable pub pick : Sender → List Text → Pipe W → Pipe W
  pick idle (x ∷ xs) p = record p { link = record (p.link) { send_ch = xs }; sender = sending x }
  pick s xs p = p

  -- `sendWithRetry` returned.
  unfoldable pub write : Bool → Sender → Pipe W → Pipe W
  write true (sending x) p = record p { sender = idle; wire = p.wire ++ x ∷ [] }
  write false (sending x) p = close_pipe (record p { sender = stopped (some x) })
  write ok s p = p

  -- `case <-l.ctx.Done()` of the sending loop, and its deferred `Close`.
  unfoldable pub stop_sender : Sender → Pipe W → Pipe W
  stop_sender idle p =
      if p.link.cancelled then close_pipe (record p { sender = stopped none }) else p
  stop_sender s p = p

  -- The receiving loop returns, with its deferred calls.
  unfoldable pub leave : Option Text → Pipe W → Pipe W
  leave x p = close_pipe (record p { receiver = left x; receive_closed = true })

  -- One round of the receiving loop up to its second select.
  unfoldable pub read_round : Read → Receiver → Pipe W → Pipe W
  read_round (got x) reading p =
      if p.link.cancelled then leave none p else record p { receiver = offering x }
  read_round read_timed_out reading p = if p.link.cancelled then leave none p else p
  read_round read_failed reading p = leave none p
  read_round r s p = p

  -- `case l.receiveCh <- payload`
  unfoldable pub offer : Receiver → Pipe W → Pipe W
  offer (offering x) p =
      if ltb_ℤ (pos (length p.receive_ch)) p.link.receive_capacity
      then record p { receiver = reading; receive_ch = p.receive_ch ++ x ∷ [] }
      else p
  offer s p = p

  unfoldable pub stop_receiver : Receiver → Pipe W → Pipe W
  stop_receiver reading p = if p.link.cancelled then leave none p else p
  stop_receiver (offering x) p = if p.link.cancelled then leave (some x) p else p
  stop_receiver (left x) p = p

  unfoldable pub take_received : List Text → Pipe W → Pipe W
  take_received [] p = p
  take_received (x ∷ xs) p = record p { receive_ch = xs; taken = p.taken ++ x ∷ [] }

  unfoldable pub step : Event → Pipe W → Pipe W
  step (sends payload) p = send_step payload (send payload p.link) p
  step (sends_late payload) p = send_late payload p
  step picks p = pick p.sender p.link.send_ch p
  step (writes ok) p = write ok p.sender p
  step sender_stops p = stop_sender p.sender p
  step (reads r) p = read_round r p.receiver p
  step offers p = offer p.receiver p
  step receiver_stops p = stop_receiver p.receiver p
  step takes p = take_received p.receive_ch p
  step closes p = close_pipe p

  unfoldable pub run : List Event → Pipe W → Pipe W
  run [] p = p
  run (e ∷ es) p = run es (step e p)
