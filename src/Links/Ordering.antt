-- ===== src/Links/Ordering.antt =====
-- internal/link/link.go: the order of the payloads that the loops of a link move.
use ws_gateway.Common.{
  ◌≡◌, refl, ap, sym, ◌∙◌, inl, inr, Bool, true, false, Option, none, some, List, [], ◌∷◌, ◌++◌,
  arith, if◌then◌else◌, Bool-cases, either, length, ◌&&◌,
}
use mathlib.Core.List.{append_assoc, append-nil}
use ws_gateway.Common.Int.{pos, ltb_ℤ}
use ws_gateway.Common.Keys.{Text}
use ws_gateway.Errors.{Error}
use ws_gateway.Links.{Link, send, close}
use ws_gateway.Links.Loops.{
  Sender, idle, sending, stopped, Receiver, reading, offering, left, Read, got, read_timed_out,
  read_failed, Pipe, Event, sends, sends_late, send_late, picks, sender_stops, offers,
  receiver_stops, takes, closes, writes, reads, close_pipe, send_step, pick, write, stop_sender,
  leave, read_round, offer, stop_receiver, take_received, step, run,
}

abbrev pub payloads : Option Text → List Text
payloads none = []
payloads (some x) = x ∷ []

-- The payload that the sending loop has in hand, or had.
abbrev pub in_hand : Sender → List Text
in_hand idle = []
in_hand (sending x) = x ∷ []
in_hand (stopped x) = payloads x

-- What was written, is in hand, and waits in the buffer.
abbrev pub outgoing : {W : Type 0} → Pipe W → List Text
outgoing p = p.wire ++ (in_hand p.sender ++ p.link.send_ch)

-- The payload that a `Send` which returned nil put into the buffer.
abbrev pub accepted_by : Text → Option (Option Error × Link) → List Text
accepted_by x (some (none, l)) = x ∷ []
accepted_by x _ = []

module _ {W : Type 0} (conn_close : Text → W → Bool × W) where
  abbrev entered_now : Event → Pipe W → List Text
  entered_now (sends x) p = accepted_by x (send x p.link)
  entered_now (sends_late x) p =
      if p.link.cancelled && ltb_ℤ (pos (length p.link.send_ch)) p.link.send_capacity
      then x ∷ []
      else []
  entered_now _ p = []

  -- The payloads that entered the buffer along a run, in order.
  unfoldable pub entered : List Event → Pipe W → List Text
  entered [] p = []
  entered (e ∷ es) p = entered_now e p ++ entered es (step conn_close e p)

  if-outgoing :
      (b : Bool) (t u p : Pipe W)
      → outgoing t ≡ outgoing p
      → outgoing u ≡ outgoing p
      → outgoing (if b then t else u) ≡ outgoing p
  if-outgoing b t u p e h = either (λ (q : Pipe W). outgoing q ≡ outgoing p) b e h

  close-outgoing : (p : Pipe W) → outgoing (close_pipe conn_close p) ≡ outgoing p
  unfolding close_pipe close
  close-outgoing p = ground arith

  buffered-outgoing :
      (x : Text) (p : Pipe W)
      → p.wire ++ (in_hand p.sender ++ (p.link.send_ch ++ x ∷ [])) ≡ outgoing p ++ x ∷ []
  buffered-outgoing x p =
      rw
        (
          append_assoc p.wire (in_hand p.sender ++ p.link.send_ch) (x ∷ []),
          append_assoc (in_hand p.sender) p.link.send_ch (x ∷ []),
        )
        refl

  send-outgoing :
      (x : Text) (p : Pipe W)
      → outgoing (send_step conn_close x (send x p.link) p)
        ≡ outgoing p ++ accepted_by x (send x p.link)
  unfolding send send_step
  send-outgoing x p =
      either (λ o. outgoing (send_step conn_close x o p) ≡ outgoing p ++ accepted_by x o)
        p.link.cancelled (sym (append-nil (outgoing p)))
        (either (λ o. outgoing (send_step conn_close x o p) ≡ outgoing p ++ accepted_by x o)
          (ltb_ℤ (pos (length p.link.send_ch)) p.link.send_capacity) (buffered-outgoing x p)
          (sym (append-nil (outgoing p))))

  send_late-outgoing :
      (x : Text) (p : Pipe W)
      → outgoing (send_late conn_close x p) ≡ outgoing p ++ entered_now (sends_late x) p
  unfolding send_late
  send_late-outgoing x p =
      elim (Bool-cases
        (p.link.cancelled && ltb_ℤ (pos (length p.link.send_ch)) p.link.send_capacity)) [
          | inl t ↦ rw (t) (buffered-outgoing x p)
          | inr t ↦ rw (t) (sym (append-nil (outgoing p)))
        ]

  pick-outgoing :
      (s : Sender) (xs : List Text) (p : Pipe W)
      → p.sender ≡ s
      → p.link.send_ch ≡ xs
      → outgoing (pick conn_close s xs p) ≡ outgoing p
  unfolding pick
  pick-outgoing idle (x ∷ xs) p e h = rw (e, h) refl
  pick-outgoing idle [] p e h = refl
  pick-outgoing (sending y) xs p e h = refl
  pick-outgoing (stopped y) xs p e h = refl

  write-outgoing :
      (ok : Bool) (s : Sender) (p : Pipe W)
      → p.sender ≡ s
      → outgoing (write conn_close ok s p) ≡ outgoing p
  unfolding write
  write-outgoing true (sending x) p e = rw e (append_assoc p.wire (x ∷ []) p.link.send_ch)
  write-outgoing false (sending x) p e = close-outgoing _ ∙ rw e refl
  write-outgoing true idle p e = refl
  write-outgoing false idle p e = refl
  write-outgoing true (stopped x) p e = refl
  write-outgoing false (stopped x) p e = refl

  stop_sender-outgoing :
      (s : Sender) (p : Pipe W) → p.sender ≡ s → outgoing (stop_sender conn_close s p) ≡ outgoing p
  unfolding stop_sender
  stop_sender-outgoing idle p e =
      if-outgoing p.link.cancelled _ _ p
        (close-outgoing (record p { sender = stopped none }) ∙ rw e refl) refl
  stop_sender-outgoing (sending x) p e = refl
  stop_sender-outgoing (stopped x) p e = refl

  leave-outgoing : (x : Option Text) (p : Pipe W) → outgoing (leave conn_close x p) ≡ outgoing p
  unfolding leave
  leave-outgoing x p = close-outgoing (record p { receiver = left x; receive_closed = true })

  read_round-outgoing :
      (r : Read) (s : Receiver) (p : Pipe W) → outgoing (read_round conn_close r s p) ≡ outgoing p
  unfolding read_round
  read_round-outgoing (got x) reading p =
      if-outgoing p.link.cancelled _ _ p (leave-outgoing none p) refl
  read_round-outgoing read_timed_out reading p =
      if-outgoing p.link.cancelled _ _ p (leave-outgoing none p) refl
  read_round-outgoing read_failed reading p = leave-outgoing none p
  read_round-outgoing (got x) (offering y) p = refl
  read_round-outgoing read_timed_out (offering y) p = refl
  read_round-outgoing read_failed (offering y) p = refl
  read_round-outgoing (got x) (left y) p = refl
  read_round-outgoing read_timed_out (left y) p = refl
  read_round-outgoing read_failed (left y) p = refl

  offer-outgoing : (s : Receiver) (p : Pipe W) → outgoing (offer conn_close s p) ≡ outgoing p
  unfolding offer
  offer-outgoing (offering x) p =
      if-outgoing (ltb_ℤ (pos (length p.receive_ch)) p.link.receive_capacity) _ _ p refl refl
  offer-outgoing reading p = refl
  offer-outgoing (left x) p = refl

  stop_receiver-outgoing :
      (s : Receiver) (p : Pipe W) → outgoing (stop_receiver conn_close s p) ≡ outgoing p
  unfolding stop_receiver
  stop_receiver-outgoing reading p = if-outgoing p.link.cancelled _ _ p (leave-outgoing none p) refl
  stop_receiver-outgoing (offering x) p =
      if-outgoing p.link.cancelled _ _ p (leave-outgoing (some x) p) refl
  stop_receiver-outgoing (left x) p = refl

  take_received-outgoing :
      (xs : List Text) (p : Pipe W) → outgoing (take_received conn_close xs p) ≡ outgoing p
  unfolding take_received
  take_received-outgoing [] p = refl
  take_received-outgoing (x ∷ xs) p = refl

  step-outgoing :
      (e : Event) (p : Pipe W) → outgoing (step conn_close e p) ≡ outgoing p ++ entered_now e p
  unfolding step
  step-outgoing (sends x) p = send-outgoing x p
  step-outgoing (sends_late x) p = send_late-outgoing x p
  step-outgoing picks p = pick-outgoing p.sender p.link.send_ch p refl refl ∙ sym (append-nil _)
  step-outgoing (writes ok) p = write-outgoing ok p.sender p refl ∙ sym (append-nil _)
  step-outgoing sender_stops p = stop_sender-outgoing p.sender p refl ∙ sym (append-nil _)
  step-outgoing (reads r) p = read_round-outgoing r p.receiver p ∙ sym (append-nil _)
  step-outgoing offers p = offer-outgoing p.receiver p ∙ sym (append-nil _)
  step-outgoing receiver_stops p = stop_receiver-outgoing p.receiver p ∙ sym (append-nil _)
  step-outgoing takes p = take_received-outgoing p.receive_ch p ∙ sym (append-nil _)
  step-outgoing closes p = close-outgoing p ∙ sym (append-nil _)

  -- Along every interleaving of the loops of a link with the calls of its methods, what was written to
  -- the connection, then the payload the sending loop has or had in hand, then the buffer, is what it
  -- was before, followed by the payloads that entered the buffer, in their order: nothing is lost,
  -- doubled or reordered.
  pub sent_in_order :
      (es : List Event) (p : Pipe W) → outgoing (run conn_close es p) ≡ outgoing p ++ entered es p
  unfolding run entered
  sent_in_order [] p = sym (append-nil (outgoing p))
  sent_in_order (e ∷ es) p =
      sent_in_order es (step conn_close e p)
      ∙ ap (λ t. t ++ entered es (step conn_close e p)) (step-outgoing e p)
      ∙ append_assoc (outgoing p) (entered_now e p) (entered es (step conn_close e p))
