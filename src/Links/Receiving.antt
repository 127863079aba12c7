-- ===== src/Links/Receiving.antt =====
-- internal/link/link.go: the order of the payloads that `receiveLoop` moves to the reader of `Receive`.
use ws_gateway.Common.{
  ◌≡◌, refl, ap, sym, ◌∙◌, inl, inr, Bool, true, false, Option, none, some, List, [], ◌∷◌, ◌++◌,
  if◌then◌else◌, Bool-cases, either, length, ◌&&◌,
}
use mathlib.Core.List.{append_assoc, append-nil}
use ws_gateway.Common.Int.{pos, ltb_ℤ}
use ws_gateway.Common.Keys.{Text}
use ws_gateway.Errors.{Error}
use ws_gateway.Links.{Link, send}
use ws_gateway.Links.Loops.{
  Sender, idle, sending, stopped, Receiver, reading, offering, left, Read, got, read_timed_out,
  read_failed, Pipe, Event, sends, sends_late, send_late, picks, sender_stops, offers,
  receiver_stops, takes, closes, writes, reads, close_pipe, send_step, pick, write, stop_sender,
  leave, read_round, offer, stop_receiver, take_received, step, run,
}
use ws_gateway.Links.Ordering.{payloads}

-- The payload that the receiving loop has in hand, or had.
abbrev pub offered : Receiver → List Text
offered reading = []
offered (offering x) = x ∷ []
offered (left x) = payloads x

-- What the reader took, what waits in the channel, and what the loop has in hand.
abbrev pub incoming : {W : Type 0} → Pipe W → List Text
incoming p = p.taken ++ (p.receive_ch ++ offered p.receiver)

-- The payload of a round that read one: the loop reads only on a link that is not closed.
abbrev pub read_by : Read → Receiver → Bool → List Text
read_by (got x) reading false = x ∷ []
read_by _ _ _ = []

module _ {W : Type 0} (conn_close : Text → W → Bool × W) where
  abbrev read_now : Event → Pipe W → List Text
  read_now (reads r) p = read_by r p.receiver p.link.cancelled
  read_now _ p = []

  -- The payloads read from the connection along a run, in order.
  unfoldable pub arrived : List Event → Pipe W → List Text
  arrived [] p = []
  arrived (e ∷ es) p = read_now e p ++ arrived es (step conn_close e p)

  if-incoming :
      (b : Bool) (t u p : Pipe W)
      → incoming t ≡ incoming p
      → incoming u ≡ incoming p
      → incoming (if b then t else u) ≡ incoming p
  if-incoming b t u p e h = either (λ (q : Pipe W). incoming q ≡ incoming p) b e h

  close-incoming : (p : Pipe W) → incoming (close_pipe conn_close p) ≡ incoming p
  unfolding close_pipe
  close-incoming p = refl

  leave-incoming :
      (x : Option Text) (p : Pipe W)
      → payloads x ≡ offered p.receiver
      → incoming (leave conn_close x p) ≡ incoming p
  unfolding leave
  leave-incoming x p e =
      close-incoming (record p { receiver = left x; receive_closed = true }) ∙ rw e refl

  send-incoming :
      (x : Text) (o : Option (Option Error × Link)) (p : Pipe W)
      → incoming (send_step conn_close x o p) ≡ incoming p
  unfolding send_step
  send-incoming x none p = refl
  send-incoming x (some (e, l)) p = refl

  send_late-incoming : (x : Text) (p : Pipe W) → incoming (send_late conn_close x p) ≡ incoming p
  unfolding send_late
  send_late-incoming x p =
      if-incoming (p.link.cancelled && ltb_ℤ (pos (length p.link.send_ch)) p.link.send_capacity) _ _
        p refl refl

  pick-incoming :
      (s : Sender) (xs : List Text) (p : Pipe W) → incoming (pick conn_close s xs p) ≡ incoming p
  unfolding pick
  pick-incoming idle (x ∷ xs) p = refl
  pick-incoming idle [] p = refl
  pick-incoming (sending y) xs p = refl
  pick-incoming (stopped y) xs p = refl

  write-incoming :
      (ok : Bool) (s : Sender) (p : Pipe W) → incoming (write conn_close ok s p) ≡ incoming p
  unfolding write
  write-incoming true (sending x) p = refl
  write-incoming false (sending x) p = close-incoming (record p { sender = stopped (some x) })
  write-incoming true idle p = refl
  write-incoming false idle p = refl
  write-incoming true (stopped x) p = refl
  write-incoming false (stopped x) p = refl

  stop_sender-incoming :
      (s : Sender) (p : Pipe W) → incoming (stop_sender conn_close s p) ≡ incoming p
  unfolding stop_sender
  stop_sender-incoming idle p =
      if-incoming p.link.cancelled _ _ p (close-incoming (record p { sender = stopped none })) refl
  stop_sender-incoming (sending x) p = refl
  stop_sender-incoming (stopped x) p = refl

  reading-incoming :
      (x : Text) (p : Pipe W)
      → p.receiver ≡ reading
      → p.taken ++ (p.receive_ch ++ x ∷ []) ≡ incoming p ++ x ∷ []
  reading-incoming x p e =
      rw (e, append-nil p.receive_ch, append_assoc p.taken p.receive_ch (x ∷ [])) refl

  read_round-incoming :
      (r : Read) (s : Receiver) (p : Pipe W)
      → p.receiver ≡ s
      → incoming (read_round conn_close r s p) ≡ incoming p ++ read_by r s p.link.cancelled
  unfolding read_round leave close_pipe
  read_round-incoming (got x) reading p e = elim (Bool-cases p.link.cancelled) [
    | inl t ↦ rw (t) (leave-incoming none p (rw e refl) ∙ sym (append-nil (incoming p)))
    | inr t ↦ rw (t) (reading-incoming x p e)
  ]
  read_round-incoming read_timed_out reading p e =
      if-incoming p.link.cancelled _ _ p (leave-incoming none p (rw e refl)) refl
      ∙ sym (append-nil (incoming p))
  read_round-incoming read_failed reading p e =
      leave-incoming none p (rw e refl) ∙ sym (append-nil (incoming p))
  read_round-incoming (got x) (offering y) p e = sym (append-nil (incoming p))
  read_round-incoming read_timed_out (offering y) p e = sym (append-nil (incoming p))
  read_round-incoming read_failed (offering y) p e = sym (append-nil (incoming p))
  read_round-incoming (got x) (left y) p e = sym (append-nil (incoming p))
  read_round-incoming read_timed_out (left y) p e = sym (append-nil (incoming p))
  read_round-incoming read_failed (left y) p e = sym (append-nil (incoming p))

  offer-incoming :
      (s : Receiver) (p : Pipe W) → p.receiver ≡ s → incoming (offer conn_close s p) ≡ incoming p
  unfolding offer
  offer-incoming (offering x) p e =
      if-incoming (ltb_ℤ (pos (length p.receive_ch)) p.link.receive_capacity) _ _ p
        (rw (e, append-nil (p.receive_ch ++ x ∷ [])) refl) refl
  offer-incoming reading p e = refl
  offer-incoming (left x) p e = refl

  stop_receiver-incoming :
      (s : Receiver) (p : Pipe W)
      → p.receiver ≡ s
      → incoming (stop_receiver conn_close s p) ≡ incoming p
  unfolding stop_receiver
  stop_receiver-incoming reading p e =
      if-incoming p.link.cancelled _ _ p (leave-incoming none p (rw e refl)) refl
  stop_receiver-incoming (offering x) p e =
      if-incoming p.link.cancelled _ _ p (leave-incoming (some x) p (rw e refl)) refl
  stop_receiver-incoming (left x) p e = refl

  take_received-incoming :
      (xs : List Text) (p : Pipe W)
      → p.receive_ch ≡ xs
      → incoming (take_received conn_close xs p) ≡ incoming p
  unfolding take_received
  take_received-incoming [] p e = refl
  take_received-incoming (x ∷ xs) p e =
      rw e (append_assoc p.taken (x ∷ []) (xs ++ offered p.receiver))

  step-incoming :
      (e : Event) (p : Pipe W) → incoming (step conn_close e p) ≡ incoming p ++ read_now e p
  unfolding step
  step-incoming (sends x) p = send-incoming x (send x p.link) p ∙ sym (append-nil _)
  step-incoming (sends_late x) p = send_late-incoming x p ∙ sym (append-nil _)
  step-incoming picks p = pick-incoming p.sender p.link.send_ch p ∙ sym (append-nil _)
  step-incoming (writes ok) p = write-incoming ok p.sender p ∙ sym (append-nil _)
  step-incoming sender_stops p = stop_sender-incoming p.sender p ∙ sym (append-nil _)
  step-incoming (reads r) p = read_round-incoming r p.receiver p refl
  step-incoming offers p = offer-incoming p.receiver p refl ∙ sym (append-nil _)
  step-incoming receiver_stops p = stop_receiver-incoming p.receiver p refl ∙ sym (append-nil _)
  step-incoming takes p = take_received-incoming p.receive_ch p refl ∙ sym (append-nil _)
  step-incoming closes p = close-incoming p ∙ sym (append-nil _)

  -- Along every interleaving of the loops of a link with the calls of its methods, what the reader of
  -- `Receive` took, then the channel, then the payload the receiving loop has or had in hand, is what
  -- it was before, followed by the payloads read from the connection, in their order.
  pub received_in_order :
      (es : List Event) (p : Pipe W) → incoming (run conn_close es p) ≡ incoming p ++ arrived es p
  unfolding run arrived
  received_in_order [] p = sym (append-nil (incoming p))
  received_in_order (e ∷ es) p =
      received_in_order es (step conn_close e p)
      ∙ ap (λ t. t ++ arrived es (step conn_close e p)) (step-incoming e p)
      ∙ append_assoc (incoming p) (read_now e p) (arrived es (step conn_close e p))
