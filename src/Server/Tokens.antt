-- ===== src/Server/Tokens.antt =====
-- internal/websocket_server.go: the tokens of the limiter that connections hold.
use ws_gateway.Common.{
  ℕ, zero, suc, ◌+◌, ◌≤◌, ◌<◌, ◌≡◌, refl, ap, sym, subst, ◌∙◌, inl, inr, Bool, Option, none, some,
  arith, if◌then◌else◌, Bool-cases, length,
}
use ws_gateway.Common.Int.{ℤ}
use ws_gateway.Common.Keys.{Text, nat_eq, text_eq, =?_iff}
use ws_gateway.Common.Map.{
  lookup, insert, IsMap, lookup-insert, lookup-delete, insert-IsMap, delete-IsMap,
  length-insert_present, length-delete,
}
use ws_gateway.Common.SyncMap.{SyncMap}
use ws_gateway.Errors.{Error, is_error, link_closed}
use ws_gateway.Links.Manager.{UserInfo}
use ws_gateway.Limiter
use ws_gateway.Limiter.{System, acquire, release}
use ws_gateway.Limiter.Capacity
use ws_gateway.Server.{
  Collaborators, Acceptor, in_accept, Stage, serving, take_token, give_back, Server, drop_conn,
  upgraded, with_shared, connected, finish, received,
}

-- The token of `acceptConn`.
abbrev pub holding : Acceptor → ℕ
holding in_accept = 1
holding _ = 0

release_lem : (s : System) → 0 < s.held → Limiter.step Limiter.releases s ≡ give_back s
unfolding give_back Limiter.step
release_lem s u = ground arith

pub give_back-IsAccounted :
    (s : System) → Capacity.IsAccounted s → 0 < s.held → Capacity.IsAccounted (give_back s)
give_back-IsAccounted s h u =
    subst Capacity.IsAccounted (release_lem s u) (Capacity.step-IsAccounted Limiter.releases s h)

pub give_back-held : (s : System) → 0 < s.held → (give_back s).held + 1 ≡ s.held
unfolding give_back
give_back-held s u = omega arith

acquire_lem : (s : System) → Limiter.step Limiter.acquires s ≡ (take_token s).1
unfolding take_token Limiter.step
acquire_lem s = refl

pub take_token-IsAccounted :
    (s : System) → Capacity.IsAccounted s → Capacity.IsAccounted (take_token s).1
take_token-IsAccounted s h =
    subst Capacity.IsAccounted (acquire_lem s) (Capacity.step-IsAccounted Limiter.acquires s h)

pub take_token-held :
    (s : System) → (take_token s).1.held ≡ (if (take_token s).0 then s.held + 1 else s.held)
unfolding take_token
take_token-held s = refl

-- Steps of the ramp-up goroutine and of `Close` hold no token.
ramp-held : (r : Limiter.Ramp) (s : System) → (Limiter.ramp_on r s).held ≡ s.held
unfolding Limiter.ramp_on Limiter.put
ramp-held Limiter.waiting s = refl
ramp-held Limiter.returned s = refl
ramp-held (Limiter.adding zero t) s = refl
ramp-held (Limiter.adding (suc n) t) s = ground arith

pub quiet-held :
    (s : System)
    → ((Limiter.step Limiter.ticks s).held ≡ s.held)
      × ((Limiter.step Limiter.ramps s).held ≡ s.held)
      × ((Limiter.step Limiter.cancels s).held ≡ s.held)
      × ((Limiter.step Limiter.closes s).held ≡ s.held)
unfolding Limiter.step
quiet-held s = (refl, ramp-held s.ramp s, refl, refl)

module _ {W : Type 0} (C : Collaborators W) (S : SyncMap Text ℕ) where
  -- Every token that is out is in the hands of `acceptConn` or of one connection.
  pub record IsBalanced (s : Server C S) : Type 0 where
    pub accounted : Capacity.IsAccounted s.system
    pub held : s.system.held ≡ length s.conns + holding s.acceptor
    pub distinct : IsMap s.conns
    pub fresh : (k : ℕ) → s.next_conn ≤ k → lookup k s.conns ≡ none

  drop_conn-IsBalanced :
      (i : ℕ) (st : Stage) (s : Server C S)
      → lookup i s.conns ≡ some st
      → IsBalanced s
      → IsBalanced (drop_conn C S i s)
  unfolding drop_conn
  drop_conn-IsBalanced i st s e h =
      let less = length-delete i s.conns h.distinct e in
      let some_held : 0 < s.system.held = omega (arith, less, h.held) in
      record {
        accounted = give_back-IsAccounted s.system h.accounted some_held;
        held = omega (arith, less, h.held, give_back-held s.system some_held);
        distinct = delete-IsMap i s.conns h.distinct;
        fresh = λ k le. ground (arith, lookup-delete i k s.conns, h.fresh k le);
      }

  -- A connection goes to its next stage.
  insert-IsBalanced :
      (i : ℕ) (st st' : Stage) (s t : Server C S)
      → lookup i s.conns ≡ some st
      → IsBalanced s
      → t.system ≡ s.system
      → t.acceptor ≡ s.acceptor
      → t.next_conn ≡ s.next_conn
      → t.conns ≡ insert i st' s.conns
      → IsBalanced t
  insert-IsBalanced i st st' s t e h es ea en ec = record {
    accounted = rw es h.accounted;
    held =
        rw (es, ea, ec)
          (h.held ∙ ap (λ n. n + holding s.acceptor) (sym (length-insert_present i st' s.conns e)));
    distinct = rw ec (insert-IsMap i st' s.conns h.distinct);
    fresh = λ k le.
        rw ec (ground (arith, lookup-insert i k st' s.conns, h.fresh k, =?_iff i k, h.fresh i));
  }

  pub connected-IsBalanced :
      (i r : ℕ) (id : Text) (st : Stage) (e : Option Error) (s : Server C S)
      → lookup i s.conns ≡ some st
      → IsBalanced s
      → IsBalanced (connected C S i id r e s)
  unfolding connected
  connected-IsBalanced i r id st none s e h =
      insert-IsBalanced i st (serving id r) s _ e h refl refl refl refl
  connected-IsBalanced i r id st (some x) s e h =
      drop_conn-IsBalanced i st _ e
        (record { accounted = h.accounted; held = h.held; distinct = h.distinct; fresh = h.fresh })

  pub upgraded-IsBalanced :
      (i : ℕ) (now : ℤ) (st : Stage) (u : Option (UserInfo × Option Bool)) (s : Server C S)
      → lookup i s.conns ≡ some st
      → IsBalanced s
      → IsBalanced (upgraded C S i now u s)
  unfolding upgraded
  upgraded-IsBalanced i now st none s e h = drop_conn-IsBalanced i st s e h
  upgraded-IsBalanced i now st (some u) s e h = insert-IsBalanced i st _ s _ e h refl refl refl refl

  pub finish-IsBalanced :
      (i r : ℕ) (id : Text) (st : Stage) (s : Server C S)
      → lookup i s.conns ≡ some st
      → IsBalanced s
      → IsBalanced (finish C S i id r s)
  unfolding finish with_shared
  finish-IsBalanced i r id st s e h =
      drop_conn-IsBalanced i st _ e
        (record { accounted = h.accounted; held = h.held; distinct = h.distinct; fresh = h.fresh })

  pub received-IsBalanced :
      (i r : ℕ) (id : Text) (st : Stage) (e : Option Error) (s : Server C S)
      → lookup i s.conns ≡ some st
      → IsBalanced s
      → IsBalanced (received C S i id r e s)
  unfolding received
  received-IsBalanced i r id st none s e h = h
  received-IsBalanced i r id st (some x) s e h = elim (Bool-cases (is_error link_closed x)) [
    | inl so ↦ rw so (finish-IsBalanced i r id st s e h)
    | inr bar ↦ rw bar h
  ]
