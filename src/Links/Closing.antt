-- ===== src/Links/Closing.antt =====
-- internal/link/manager.go: how `GracefulClose` ends.
use ws_gateway.Common.{
  ℕ, ◌+◌, ◌≡◌, refl, subst, Bool, Option, none, some, List, [], ◌∷◌, arith, Bool-cases,
  Option-cases, inl, inr,
}
use ws_gateway.Common.Int.{pos, eqb_ℤ, eqb_ℤ_iff}
use ws_gateway.Common.Keys.{Text, nat_eq, text_eq}
use ws_gateway.Common.SyncMap.{SyncMap}
use ws_gateway.Errors.{Error}
use ws_gateway.Links.Manager.{
  Manager, Call, new_links, remove_links, clean_idle, closes, Wake, ticks, times_out, meanwhile,
  step, push, all_links, close_all, begin_graceful_close, close_wait, graceful_close,
}
use ws_gateway.Links.Counting.{Exceeds, shadows, step-Exceeds}
use ws_gateway.Links.Removal.{no_entry, close_all-load}

-- The end of the context is among the wake-ups.
abbrev pub TimesOut : {A : Type 0} → List (Wake A) → Type 0
TimesOut [] = ⊥
TimesOut (times_out ∷ ws) = Unit
TimesOut (ticks ∷ ws) = TimesOut ws
TimesOut (meanwhile c ∷ ws) = TimesOut ws

-- No link is created meanwhile.
abbrev pub NoneNew : List (Wake Call) → Type 0
NoneNew [] = Unit
NoneNew (ticks ∷ ws) = NoneNew ws
NoneNew (times_out ∷ ws) = NoneNew ws
NoneNew (meanwhile (new_links u c now) ∷ ws) = ⊥
NoneNew (meanwhile (remove_links id) ∷ ws) = NoneNew ws
NoneNew (meanwhile (clean_idle now timeout) ∷ ws) = NoneNew ws
NoneNew (meanwhile closes ∷ ws) = NoneNew ws

module _ {W : Type 0} (conn_close : Text → W → Bool × W) (S : SyncMap Text ℕ) where
  -- The wait ends, and no link is in the map.
  abbrev pub EndsEmpty : Option (Manager conn_close S) → Type 0
  EndsEmpty o = (m : Manager conn_close S) × (o ≡ some m) × ((j : Text) → S.load j m.links ≡ none)

  push-Exceeds :
      (d : ℕ) (payload : Option Text) (is : List ℕ) (m m' : Manager conn_close S) (e : Option Error)
      → Exceeds conn_close S d m
      → push conn_close S payload is m ≡ some (e, m')
      → Exceeds conn_close S d m'
  unfolding push
  push-Exceeds d none is m m' e h u = ground (arith, u, h)
  push-Exceeds d (some payload) is m m' e h u = ground (arith, u, h)

  begin-Exceeds :
      (d : ℕ) (payload : Option Text) (m m' : Manager conn_close S)
      → Exceeds conn_close S d m
      → begin_graceful_close conn_close S payload m ≡ some m'
      → Exceeds conn_close S d m'
  unfolding begin_graceful_close
  begin-Exceeds d payload m m' h u =
      elim (Option-cases (push conn_close S payload (all_links conn_close S m) m)) [
        | inl blocked ↦ absurd (ground (arith, rw (blocked, begin_graceful_close) at u))
        | inr (r, pushed) ↦
            let same : r.1 ≡ m' = ground (arith, rw (pushed, begin_graceful_close) at u) in
            subst (Exceeds conn_close S d) same
              (push-Exceeds d payload (all_links conn_close S m) m r.1 r.0 h pushed)
      ]

  close_wait-EndsEmpty :
      (ws : List (Wake Call)) (d : ℕ) (m : Manager conn_close S)
      → Exceeds conn_close S d m
      → TimesOut ws
      → EndsEmpty (close_wait conn_close S ws m)
  unfolding close_wait
  close_wait-EndsEmpty [] d m h t = absurd t
  close_wait-EndsEmpty (ticks ∷ ws) d m h t = elim (Bool-cases (eqb_ℤ m.len (pos 0))) [
    | inl empty ↦
        (m, rw empty, λ j. no_entry conn_close S d j m h ((eqb_ℤ_iff m.len (pos 0)).0 empty))
    | inr left ↦ rw left (close_wait-EndsEmpty ws d m h t)
  ]
  close_wait-EndsEmpty (times_out ∷ ws) d m h t =
      (close_all conn_close S m, refl, λ j. close_all-load conn_close S d m j h)
  close_wait-EndsEmpty (meanwhile c ∷ ws) d m h t =
      close_wait-EndsEmpty ws (d + shadows conn_close S c m) (step conn_close S c m)
        (step-Exceeds conn_close S d c m h) t

  -- On a manager whose counter is not below its number of links, once the sends of the redirecting
  -- message have not blocked, `GracefulClose` returns when its context ends, if not before, and leaves
  -- no link in the map: while no link is created, and whatever links are removed or closed meanwhile.
  pub graceful_close_lem :
      (ws : List (Wake Call)) (d : ℕ) (payload : Option Text) (m m' : Manager conn_close S)
      → Exceeds conn_close S d m
      → begin_graceful_close conn_close S payload m ≡ some m'
      → TimesOut ws
      → NoneNew ws
      → EndsEmpty (graceful_close conn_close S payload ws m)
  unfolding graceful_close
  graceful_close_lem ws d payload m m' h begun t alone = elim (Bool-cases (eqb_ℤ m.len (pos 0))) [
    | inl empty ↦
        (m, rw empty, λ j. no_entry conn_close S d j m h ((eqb_ℤ_iff m.len (pos 0)).0 empty))
    | inr left ↦
        rw (left, begun) (close_wait-EndsEmpty ws d m' (begin-Exceeds d payload m m' h begun) t)
  ]
