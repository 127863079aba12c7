-- ===== src/Links/Uncounted.antt =====
-- internal/link/manager.go: a link between its storing and its counting in `NewLink`.
use ws_gateway.Common.{ℕ, ◌≡◌, refl, Bool, Option, some, List, ◌∷◌, arith, true}
use ws_gateway.Common.Int.{ℤ, pos, ◌+ℤ◌, eqb_ℤ}
use ws_gateway.Common.Keys.{Text, nat_eq, text_eq, =?_refl}
use ws_gateway.Common.Map.{lookup, lookup-insert}
use ws_gateway.Common.SyncMap.{SyncMap}
use ws_gateway.Links.{new}
use ws_gateway.Links.Manager.{
  Manager, Wake, Call, UserInfo, ticks, store_link, count_link, close_wait, close_all,
  graceful_close, find_link_by_user_info, generate_link_id, convert_to_link_options,
}

module _ {W : Type 0} (conn_close : Text → W → Bool × W) (S : SyncMap Text ℕ) where
  -- When the counter is 0 and `NewLink` has stored its link but not yet counted it, `Close` does
  -- nothing, a call of `GracefulClose` returns at once, and one that is waiting returns at its next
  -- tick; yet the map has the new link, which none of them closed, and which is counted afterwards.
  pub uncounted_lem :
      (u : UserInfo) (compression : Option Bool) (now : ℤ) (m : Manager conn_close S)
      (payload : Option Text) (ws : List (Wake Call))
      → m.len ≡ pos 0
      → let m' = store_link conn_close S u compression now m in
        (close_all conn_close S m' ≡ m')
        × (graceful_close conn_close S payload ws m' ≡ some m')
        × (close_wait conn_close S (ticks ∷ ws) m' ≡ some m')
        × (find_link_by_user_info conn_close S u m' ≡ some m.next)
        × (lookup m.next m'.heap
            ≡ some (new (generate_link_id u) now (convert_to_link_options m.config u compression)))
        × ((count_link conn_close S m').len ≡ pos 1)
  unfolding store_link count_link close_all graceful_close close_wait find_link_by_user_info ◌+ℤ◌
  uncounted_lem u compression now m payload ws e =
      let zero_ : eqb_ℤ m.len (pos 0) ≡ true = rw e refl in
      (
        rw zero_ refl,
        rw zero_ refl,
        rw zero_ refl,
        ground (
          arith,
          S.load-store (generate_link_id u) (generate_link_id u) m.next m.links,
          =?_refl (generate_link_id u),
        ),
        ground (
          arith,
          lookup-insert m.next m.next
              (new (generate_link_id u) now (convert_to_link_options m.config u compression))
              m.heap,
          =?_refl m.next,
        ),
        rw e refl,
      )
