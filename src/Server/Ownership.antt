-- ===== src/Server/Ownership.antt =====
-- internal/websocket_server.go: which links the manager has, and which connections are handled.
use ws_gateway.Common.{
  ℕ, ◌≡◌, ◌≢◌, refl, ap, sym, ◌∙◌, inl, inr, Option, none, some, List, [], ◌∷◌, arith,
  if◌then◌else◌, Bool-cases, Option-cases,
}
use ws_gateway.Common.Int.{ℤ}
use ws_gateway.Common.Keys.{Text, ◌=?◌, nat_eq, text_eq, =?_iff, =?_refl}
use ws_gateway.Common.Map.{lookup, insert, delete, lookup-insert, lookup-delete}
use ws_gateway.Common.SyncMap.{SyncMap}
use ws_gateway.Links.{try_close_if_idle}
use ws_gateway.Links.Manager.{
  UserInfo, Manager, generate_link_id, remove_link, find_link_by_user_info, clean_entry, clean_loop,
}
use ws_gateway.Server.{
  Collaborators, Stage, upgrading, connecting, serving, ends, Server, drop_conn, drop_link,
  with_shared, finish, end_step, step,
}

-- The id and the reference of the link that a connection has.
abbrev pub owner : Stage → Option (Text × ℕ)
owner upgrading = none
owner (connecting id r) = some (id, r)
owner (serving id r) = some (id, r)

-- The connection whose link this is, is handled.
abbrev pub Owned : Text × ℕ → List (ℕ × Stage) → Type 0
Owned l conns = (k : ℕ) × (st : Stage) × (lookup k conns ≡ some st) × (owner st ≡ some l)

-- Another connection leaves, comes, or goes on.
pub Owned-delete :
    (i : ℕ) (id : Text × ℕ) (st : Stage) (conns : List (ℕ × Stage))
    → lookup i conns ≡ some st
    → owner st ≢ some id
    → Owned id conns
    → Owned id (delete i conns)
Owned-delete i id st conns e other (k, t, f, o) =
    (k, t, ground (arith, lookup-delete i k conns, =?_iff i k, other), o)

pub Owned-insert :
    (i : ℕ) (id : Text × ℕ) (old : Option Stage) (st : Stage) (conns : List (ℕ × Stage))
    → lookup i conns ≡ old
    → ((t : Stage) → old ≡ some t → owner t ≡ some id → owner st ≡ some id)
    → Owned id conns
    → Owned id (insert i st conns)
Owned-insert i id old st conns e keep (k, t, f, o) = elim (Bool-cases (i =? k)) [
  | inl same ↦ (
    k,
    st,
    rw (lookup-insert i k st conns) (rw same),
    keep t (sym e ∙ (ap (λ n. lookup n conns) ((=?_iff i k).0 same) ∙ f)) o,
  )
  | inr apart ↦ (k, t, rw (lookup-insert i k st conns) (rw apart f), o)
]

module _ {W : Type 0} (C : Collaborators W) (S : SyncMap Text ℕ) where
  remove_link-load :
      (id j : Text) (m : Manager C.conn_close S)
      → S.load j (remove_link C.conn_close S id m).1.links
        ≡ (if id =? j then none else S.load j m.links)
  unfolding remove_link
  remove_link-load id j m = ground (arith, S.load-remove id j m.links, =?_iff id j)

  pub drop_link-load :
      (id j : Text) (r : ℕ) (m : Manager C.conn_close S)
      → S.load j (drop_link C S id r m).links ≡ (if id =? j then none else S.load j m.links)
  unfolding drop_link
  drop_link-load id j r m = ground (arith, remove_link-load id j m)

  clean_entry-load :
      (now timeout : ℤ) (id j : Text) (i : ℕ) (r : Manager C.conn_close S × ℕ) (l : ℕ)
      → S.load j (clean_entry C.conn_close S now timeout (id, i) r).0.links ≡ some l
      → S.load j r.0.links ≡ some l
  unfolding clean_entry
  clean_entry-load now timeout id j i r l e = elim (Option-cases (lookup i r.0.heap)) [
    | inl gone ↦ rw (gone, clean_entry) at e
    | inr (x, here) ↦
        let a = try_close_if_idle C.conn_close now timeout x r.0.world in
        let e' = rw (here, clean_entry) at e in
        ground (
          arith,
          e',
          remove_link-load id j (record (r.0) { heap = insert i a.1 r.0.heap; world = a.2 }),
        )
  ]

  pub clean_loop-load :
      (now timeout : ℤ) (j : Text) (es : List (Text × ℕ)) (r : Manager C.conn_close S × ℕ) (l : ℕ)
      → S.load j (clean_loop C.conn_close S now timeout es r).0.links ≡ some l
      → S.load j r.0.links ≡ some l
  unfolding clean_loop
  clean_loop-load now timeout j [] r l e = e
  clean_loop-load now timeout j ((id, i) ∷ es) r l e =
      clean_entry-load now timeout id j i r l
        (clean_loop-load now timeout j es (clean_entry C.conn_close S now timeout (id, i) r) l e)

  pub finish-load :
      (i r : ℕ) (id j : Text) (s : Server C S)
      → S.load j (finish C S i id r s).link_manager.links
        ≡ (if id =? j then none else S.load j s.link_manager.links)
  unfolding finish with_shared drop_conn
  finish-load i r id j s = drop_link-load id j r _

  pub finish-conns :
      (i r : ℕ) (id : Text) (s : Server C S) → (finish C S i id r s).conns ≡ delete i s.conns
  unfolding finish with_shared drop_conn
  finish-conns i r id s = refl

  -- Every link that the manager has is the link of a connection that is handled.
  abbrev pub IsOwned : Server C S → Type 0
  IsOwned s = (id : Text) (r : ℕ) → S.load id s.link_manager.links ≡ some r → Owned (id, r) s.conns

  -- A connection that ends removes the link of a newer connection of the same user from the manager.
  pub reconnected_lost :
      (i j r r' : ℕ) (u : UserInfo) (s : Server C S)
      → lookup i s.conns ≡ some (serving (generate_link_id u) r)
      → lookup j s.conns ≡ some (serving (generate_link_id u) r')
      → i ≢ j
      → find_link_by_user_info C.conn_close S u s.link_manager ≡ some r'
      → let t : Server C S = step C S (ends i) s in
        (lookup j t.conns ≡ some (serving (generate_link_id u) r'))
        × (find_link_by_user_info C.conn_close S u t.link_manager ≡ none)
  unfolding step end_step find_link_by_user_info
  reconnected_lost i j r r' u s e f apart found = rw e (
    ground (arith, finish-conns i r (generate_link_id u) s, lookup-delete i j s.conns, =?_iff i j),
    finish-load i r (generate_link_id u) (generate_link_id u) s ∙ rw (=?_refl (generate_link_id u)),
  )
