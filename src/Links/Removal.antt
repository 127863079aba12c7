-- ===== src/Links/Removal.antt =====
-- internal/link/manager.go: looking a user's link up after `NewLink`, and what `Close` leaves.
use ws_gateway.Common.{
  ℕ, ◌≡◌, refl, ap, Bool, true, false, ◌&&◌, ◌||◌, Option, none, some, List, [], ◌∷◌, ◌++◌, arith,
  if◌then◌else◌, is_some, Bool-cases, Option-cases, inl, inr, length, ◌==◌,
}
use ws_gateway.Common.Int.{ℤ, pos, eqb_ℤ_iff}
use ws_gateway.Common.Keys.{Text, ◌=?◌, =?_iff, nat_eq, text_eq, int_eq}
use ws_gateway.Common.Map.{lookup, insert, lookup-insert}
use ws_gateway.Common.SyncMap.{SyncMap, size}
use ws_gateway.Common.Format.{show_int, format_key, format_key-injective}
use ws_gateway.Links.{Link, close}
use ws_gateway.Links.Manager.{
  Manager, UserInfo, generate_link_id, new_link, find_link_by_user_info, remove_link, close_entry,
  close_loop, close_all,
}
use ws_gateway.Links.Counting.{Exceeds}

-- Two users have the same link id only if they are the same user of the same business.
same_user :
    (u v : UserInfo)
    → generate_link_id u ≡ generate_link_id v
    → (u.biz_id ≡ v.biz_id) × (u.user_id ≡ v.user_id)
unfolding generate_link_id format_key
same_user u v e =
    let (b, i) =
      format_key-injective u.biz_id v.biz_id (show_int u.user_id) (show_int v.user_id) e in
    (b, (format_key-injective u.user_id v.user_id [] [] (ap (λ t. t ++ 45 ∷ []) i)).0)

same_id :
    (u v : UserInfo)
    → u.biz_id ≡ v.biz_id
    → u.user_id ≡ v.user_id
    → generate_link_id u ≡ generate_link_id v
unfolding generate_link_id
same_id u v b i = cc (b, i)

lookup_empty : (id : Text) (es : List (Text × ℕ)) → length es ≡ 0 → lookup id es ≡ none
unfolding lookup
lookup_empty id [] h = refl
lookup_empty id (e ∷ es) h = ground arith

abbrev pub is_same_user : UserInfo → UserInfo → Bool
is_same_user u v = (u.biz_id =? v.biz_id) && (u.user_id =? v.user_id)

module _ {W : Type 0} (conn_close : Text → W → Bool × W) (S : SyncMap Text ℕ) where
  -- After `NewLink` for user `u`, looking up a user gives the new link if it is the same user of the
  -- same business, and what it gave before otherwise.
  pub find-new_link :
      (u v : UserInfo) (compression : Option Bool) (now : ℤ) (m : Manager conn_close S)
      → find_link_by_user_info conn_close S v (new_link conn_close S u compression now m)
        ≡ (if is_same_user u v then some m.next else find_link_by_user_info conn_close S v m)
  unfolding find_link_by_user_info new_link
  find-new_link u v compression now m = ground (
    arith,
    S.load-store (generate_link_id u) (generate_link_id v) m.next m.links,
    =?_iff (generate_link_id u) (generate_link_id v),
    =?_iff u.biz_id v.biz_id,
    =?_iff u.user_id v.user_id,
    same_user u v,
    same_id u v,
  )

  remove_link-load :
      (id j : Text) (m : Manager conn_close S)
      → S.load j (remove_link conn_close S id m).1.links
        ≡ (if id =? j then none else S.load j m.links)
  unfolding remove_link
  remove_link-load id j m = ground (arith, S.load-remove id j m.links, =?_iff id j)

  remove_link-heap :
      (id : Text) (m : Manager conn_close S) → (remove_link conn_close S id m).1.heap ≡ m.heap
  unfolding remove_link
  remove_link-heap id m = ground arith

  close_entry-load :
      (id j : Text) (i : ℕ) (m : Manager conn_close S)
      → S.load j (close_entry conn_close S (id, i) m).links
        ≡ (if id =? j then none else S.load j m.links)
  unfolding close_entry
  close_entry-load id j i m = elim (Option-cases (lookup i m.heap)) [
    | inl e ↦ rw (e, close_entry) (remove_link-load id j m)
    | inr r ↦ rw (r.1, close_entry) (remove_link-load id j _)
  ]

  -- The link at a reference exists, and its connection was closed.
  abbrev pub is_closed : Option Link → Bool
  is_closed none = false
  is_closed (some l) = is_some l.close_err

  close-closes : (l : Link) (w : W) → is_some (close conn_close l w).1.close_err ≡ true
  unfolding close
  close-closes l w = ground arith

  close_entry-heap :
      (id : Text) (i j : ℕ) (m : Manager conn_close S)
      → is_closed (lookup j (close_entry conn_close S (id, i) m).heap)
        ≡ (is_closed (lookup j m.heap) || ((i == j) && is_some (lookup i m.heap)))
  unfolding close_entry
  close_entry-heap id i j m = elim (Option-cases (lookup i m.heap)) [
    | inl e ↦ rw (e, close_entry) (ground (arith, remove_link-heap id m))
    | inr r ↦
        rw (r.1, close_entry)
          (ground (
            arith,
            close-closes r.0 m.world,
            =?_iff i j,
            remove_link-heap id (record m {
              heap = insert i (close conn_close r.0 m.world).1 m.heap;
              world = (close conn_close r.0 m.world).2;
            }),
            lookup-insert i j (close conn_close r.0 m.world).1 m.heap,
          ))
  ]

  close_entry-present :
      (id : Text) (i j : ℕ) (m : Manager conn_close S)
      → is_some (lookup j (close_entry conn_close S (id, i) m).heap) ≡ is_some (lookup j m.heap)
  unfolding close_entry
  close_entry-present id i j m = elim (Option-cases (lookup i m.heap)) [
    | inl e ↦ rw (e, close_entry) (ground (arith, remove_link-heap id m))
    | inr r ↦
        rw (r.1, close_entry)
          (ground (
            arith,
            =?_iff i j,
            remove_link-heap id (record m {
              heap = insert i (close conn_close r.0 m.world).1 m.heap;
              world = (close conn_close r.0 m.world).2;
            }),
            lookup-insert i j (close conn_close r.0 m.world).1 m.heap,
          ))
  ]

  close_loop-load :
      (es : List (Text × ℕ)) (j : Text) (m : Manager conn_close S)
      → S.load j (close_loop conn_close S es m).links
        ≡ (if is_some (lookup j es) then none else S.load j m.links)
  unfolding close_loop lookup
  close_loop-load [] j m = refl
  close_loop-load ((id, i) ∷ es) j m =
      ground (
        arith,
        close_loop-load es j (close_entry conn_close S (id, i) m),
        close_entry-load id j i m,
      )

  close_loop-closed :
      (es : List (Text × ℕ)) (j : ℕ) (m : Manager conn_close S)
      → is_closed (lookup j m.heap) ≡ true
      → is_closed (lookup j (close_loop conn_close S es m).heap) ≡ true
  unfolding close_loop
  close_loop-closed [] j m h = h
  close_loop-closed ((id, i) ∷ es) j m h =
      close_loop-closed es j (close_entry conn_close S (id, i) m)
        (ground (arith, close_entry-heap id i j m))

  close_loop-closes :
      (es : List (Text × ℕ)) (id : Text) (j : ℕ) (m : Manager conn_close S)
      → lookup id es ≡ some j
      → is_some (lookup j m.heap) ≡ true
      → is_closed (lookup j (close_loop conn_close S es m).heap) ≡ true
  unfolding close_loop lookup
  close_loop-closes [] id j m e h = ground arith
  close_loop-closes ((id', i) ∷ es) id j m e h = elim (Bool-cases (id' =? id)) [
    | inl u ↦
        close_loop-closed es j (close_entry conn_close S (id', i) m)
          (ground (arith, close_entry-heap id' i j m))
    | inr u ↦
        close_loop-closes es id j (close_entry conn_close S (id', i) m) (ground arith)
          (ground (arith, close_entry-present id' i j m))
  ]

  pub no_entry :
      (d : ℕ) (id : Text) (m : Manager conn_close S)
      → Exceeds conn_close S d m
      → m.len ≡ pos 0
      → S.load id m.links ≡ none
  no_entry d id m h z =
      let none_left : size S m.links ≡ 0 = ground arith in
      ground (arith, S.lookup-range id m.links, lookup_empty id (S.range m.links) none_left)

  pub close_all-load :
      (d : ℕ) (m : Manager conn_close S) (j : Text)
      → Exceeds conn_close S d m
      → S.load j (close_all conn_close S m).links ≡ none
  unfolding close_all
  close_all-load d m j h = ground (
    arith,
    eqb_ℤ_iff m.len (pos 0),
    no_entry d j m h,
    close_loop-load (S.range m.links) j m,
    S.lookup-range j m.links,
  )

  -- On a manager whose counter is at least its number of links, `Close` leaves no link in the map;
  -- and the link that a user had in the map has its connection closed.
  pub close_all_lem :
      (d : ℕ) (m : Manager conn_close S) (id : Text) (i : ℕ)
      → Exceeds conn_close S d m
      → S.load id m.links ≡ some i
      → is_some (lookup i m.heap) ≡ true
      → ((j : Text) → S.load j (close_all conn_close S m).links ≡ none)
        × (is_closed (lookup i (close_all conn_close S m).heap) ≡ true)
  unfolding close_all
  close_all_lem d m id i h e p = (
    λ j. close_all-load d m j h,
    ground (
      arith,
      eqb_ℤ_iff m.len (pos 0),
      no_entry d id m h,
      S.lookup-range id m.links,
      close_loop-closes (S.range m.links) id i m,
    ),
  )
