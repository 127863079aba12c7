-- ===== src/Links/Counting.antt =====
-- internal/link/manager.go: the counter `len` beside the map it counts.
use ws_gateway.Common.{
  ℕ, ◌+◌, ◌≡◌, ap, ◌∙◌, Bool, Option, List, [], ◌∷◌, arith, if◌then◌else◌, is_some, Option-cases,
  inl, inr,
}
use ws_gateway.Common.Int.{ℤ, pos, negsuc, ◌+ℤ◌, +ℤ-one, +ℤ-minus_one}
use ws_gateway.Common.Keys.{Text, nat_eq, text_eq}
use ws_gateway.Common.Map.{lookup, insert}
use ws_gateway.Common.SyncMap.{SyncMap, size, size-store_fresh, size-store_present, size-remove}
use ws_gateway.Links.{try_close_if_idle}
use ws_gateway.Links.Manager.{
  Manager, UserInfo, generate_link_id, new_link, remove_link, clean_entry, clean_loop,
  clean_idle_links, close_entry, close_loop, close_all, Call, new_links, remove_links, clean_idle,
  closes, step, run,
}

module _ {W : Type 0} (conn_close : Text → W → Bool × W) (S : SyncMap Text ℕ) where
  -- The counter exceeds the number of entries by `d`.
  abbrev pub Exceeds : ℕ → Manager conn_close S → Type 0
  Exceeds d m = m.len ≡ pos (size S m.links + d)

  -- One more for a `NewLink` of an identity that is in the map.
  abbrev pub shadows : Call → Manager conn_close S → ℕ
  shadows (new_links u c now) m = if is_some (S.load (generate_link_id u) m.links) then 1 else 0
  shadows c m = 0

  abbrev pub shadowed : List Call → Manager conn_close S → ℕ
  shadowed [] m = 0
  shadowed (c ∷ cs) m = shadows c m + shadowed cs (step conn_close S c m)

  remove_link-Exceeds :
      (d : ℕ) (id : Text) (m : Manager conn_close S)
      → Exceeds d m
      → Exceeds d (remove_link conn_close S id m).1
  unfolding remove_link
  remove_link-Exceeds d id m h = elim (Option-cases (S.load id m.links)) [
    | inl e ↦ rw (e, remove_link) h
    | inr r ↦
        rw (r.1, remove_link)
          (ap (λ a. a +ℤ negsuc 0) h
            ∙ (ap (λ n. pos n +ℤ negsuc 0) (omega (arith, size-remove S id m.links r.1))
                ∙ +ℤ-minus_one (size S (S.remove id m.links) + d)))
  ]

  new_link-Exceeds :
      (d : ℕ) (u : UserInfo) (c : Option Bool) (now : ℤ) (m : Manager conn_close S)
      → Exceeds d m
      → Exceeds (d + shadows (new_links u c now) m) (new_link conn_close S u c now m)
  unfolding new_link
  new_link-Exceeds d u c now m h =
      ap (λ a. a +ℤ pos 1) h
      ∙ (+ℤ-one (size S m.links + d) ∙ (elim (Option-cases (S.load (generate_link_id u) m.links)) [
        | inl e ↦ ground (arith, size-store_fresh S (generate_link_id u) m.next m.links e)
        | inr r ↦
            ground (arith, size-store_present S (generate_link_id u) m.next m.links {w = r.0} r.1)
      ]))

  clean_entry-Exceeds :
      (d : ℕ) (now timeout : ℤ) (e : Text × ℕ) (r : Manager conn_close S × ℕ)
      → Exceeds d r.0
      → Exceeds d (clean_entry conn_close S now timeout e r).0
  unfolding clean_entry
  clean_entry-Exceeds d now timeout (id, i) (m, n) h = elim (Option-cases (lookup i m.heap)) [
    | inl e ↦ rw (e, clean_entry) h
    | inr r ↦
        let t = try_close_if_idle conn_close now timeout r.0 m.world in
        let m' : Manager conn_close S = record m { heap = insert i t.1 m.heap; world = t.2 } in
        rw (r.1, clean_entry) (ground (arith, h, remove_link-Exceeds d id m' h))
  ]

  clean_loop-Exceeds :
      (d : ℕ) (now timeout : ℤ) (es : List (Text × ℕ)) (r : Manager conn_close S × ℕ)
      → Exceeds d r.0
      → Exceeds d (clean_loop conn_close S now timeout es r).0
  unfolding clean_loop
  clean_loop-Exceeds d now timeout [] r h = h
  clean_loop-Exceeds d now timeout (e ∷ es) r h =
      clean_loop-Exceeds d now timeout es _ (clean_entry-Exceeds d now timeout e r h)

  close_entry-Exceeds :
      (d : ℕ) (e : Text × ℕ) (m : Manager conn_close S)
      → Exceeds d m
      → Exceeds d (close_entry conn_close S e m)
  unfolding close_entry
  close_entry-Exceeds d (id, i) m h = elim (Option-cases (lookup i m.heap)) [
    | inl e ↦ rw (e, close_entry) (remove_link-Exceeds d id m h)
    | inr r ↦ rw (r.1, close_entry) (remove_link-Exceeds d id _ h)
  ]

  close_loop-Exceeds :
      (d : ℕ) (es : List (Text × ℕ)) (m : Manager conn_close S)
      → Exceeds d m
      → Exceeds d (close_loop conn_close S es m)
  unfolding close_loop
  close_loop-Exceeds d [] m h = h
  close_loop-Exceeds d (e ∷ es) m h = close_loop-Exceeds d es _ (close_entry-Exceeds d e m h)

  pub step-Exceeds :
      (d : ℕ) (c : Call) (m : Manager conn_close S)
      → Exceeds d m
      → Exceeds (d + shadows c m) (step conn_close S c m)
  unfolding step clean_idle_links close_all
  step-Exceeds d (new_links u c now) m h = new_link-Exceeds d u c now m h
  step-Exceeds d (remove_links id) m h = ground (arith, remove_link-Exceeds d id m h)
  step-Exceeds d (clean_idle now timeout) m h =
      ground (arith, clean_loop-Exceeds d now timeout (S.range m.links) (m, 0) h)
  step-Exceeds d closes m h = ground (arith, h, close_loop-Exceeds d (S.range m.links) m h)

  -- After any calls on a manager whose counter exceeds its number of links by `d`, the counter
  -- exceeds it by `d` and the number of `NewLink` calls for a user whose link was in the map at
  -- that time.
  pub len_lem :
      (cs : List Call) (d : ℕ) (m : Manager conn_close S)
      → Exceeds d m
      → Exceeds (d + shadowed cs m) (run conn_close S cs m)
  unfolding run
  len_lem [] d m h = ground arith
  len_lem (c ∷ cs) d m h =
      ground (arith, len_lem cs (d + shadows c m) (step conn_close S c m) (step-Exceeds d c m h))
