-- ===== src/BatchProducer/Rounds.antt =====
-- internal/event/batch_send_to_backend.go: how often the loop sends its requests.
use ws_gateway.Common.{
  ℕ, zero, suc, ◌+◌, ◌≤◌, ◌≡◌, refl, inl, inr, Bool, Option, none, some, List, [], ◌∷◌, ◌++◌, map,
  arith, if◌then◌else◌, is_some, Option-cases, get_elem?,
}
use ws_gateway.Common.Keys.{Text, ◌=?◌, =?_iff, nat_eq}
use ws_gateway.Common.Map.{lookup, insert, lookup-insert, lookup-delete}
use ws_gateway.BatchProducer.{
  Request, Producer, Event, produces, reads, iterates, report, publish_all, process, iterate, step,
  run,
}

abbrev is_full : ℕ → List (ℕ × Bool) → ℕ
is_full ch chans = if is_some (lookup ch chans) then 1 else 0

-- How often a channel is read.
abbrev pub reads_of : {M : Type 0} → ℕ → List (Event M) → ℕ
reads_of ch [] = 0
reads_of ch (reads c ∷ es) = if c =? ch then suc (reads_of ch es) else reads_of ch es
reads_of ch (produces q ∷ es) = reads_of ch es
reads_of ch (iterates ∷ es) = reads_of ch es

reads_cons :
    {M : Type 0} (ch : ℕ) (v : Event M) (es : List (Event M))
    → reads_of ch (v ∷ es) ≡ reads_of ch (v ∷ []) + reads_of ch es
reads_cons ch (produces q) es = omega arith
reads_cons ch (reads c) es = ground arith
reads_cons ch iterates es = omega arith

module _ {M : Type 0} where
  report_keeps :
      (qs : List (Request M)) (failed : Bool) (chans chans' : List (ℕ × Bool)) (ch : ℕ)
      → report qs failed chans ≡ some chans'
      → is_full ch chans ≤ is_full ch chans'
  unfolding report
  report_keeps [] failed chans chans' ch e = ground arith
  report_keeps (q ∷ qs) failed chans chans' ch e = ground (
    arith,
    report_keeps qs failed (insert q.err_chan failed chans) chans' ch,
    lookup-insert q.err_chan ch failed chans,
  )

  -- A round that ends found the channel of each of its requests empty, and fills it.
  report_fills :
      (qs : List (Request M)) (failed : Bool) (chans chans' : List (ℕ × Bool)) (i : ℕ)
      (q : Request M)
      → get_elem? qs i ≡ some q
      → report qs failed chans ≡ some chans'
      → (is_full q.err_chan chans ≡ 0) × (is_full q.err_chan chans' ≡ 1)
  unfolding report
  report_fills [] failed chans chans' i q at e = ground arith
  report_fills (x ∷ qs) failed chans chans' zero q at e = ground (
    arith,
    report_keeps qs failed (insert x.err_chan failed chans) chans' x.err_chan,
    lookup-insert x.err_chan x.err_chan failed chans,
    =?_iff x.err_chan x.err_chan,
  )
  report_fills (x ∷ qs) failed chans chans' (suc i) q at e = ground (
    arith,
    report_fills qs failed (insert x.err_chan failed chans) chans' i q,
    lookup-insert x.err_chan q.err_chan failed chans,
  )

  get_elem?-append :
      (xs ys : List (Request M)) (i : ℕ) (q : Request M)
      → get_elem? xs i ≡ some q
      → get_elem? (xs ++ ys) i ≡ some q
  get_elem?-append [] ys i q e = ground arith
  get_elem?-append (x ∷ xs) ys zero q e = e
  get_elem?-append (x ∷ xs) ys (suc i) q e = get_elem?-append xs ys i q e

module _ {M W : Type 0} (marshal : List M → Option Text) (publish : Text → W → Bool × W) where
  abbrev is_round : Event M → Producer M W → ℕ
  is_round iterates p = elim p.req [ [] ↦ 1 | q ∷ qs ↦ 0 ]
  is_round _ p = 0

  -- How often the loop marshals and sends what it has gathered.
  unfoldable pub rounds : List (Event M) → Producer M W → ℕ
  rounds [] p = 0
  rounds (e ∷ es) p =
      is_round e p + (elim (step marshal publish e p) [ none ↦ 0 | some p' ↦ rounds es p' ])

  abbrev Moved : Request M → ℕ → Event M → Producer M W → Producer M W → Type 0
  Moved q i e p p' =
      (get_elem? p'.reqs i ≡ some q)
      × (is_full q.err_chan p.chans + is_round e p
          ≤ is_full q.err_chan p'.chans + reads_of q.err_chan (e ∷ []))

  process_moves :
      (p p' : Producer M W) (i : ℕ) (q : Request M)
      → get_elem? p.reqs i ≡ some q
      → process marshal publish p ≡ some p'
      → (get_elem? p'.reqs i ≡ some q)
        × (is_full q.err_chan p.chans ≡ 0)
        × (is_full q.err_chan p'.chans ≡ 1)
  unfolding process
  process_moves p p' i q at e =
      let r = publish_all marshal publish (map (λ x. x.msg) p.reqs) p.world in
      elim (Option-cases (report p.reqs r.0 p.chans)) [
        | inl blocked ↦ absurd (ground (arith, rw (blocked, process) at e))
        | inr (chans, sent) ↦
            let f = report_fills p.reqs r.0 p.chans chans i q at sent in
            ground (arith, rw (sent, process) at e, f.0, f.1, at)
      ]

  iterate_moves :
      (o : List (Request M)) (p p' : Producer M W) (i : ℕ) (q : Request M)
      → p.req ≡ o
      → get_elem? p.reqs i ≡ some q
      → iterate marshal publish o p ≡ some p'
      → Moved q i iterates p p'
  unfolding iterate
  iterate_moves [] p p' i q h at e =
      let (a, b, c) = process_moves p p' i q at e in (a, ground (arith, h, b, c))
  iterate_moves (x ∷ xs) p p' i q h at e =
      ground (arith, e, at, h, get_elem?-append p.reqs (x ∷ []) i q at)

  step_moves :
      (v : Event M) (p p' : Producer M W) (i : ℕ) (q : Request M)
      → get_elem? p.reqs i ≡ some q
      → step marshal publish v p ≡ some p'
      → Moved q i v p p'
  unfolding step
  step_moves (produces x) p p' i q at e = ground arith
  step_moves (reads ch) p p' i q at e =
      ground (arith, lookup-delete ch q.err_chan p.chans, =?_iff ch q.err_chan)
  step_moves iterates p p' i q at e = iterate_moves p.req p p' i q refl at e

  rounds_lem :
      (es : List (Event M)) (p p' : Producer M W) (i : ℕ) (q : Request M)
      → get_elem? p.reqs i ≡ some q
      → run marshal publish es p ≡ some p'
      → is_full q.err_chan p.chans + rounds es p
        ≤ is_full q.err_chan p'.chans + reads_of q.err_chan es
  unfolding run rounds
  rounds_lem [] p p' i q at e = ground arith
  rounds_lem (v ∷ es) p p' i q at e = elim (Option-cases (step marshal publish v p)) [
    | inl blocked ↦ absurd (ground (arith, rw (blocked, run) at e))
    | inr (t, moved) ↦
        let m = step_moves v p t i q at moved in
        let later = rounds_lem es t p' i q m.0 (rw (moved, run) at e) in
        rw (moved, rounds) (omega (arith, m.1, later, reads_cons q.err_chan v es))
  ]

  -- Once a request was taken, in every run in which the loop does not block it sends all that it has
  -- gathered at most once more often than the request's channel is read. (`Produce` reads its channel at
  -- most once.)
  pub rounds_bounded :
      (es : List (Event M)) (p p' : Producer M W) (i : ℕ) (q : Request M)
      → get_elem? p.reqs i ≡ some q
      → run marshal publish es p ≡ some p'
      → rounds es p ≤ 1 + reads_of q.err_chan es
  rounds_bounded es p p' i q at e = ground (arith, rounds_lem es p p' i q at e)
