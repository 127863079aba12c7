-- ===== src/Generator/Increasing.antt =====
-- pkg/generator/etcd.go: the values that concurrent calls generate.
use ws_gateway.Common.{
  ℕ, ◌+◌, ◌≤◌, ◌<◌, ◌≡◌, ◌≢◌, ◌⊎◌, refl, sym, ◌∙◌, inl, inr, Bool, true, false, Option, none, some,
  List, [], ◌∷◌, arith, ◌==◌, Bool-cases, either, length,
}
use ws_gateway.Common.Int.{ℤ, pos, add64, add64_small, half64}
use ws_gateway.Common.Keys.{Text}
use ws_gateway.Common.Format.{show_int, show_nat}
use ws_gateway.Common.Parse.{parse_int-show_nat}
use ws_gateway.Generator.{
  Etcd, read_value, Event, initializes, reads, commits, assign, Generators, initialize_key, see,
  begin_round, answered, end_round, step, run,
}

-- The values of a list fall strictly from below `high` to above `low`: no two are equal.
abbrev pub Falls : ℕ → ℕ → List ℤ → Type 0
Falls low high [] = low < high
Falls low high (x ∷ xs) = (m : ℕ) × (x ≡ pos m) × (m < high) × Falls low m xs

Falls-below : (low : ℕ) {a b : ℕ} (xs : List ℤ) → a ≤ b → Falls low a xs → Falls low b xs
Falls-below low [] h f = omega arith
Falls-below low (x ∷ xs) h (m, e, k, f) = (m, e, omega arith, f)

module _ (E : Etcd) where
  open E use {State}

  -- What etcd does with a key: `view` is its value and its revision, which each write raises.
  pub record IsStore (key : Text) (view : State → Option (Text × ℕ)) : Type 0 where
    pub get-view : (s : State) → view (E.get key s).1 ≡ view s
    pub get-answer : (s : State) (a : Option (Text × ℕ)) → (E.get key s).0 ≡ some a → a ≡ view s
    pub create-view :
        (v : Text) (s : State) (p : Text × ℕ) → view s ≡ some p → view (E.create key v s).1 ≡ some p
    pub refuses :
        (r : ℕ) (v : Text) (s : State) (t : Text) (now : ℕ)
        → view s ≡ some (t, now)
        → r ≢ now
        → (view (E.swap key r v s).1 ≡ some (t, now)) × ((E.swap key r v s).0 ≢ some true)
    pub swaps :
        (r : ℕ) (v t : Text) (s : State)
        → view s ≡ some (t, r)
        → ((view (E.swap key r v s).1 ≡ some (t, r)) × ((E.swap key r v s).0 ≢ some true))
          ⊎ ((now : ℕ) × (view (E.swap key r v s).1 ≡ some (v, now)) × (r < now))

  module _ (key : Text) (view : State → Option (Text × ℕ)) (store : IsStore key view) where
    -- The key holds `n`; what a process read is old, or is `n`; what was generated is at most `n`.
    record IsAt (low n : ℕ) (g : Generators E) : Type 0 where
      pub rev : ℕ
      pub value : view g.store ≡ some (show_nat n, rev)
      pub read :
          (i : ℕ) (v : ℤ) (r : ℕ) → g.held i ≡ some (v, r) → (r ≤ rev) × (r ≡ rev → v ≡ pos n)
      pub falling : Falls low (n + 1) g.generated

    assigned :
        (i j : ℕ) (x : Option (ℤ × ℕ)) (f : ℕ → Option (ℤ × ℕ)) (p : ℤ × ℕ)
        → assign i x f j ≡ some p
        → (x ≡ some p) ⊎ (f j ≡ some p)
    assigned i j x f p =
        either (λ (t : Option (ℤ × ℕ)). t ≡ some p → (x ≡ some p) ⊎ (f j ≡ some p)) (i == j)
          (λ e. inl e) (λ e. inr e)

    release-IsAt :
        (low n i : ℕ) (g : Generators E)
        → IsAt low n g
        → IsAt low n (record g { held = assign i none g.held })
    release-IsAt low n i g at = record {
      rev = at.rev;
      value = at.value;
      falling = at.falling;
      read = λ j v r e. elim (assigned i j none g.held (v, r) e) [
        | inl h ↦ absurd (ground arith)
        | inr h ↦ at.read j v r h
      ];
    }

    see-IsAt :
        (low n i : ℕ) (a : Option (Option (Text × ℕ))) (g : Generators E)
        → n < half64
        → ((b : Option (Text × ℕ)) → a ≡ some b → b ≡ view g.store)
        → IsAt low n g
        → IsAt low n (see E i (read_value a) g)
    see-IsAt low n i none g k h at = at
    see-IsAt low n i (some none) g k h at = at
    see-IsAt low n i (some (some (text, rev))) g k h at =
        let same : ◌≡◌ {A = Option (Text × ℕ)} (some (text, rev)) (some (show_nat n, at.rev)) =
          h (some (text, rev)) refl ∙ at.value in
        let same_text : text ≡ show_nat n = ground arith in
        let same_rev : rev ≡ at.rev = ground arith in
        rw (same_text, parse_int-show_nat n k)
          (record {
            rev = at.rev;
            value = at.value;
            falling = at.falling;
            read = λ j v r e. elim (assigned i j (some (pos n, rev)) g.held (v, r) e) [
              | inl f ↦
                  (let here : rev ≡ r = ground arith in
                    let value : pos n ≡ v = ground arith in
                    (omega (arith, here, same_rev), λ _. sym value))
              | inr f ↦ at.read j v r f
            ];
          })

    answered_same :
        (low n i : ℕ) (next : ℤ) (o : Option Bool) (g : Generators E)
        → o ≢ some true
        → IsAt low n g
        → IsAt low n (answered E i next o g)
    answered_same low n i next none g h at = release-IsAt low n i g at
    answered_same low n i next (some false) g h at = release-IsAt low n i g at
    answered_same low n i next (some true) g h at = absurd (h refl)

    answered_new :
        (low n i : ℕ) (o : Option Bool) (g : Generators E)
        → Falls low (n + 1) g.generated
        → IsAt low (n + 1) g
        → IsAt low (n + 1) (answered E i (pos (n + 1)) o g)
    answered_new low n i none g f at = release-IsAt low (n + 1) i g at
    answered_new low n i (some false) g f at = release-IsAt low (n + 1) i g at
    answered_new low n i (some true) g f at =
        let kept = release-IsAt low (n + 1) i g at in
        record {
          rev = kept.rev;
          value = kept.value;
          read = kept.read;
          falling = (n + 1, refl, omega arith, f);
        }

    begin-IsAt :
        (low n i : ℕ) (h : Option (ℤ × ℕ)) (g : Generators E)
        → n < half64
        → IsAt low n g
        → IsAt low n (begin_round E key i h g)
    unfolding begin_round
    begin-IsAt low n i (some h) g k at = at
    begin-IsAt low n i none g k at =
        let s = (E.get key g.store).1 in
        see-IsAt low n i (E.get key g.store).0 (record g { store = s }) k
          (λ a e. store.get-answer g.store a e ∙ sym (store.get-view g.store))
          (record {
            rev = at.rev;
            value = store.get-view g.store ∙ at.value;
            read = at.read;
            falling = at.falling;
          })

    -- A compare-and-swap with an old revision changes nothing; with the present one it may raise the value.
    stale :
        (low n i : ℕ) (v : ℤ) (r : ℕ) (next : ℤ) (g : Generators E) (at : IsAt low n g)
        → r ≢ at.rev
        → IsAt low n (
            answered E i next
              (E.swap key r (show_int next) g.store).0
              (record g { store = (E.swap key r (show_int next) g.store).1 }))
    stale low n i v r next g at differs =
        let (kept, unanswered) =
          store.refuses r (show_int next) g.store (show_nat n) at.rev at.value differs in
        answered_same low n i next _ (record g { store = (E.swap key r (show_int next) g.store).1 })
          unanswered (record { rev = at.rev; value = kept; read = at.read; falling = at.falling })

    fresh :
        (low n i : ℕ) (g : Generators E) (at : IsAt low n g)
        → (m : ℕ) × (n ≤ m)
          × (m ≤ n + 1)
          × IsAt low m (
              answered E i
                (pos (n + 1))
                (E.swap key at.rev (show_nat (n + 1)) g.store).0
                (record g { store = (E.swap key at.rev (show_nat (n + 1)) g.store).1 }))
    fresh low n i g at =
        let s = (E.swap key at.rev (show_nat (n + 1)) g.store).1 in
        elim (store.swaps at.rev (show_nat (n + 1)) (show_nat n) g.store at.value) [
          | inl (kept, unanswered) ↦ (
            n,
            omega arith,
            omega arith,
            answered_same low n i (pos (n + 1)) _ (record g { store = s }) unanswered
                (record { rev = at.rev; value = kept; read = at.read; falling = at.falling }),
          )
          | inr (now, put, later) ↦ (
            n + 1,
            omega arith,
            omega arith,
            answered_new low n i _ (record g { store = s }) at.falling
                (record {
                  rev = now;
                  value = put;
                  read = λ j v r e.
                      let (old, _) = at.read j v r e in (omega arith, λ h. absurd (omega arith));
                  falling = Falls-below low g.generated (omega arith) at.falling;
                }),
          )
        ]

    end-IsAt :
        (low n i : ℕ) (h : Option (ℤ × ℕ)) (g : Generators E)
        → n + 1 < half64
        → g.held i ≡ h
        → IsAt low n g
        → (m : ℕ) × (n ≤ m) × (m ≤ n + 1) × IsAt low m (end_round E key i h g)
    unfolding end_round show_int
    end-IsAt low n i none g k e at = (n, omega arith, omega arith, at)
    end-IsAt low n i (some (v, r)) g k e at = elim (Bool-cases (r == at.rev)) [
      | inl same ↦
          (let now : r ≡ at.rev = ground arith in
            let value : v ≡ pos n = (at.read i v r e).1 now in
            rw (now, value, add64_small n 1 k) (fresh low n i g at))
      | inr differs ↦ (
        n,
        omega arith,
        omega arith,
        stale low n i v r (add64 v (pos 1)) g at (λ h. ground arith),
      )
    ]

    step-IsAt :
        (low n : ℕ) (e : Event) (g : Generators E)
        → n + 1 < half64
        → IsAt low n g
        → (m : ℕ) × (n ≤ m) × (m ≤ n + 1) × IsAt low m (step E key e g)
    unfolding step initialize_key
    step-IsAt low n (initializes v) g k at = (
      n,
      omega arith,
      omega arith,
      record {
        rev = at.rev;
        value = store.create-view (show_int v) g.store (show_nat n, at.rev) at.value;
        read = at.read;
        falling = at.falling;
      },
    )
    step-IsAt low n (reads i) g k at =
        (n, omega arith, omega arith, begin-IsAt low n i (g.held i) g (omega arith) at)
    step-IsAt low n (commits i) g k at = end-IsAt low n i (g.held i) g k refl at

    run-Falls :
        (low n : ℕ) (es : List Event) (g : Generators E)
        → n + length es < half64
        → IsAt low n g
        → Falls low (n + length es + 1) (run E key es g).generated
    unfolding run
    run-Falls low n [] g k at = Falls-below low g.generated (omega arith) at.falling
    run-Falls low n (e ∷ es) g k at =
        let (m, _, most, at') = step-IsAt low n e g (omega arith) at in
        Falls-below low (run E key es (step E key e g)).generated (omega arith)
          (run-Falls low m es (step E key e g) (omega arith) at')

  -- If etcd keeps its promises, and the key holds the number `n`, then the values that any number of
  -- concurrent calls of `generateValue` return, whatever the order of their reads and their
  -- transactions, with transactions that fail or answer an error and with generators that start
  -- meanwhile and try to initialize the key, are all different: each is above those returned before it,
  -- and they lie between `n` and `n` plus the number of steps, if that is below 2 ^ 63.
  pub generated_increases :
      (key : Text) (view : State → Option (Text × ℕ))
      → IsStore key view
      → (n rev : ℕ) (es : List Event) (s : State) → view s ≡ some (show_nat n, rev)
      → n + length es < half64
      → Falls n
          (n + length es + 1)
          (run E key es (record { store = s; held = λ i. none; generated = [] })).generated
  generated_increases key view store n rev es s e k =
      run-Falls key view store n n es (record { store = s; held = λ i. none; generated = [] }) k
        (record {
          rev = rev;
          value = e;
          read = λ i v r h. absurd (ground arith);
          falling = omega arith;
        })
