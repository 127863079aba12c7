-- ===== src/Registry/Registering.antt =====
-- internal/registry/registry.go: the retries of `Register`, and the leases that it leaves.
use ws_gateway.Common.{
  ℕ, zero, suc, ◌+◌, ◌≡◌, refl, ap, ◌∙◌, Bool, true, false, Option, none, some, [], ◌∷◌, arith,
  Bool-cases, Option-cases, inl, inr,
}
use ws_gateway.Common.Keys.{Text}
use ws_gateway.Errors.{Result, ok, err, max_retries_exceeded, other}
use ws_gateway.Registry.{Node, Etcd, key, register_loop}

abbrev pub is_ok : {A : Type 0} → Result A → Bool
is_ok (ok x) = true
is_ok (err e) = false

module _ (E : Etcd) where
  open E use {World}

  module _ (fuel n : ℕ) (node : Node) (bytes : Text) (w : World) where
    this : Option (Result ℕ × World)
    this = register_loop E (suc fuel) n node bytes w

    not_granted : (E.grant w).0 ≡ none → this ≡ some (err (other ∷ []), (E.grant w).1)
    unfolding register_loop this
    not_granted e = ground arith

    module _ (lease : ℕ) (granted : (E.grant w).0 ≡ some lease) where
      abbrev stored : Bool × World
      stored = E.put (key node.id) bytes lease (E.grant w).1

      abbrev undone : World
      undone = (E.revoke lease stored.1).1

      registered : stored.0 ≡ false → this ≡ some (ok lease, stored.1)
      unfolding register_loop this
      registered e = rw (granted, e, register_loop) refl

      given_up :
          stored.0 ≡ true
          → E.next_retry n ≡ false
          → this ≡ some (err (other ∷ max_retries_exceeded ∷ []), undone)
      unfolding register_loop this
      given_up e u = rw (granted, e, u, register_loop) refl

      tried_again :
          stored.0 ≡ true
          → E.next_retry n ≡ true
          → this ≡ register_loop E fuel (suc n) node bytes undone
      unfolding register_loop this
      tried_again e u = rw (granted, e, u, register_loop) refl

  -- `leases` counts the leases that etcd has, and `is_live` tells whether it has a lease: one that was
  -- granted, until it is revoked.
  module _ (leases : World → ℕ) (is_live : ℕ → World → Bool)
      (grant-leases : (w : World) (l : ℕ)
        → (E.grant w).0 ≡ some l
        → leases (E.grant w).1 ≡ leases w + 1)
      (grant-live : (w : World) (l : ℕ) → (E.grant w).0 ≡ some l → is_live l (E.grant w).1 ≡ true)
      (put-leases : (k v : Text) (l : ℕ) (w : World) → leases (E.put k v l w).1 ≡ leases w)
      (put-live : (k v : Text) (l j : ℕ) (w : World)
        → is_live j w ≡ true
        → is_live j (E.put k v l w).1 ≡ true)
      (revoke-leases : (l : ℕ) (w : World)
        → is_live l w ≡ true
        → leases (E.revoke l w).1 + 1 ≡ leases w) where
    -- What a registration leaves: a lease more if it succeeded, none more if its retries ran out.
    abbrev pub Leaves : World → Result ℕ → World → Type 0
    Leaves w r w' =
        (is_ok r ≡ true → leases w' ≡ leases w + 1)
        × (r ≡ err (other ∷ max_retries_exceeded ∷ []) → leases w' ≡ leases w)

    abbrev Ends : World → Option (Result ℕ × World) → Type 0
    Ends w res = (r : Result ℕ) × (w' : World) × (res ≡ some (r, w')) × Leaves w r w'

    one_round :
        (fuel n : ℕ) (node : Node) (bytes : Text) (w : World)
        → ((w' : World)
            → leases w' ≡ leases w
            → E.next_retry n ≡ true
            → Ends w' (register_loop E fuel (suc n) node bytes w'))
        → Ends w (register_loop E (suc fuel) n node bytes w)
    unfolding this
    one_round fuel n node bytes w go_on = elim (Option-cases (E.grant w).0) [
      | inl e ↦ (
        err (other ∷ []),
        (E.grant w).1,
        not_granted fuel n node bytes w e,
        (λ h. ground arith, λ h. ground arith),
      )
      | inr (lease, g) ↦
          let p : Bool × World = E.put (key node.id) bytes lease (E.grant w).1 in
          let more : leases (E.grant w).1 ≡ leases w + 1 = grant-leases w lease g in
          let same : leases p.1 ≡ leases w + 1 =
            put-leases (key node.id) bytes lease (E.grant w).1 ∙ more in
          let live : is_live lease p.1 ≡ true =
            put-live (key node.id) bytes lease lease (E.grant w).1 (grant-live w lease g) in
          let back : leases (E.revoke lease p.1).1 ≡ leases w =
            omega (arith, revoke-leases lease p.1 live) in
          elim (Bool-cases p.0) [
            | inr f ↦ (
              ok lease,
              p.1,
              registered fuel n node bytes w lease g f,
              (λ h. same, λ h. ground arith),
            )
            | inl f ↦ elim (Bool-cases (E.next_retry n)) [
              | inr u ↦ (
                err (other ∷ max_retries_exceeded ∷ []),
                (E.revoke lease p.1).1,
                given_up fuel n node bytes w lease g f u,
                (λ h. ground arith, λ h. back),
              )
              | inl u ↦
                  let (r, w', again, (kept, lost)) = go_on (E.revoke lease p.1).1 back u in
                  (
                    r,
                    w',
                    tried_again fuel n node bytes w lease g f u ∙ again,
                    (λ h. omega (arith, kept h, back), λ h. omega (arith, lost h, back)),
                  )
            ]
          ]
    ]

    loop-Ends :
        (fuel n : ℕ) (node : Node) (bytes : Text) (w : World)
        → n + fuel ≡ E.retry_limit
        → Ends w (register_loop E (suc fuel) n node bytes w)
    loop-Ends zero n node bytes w e = one_round zero n node bytes w λ w' s u.
        let last : n ≡ E.retry_limit = omega arith in
        absurd (cc (ap E.next_retry last, E.retry_limit_law))
    loop-Ends (suc fuel) n node bytes w e =
        one_round (suc fuel) n node bytes w
          λ w' s u. loop-Ends fuel (suc n) node bytes w' (omega arith)

    -- The loop of `Register` ends within the retries that the strategy grants. If it succeeds, etcd has
    -- one lease more than before; and if it fails because the retries ran out, after however many
    -- attempts, it has as many as before: provided that a `Grant` that answers a lease makes one, that
    -- `Put` makes and ends none, and that revoking a lease that etcd has succeeds. Nothing is said of
    -- the leases after a `Grant` that answers an error.
    pub register_loop_lem :
        (node : Node) (bytes : Text) (w : World)
        → (r : Result ℕ) × (w' : World) × (register_loop E (suc E.retry_limit) 0 node bytes w
            ≡ some (r, w'))
          × Leaves w r w'
    register_loop_lem node bytes w = loop-Ends E.retry_limit 0 node bytes w (omega arith)
