-- ===== src/Handler/Sending.antt =====
-- internal/linkevent/handler.go: what `push` sends, and what it leaves in the shared message.
use ws_gateway.Common.{◌≡◌, inl, inr, none, some, [], ◌∷◌, arith, Option-cases}
use ws_gateway.Common.Keys.{Text}
use ws_gateway.Errors.{encrypt_failed, marshal_failed, other}
use ws_gateway.Message.{Message, Gateway}
use ws_gateway.Handler.{push}

module _ (G : Gateway) (lk : G.Link) (msg : Message) (w : G.World) where
  open G use {encrypt, marshal, send}

  abbrev pub sealed : Text → Message
  sealed c = record msg { body = c }

  push_unencrypted :
      (encrypt msg.body w).0 ≡ none
      → push G lk msg w ≡ (some (encrypt_failed ∷ other ∷ []), msg, (encrypt msg.body w).1)
  unfolding push
  push_unencrypted e = ground arith

  push_unmarshalled :
      (c : Text)
      → (encrypt msg.body w).0 ≡ some c
      → marshal (sealed c) ≡ none
      → push G lk msg w ≡ (some (marshal_failed ∷ other ∷ []), sealed c, (encrypt msg.body w).1)
  unfolding push
  push_unmarshalled c e f = ground arith

  pub push_sent :
      (c p : Text)
      → (encrypt msg.body w).0 ≡ some c
      → marshal (sealed c) ≡ some p
      → push G lk msg w
        ≡ ((send lk p (encrypt msg.body w).1).0, sealed c, (send lk p (encrypt msg.body w).1).1)
  unfolding push
  push_sent c p e f = ground arith

  -- `push` returns nil only if the body was encrypted, the message with the ciphertext for its body
  -- was marshalled, and the link took exactly that payload.
  pub push_delivered :
      (push G lk msg w).0 ≡ none
      → (c : Text) × (p : Text) × ((encrypt msg.body w).0 ≡ some c)
        × (marshal (sealed c) ≡ some p)
        × ((send lk p (encrypt msg.body w).1).0 ≡ none)
        × ((push G lk msg w).2 ≡ (send lk p (encrypt msg.body w).1).1)
  push_delivered e = elim (Option-cases (encrypt msg.body w).0) [
    | inl bad ↦ absurd (cc (push_unencrypted bad))
    | inr (c, good) ↦ elim (Option-cases (marshal (sealed c))) [
      | inl bad ↦ absurd (cc (push_unmarshalled c good bad))
      | inr (p, made) ↦ (
        c,
        p,
        good,
        made,
        ground (arith, push_sent c p good made),
        ground (arith, push_sent c p good made),
      )
    ]
  ]

  -- Once the body was encrypted, the shared message holds the ciphertext, whatever follows.
  pub push_seals : (c : Text) → (encrypt msg.body w).0 ≡ some c → (push G lk msg w).1 ≡ sealed c
  push_seals c good = elim (Option-cases (marshal (sealed c))) [
    | inl bad ↦ ground (arith, push_unmarshalled c good bad)
    | inr (p, made) ↦ ground (arith, push_sent c p good made)
  ]
