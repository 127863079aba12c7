-- ===== src/Upgrader/Tests.antt =====
-- internal/upgrader/upgrader.go: a client's handshake, where the URI is its token.
use ws_gateway.Common.{◌≡◌, refl, true, false, none, some, [], ◌∷◌, arith}
use ws_gateway.Common.Int.{pos, wrap64, ◌+ℤ◌}
use ws_gateway.Common.Keys.{◌=?◌, text_eq}
use ws_gateway.Errors.{ok}
use ws_gateway.Session.{session_key}
use ws_gateway.Session.Tests.{toy}
use ws_gateway.Tokens.Tests.{plain, header, plain-IsJwt, signer, carol, carols_token, encode-carol}
use ws_gateway.Upgrader.{Platform, true_text, on_headers, upgrade}
use ws_gateway.Upgrader.Admission.{Holds, IsNamed, upgrade-IsNamed, upgrade-encode}

abbrev browser : Platform
browser = record {
  query_token = λ uri. some uri;
  is_auto_close_key = λ k. k =? (120 ∷ []);
  well_formed = true;
  answers = true;
  negotiated = false;
}

upgrade-IsNamed_example :
    Holds plain toy browser
      (λ r. IsNamed plain toy browser signer (pos 2000) carols_token r.0)
      (upgrade plain toy browser true signer (pos 2000) carols_token [] (9 ∷ []) ([], [])).0
upgrade-IsNamed_example =
    upgrade-IsNamed plain toy browser true signer (pos 2000) carols_token [] (9 ∷ []) ([], [])

upgrade-encode_example :
    ((upgrade plain toy browser false signer
        (pos 2000)
        carols_token
        ((120 ∷ [], true_text) ∷ [])
        (9 ∷ [])
        ([], [])).0
      ≡ ok (record { biz_id = pos 2; user_id = pos 7; auto_close = true }, none))
    × (toy.exists
          (session_key (record { biz_id = pos 2; user_id = pos 7; auto_close = true }))
          (upgrade plain toy browser false signer
            (pos 2000)
            carols_token
            ((120 ∷ [], true_text) ∷ [])
            (9 ∷ [])
            ([], [])).1
        ≡ true)
unfolding wrap64 ◌+ℤ◌ on_headers
upgrade-encode_example =
    upgrade-encode plain toy browser header plain-IsJwt signer (pos 1000) (pos 2000) carol
      carols_token carols_token ((120 ∷ [], true_text) ∷ []) (9 ∷ []) ([], []) encode-carol
      (omega arith) (omega arith) (omega arith) (omega arith) (omega arith) refl refl refl refl
