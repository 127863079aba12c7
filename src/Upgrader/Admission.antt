-- ===== src/Upgrader/Admission.antt =====
-- internal/upgrader/upgrader.go: whom the handshake admits.
use ws_gateway.Common.{
  ◌≡◌, refl, ◌∙◌, inl, inr, Bool, true, false, Option, none, some, List, Bool-cases, either,
}
use ws_gateway.Common.Int.{ℤ, add64, ◌<ℤ◌}
use ws_gateway.Common.Keys.{Text, =?_refl, text_eq}
use ws_gateway.Errors.{Result, ok, err}
use ws_gateway.Links.Manager.{UserInfo}
use ws_gateway.Session.{
  Redis, answers, carry, Answer, built, value, done, failed, build, build_answer, initialize,
  set_session_if_not_exist, session_key,
}
use ws_gateway.Tokens.{Jwt, Token, UserClaims, or_else, day, encode, decode}
use ws_gateway.Tokens.RoundTrip.{IsExact, IsJwt, decode-encode}
use ws_gateway.Upgrader.{
  Platform, get_user_info, on_headers, session_of, on_before_upgrade, ended, info_of, info_of_token,
  after_request, upgrade,
}

module _ (J : Jwt) (R : Redis) (P : Platform) where
  open R use {Store}

  -- Of a result: it is an error, or what it holds has a property.
  abbrev pub Holds : {A : Type 0} → (A → Type 0) → Result A → Type 0
  Holds Q (err e) = Unit
  Holds Q (ok a) = Q a

  -- A user that the claims of the token in the URI name.
  abbrev pub IsNamed : Token → ℤ → Text → UserInfo → Type 0
  IsNamed t now uri u =
      (s : Text) × (c : UserClaims) × (P.query_token uri ≡ some s)
      × (decode J t now s ≡ ok c)
      × (u.user_id ≡ c.user_id)
      × (u.biz_id ≡ c.biz_id)

  built_session :
      (u : UserInfo) (login : Text) (s : Store)
      → (R.fate s).0 ≡ answers
      → ((b : Bool) × ((build R u login s).0 ≡ built b))
        × (R.exists (session_key u) (build R u login s).1 ≡ true)
  unfolding build initialize set_session_if_not_exist build_answer carry
  built_session u login s up = elim (Bool-cases (R.exists (session_key u) (R.fate s).1)) [
    | inl there ↦ rw (up, there) ((false, refl), there)
    | inr new ↦
        rw (up, new)
          (
            (true, refl),
            R.hset-exists (session_key u) (session_key u) _ _ _ ∙ rw (=?_refl (session_key u)) refl,
          )
  ]

  ended-Holds :
      (Q : UserInfo × Option Bool → Type 0) (enabled : Bool) (u : UserInfo) (a : Answer)
      → ((c : Option Bool) → Q (u, c))
      → Holds Q (ended J R P enabled (session_of J R P u a))
  ended-Holds Q enabled u (built b) h = either (Holds Q) P.answers (h _) tt
  ended-Holds Q enabled u (value v) h = tt
  ended-Holds Q enabled u done h = tt
  ended-Holds Q enabled u failed h = tt

  decoded-Holds :
      (enabled : Bool) (t : Token) (now : ℤ) (uri tok : Text) (hs : List (Text × Text))
      (login : Text) (s : Store) (d : Result UserClaims)
      → P.query_token uri ≡ some tok
      → decode J t now tok ≡ d
      → Holds
          (λ r. IsNamed t now uri r.0)
          (after_request J R P enabled hs login (info_of J R P d) s).0
  unfolding on_before_upgrade
  decoded-Holds enabled t now uri tok hs login s (err e) q h = tt
  decoded-Holds enabled t now uri tok hs login s (ok c) q h =
      either
        (λ (p : Result (UserInfo × Option Bool) × Store). Holds (λ r. IsNamed t now uri r.0) p.0)
        P.well_formed
        (ended-Holds (λ r. IsNamed t now uri r.0) enabled _ _ (λ _. (tok, c, q, h, refl, refl))) tt

  found-Holds :
      (enabled : Bool) (t : Token) (now : ℤ) (uri : Text) (hs : List (Text × Text)) (login : Text)
      (s : Store) (o : Option Text)
      → P.query_token uri ≡ o
      → Holds
          (λ r. IsNamed t now uri r.0)
          (after_request J R P enabled hs login (info_of_token J R P t now o) s).0
  found-Holds enabled t now uri hs login s none q = tt
  found-Holds enabled t now uri hs login s (some tok) q =
      decoded-Holds enabled t now uri tok hs login s (decode J t now tok) q refl

  -- Whatever a client sends, a handshake that succeeds gives a session of the user whose business and
  -- user id are those of the claims that the token in the URI decodes to.
  pub upgrade-IsNamed :
      (enabled : Bool) (t : Token) (now : ℤ) (uri : Text) (hs : List (Text × Text)) (login : Text)
      (s : Store)
      → Holds (λ r. IsNamed t now uri r.0) (upgrade J R P enabled t now uri hs login s).0
  unfolding upgrade get_user_info
  upgrade-IsNamed enabled t now uri hs login s =
      found-Holds enabled t now uri hs login s (P.query_token uri) refl

  -- The user of the claims, as the handshake admits it.
  abbrev pub admitted : UserClaims → List (Text × Text) → UserInfo
  admitted uc hs = record {
    biz_id = uc.biz_id;
    user_id = uc.user_id;
    auto_close = on_headers J R P hs false;
  }

  ended-ok :
      (u : UserInfo) (a : Answer) (b : Bool)
      → a ≡ built b
      → P.answers ≡ true
      → ended J R P false (session_of J R P u a) ≡ ok (u, none)
  ended-ok u a b e h = rw (e, h) refl

  -- A client with a token that was encoded for a user, whose ids and times are at most 2 ^ 53 in size
  -- and which is not expired, gets its handshake through and, without compression, the session of that
  -- user, with AutoClose as the headers say, if Redis answers and the library finds nothing wrong; the
  -- session is then in Redis, whether it is new or was there.
  pub upgrade-encode :
      (header : Text → Bool)
      → IsJwt J header
      → (t : Token) (now later : ℤ) (uc : UserClaims) (tok uri : Text) (hs : List (Text × Text))
        (login : Text) (s : Store)
      → encode J t now uc ≡ some tok
      → IsExact uc.user_id
      → IsExact uc.biz_id
      → IsExact (or_else uc.issued_at now)
      → IsExact (or_else uc.expires_at (add64 now day))
      → later <ℤ or_else uc.expires_at (add64 now day)
      → P.query_token uri ≡ some tok
      → P.well_formed ≡ true
      → P.answers ≡ true
      → (R.fate s).0 ≡ answers
      → ((upgrade J R P false t later uri hs login s).0 ≡ ok (admitted uc hs, none))
        × (R.exists (session_key (admitted uc hs)) (upgrade J R P false t later uri hs login s).1
            ≡ true)
  unfolding upgrade get_user_info on_before_upgrade on_headers
  upgrade-encode header jwt t now later uc tok uri hs login s e u b i x l q w a up =
      let (decodes, _) = decode-encode J header jwt t now later uc tok e u b i x l in
      let ((is_new, build_answer), there) = built_session (admitted uc hs) login s up in
      rw (q, decodes, w) (ended-ok (admitted uc hs) _ is_new build_answer a, there)
