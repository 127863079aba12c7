-- ===== src/Tokens/RoundTrip.antt =====
-- pkg/jwt: what is decoded from an encoded token.
use ws_gateway.Common.{
  ◌≤◌, ◌<◌, ◌≡◌, refl, ap, Bool, true, false, Option, none, some, List, [], ◌∷◌, ◌++◌,
  if◌then◌else◌, All,
}
use ws_gateway.Common.Int.{ℤ, pos, negsuc, add64, ◌<ℤ◌}
use ws_gateway.Common.Keys.{Text, ◌=?◌, text_eq}
use ws_gateway.Errors.{ok, err, decode_token_failed, other}
use ws_gateway.Tokens.{
  Claim, int_claim, str_claim, Received, float, string, MapClaims, Jwt, Token, UserClaims,
  user_id_claim, biz_id_claim, iat_claim, exp_claim, iss_claim, bearer, cut_prefix, or_else,
  trim_prefix, day, merged, encode_claims, key_func, decode_claims, user_map_claims, encode, as_int,
  user_claims, decode,
}

-- The integers that a float64 holds exactly, up to 2 ^ 53.
abbrev pub IsExact : ℤ → Type 0
IsExact (pos n) = n ≤ 9007199254740992
IsExact (negsuc n) = n < 9007199254740992

-- What the signer's claims default to.
abbrev pub filled : Token → ℤ → UserClaims → UserClaims
filled t now uc = record {
  user_id = uc.user_id;
  biz_id = uc.biz_id;
  issued_at = some (or_else uc.issued_at now);
  expires_at = some (or_else uc.expires_at (add64 now day));
  issuer = if uc.issuer =? [] then t.issuer else uc.issuer;
}

module _ (J : Jwt) where
  open J use {F}

  abbrev pub received : Option Claim → Option (Received F)
  received none = none
  received (some (int_claim n)) = some (float (J.to_float n))
  received (some (str_claim s)) = some (string s)

  -- The claims that `UserToken.Decode` reads.
  abbrev pub names : List Text
  names = user_id_claim ∷ biz_id_claim ∷ iat_claim ∷ exp_claim ∷ iss_claim ∷ []

  -- What golang-jwt and float64 do: `header` says whether the method that a token names is an HMAC.
  pub record IsJwt (header : Text → Bool) : Type 0 where
    pub exact : (n : ℤ) → IsExact n → J.of_float (J.to_float n) ≡ n
    -- A compact token has no space.
    pub compact :
        (k s : Text) (m : MapClaims) → J.signed_string k m ≡ some s → cut_prefix bearer s ≡ none
    -- A token that is not expired, with the key it was signed with: the claims that the code reads.
    pub accepts :
        (k s : Text) (m : MapClaims) (kf : Bool → Option Text) (now e : ℤ)
        → J.signed_string k m ≡ some s
        → kf true ≡ some k
        → m exp_claim ≡ some (int_claim e)
        → IsExact e
        → now <ℤ e
        → (c : Text → Option (Received F)) × (J.parse kf now s ≡ some (true, c))
          × All (λ j. c j ≡ received (m j)) names
    -- Without a key nothing is accepted.
    pub asks :
        (s : Text) (kf : Bool → Option Text) (now : ℤ)
        → kf (header s) ≡ none
        → J.parse kf now s ≡ none

  signed : Token → ℤ → UserClaims → MapClaims
  signed t now uc = merged J t now (user_map_claims J now uc)

  iat_lem :
      (t : Token) (now : ℤ) (uc : UserClaims) (o : Option ℤ)
      → uc.issued_at ≡ o
      → signed t now uc iat_claim ≡ some (int_claim (or_else uc.issued_at now))
  unfolding signed
  iat_lem t now uc none e = rw e refl
  iat_lem t now uc (some n) e = rw e refl

  exp_lem :
      (t : Token) (now : ℤ) (uc : UserClaims) (o : Option ℤ)
      → uc.expires_at ≡ o
      → signed t now uc exp_claim ≡ some (int_claim (or_else uc.expires_at (add64 now day)))
  unfolding signed
  exp_lem t now uc none e = rw e refl
  exp_lem t now uc (some n) e = rw e refl

  iss_lem :
      (t : Token) (now : ℤ) (uc : UserClaims) (s : Text)
      → uc.issuer ≡ s
      → signed t now uc iss_claim
        ≡ some (str_claim (if uc.issuer =? [] then t.issuer else uc.issuer))
  unfolding signed
  iss_lem t now uc [] e = rw e refl
  iss_lem t now uc (c ∷ cs) e = rw e refl

  module _ (header : Text → Bool) (jwt : IsJwt header) where
    received-int :
        (o : Option Claim) (n : ℤ)
        → IsExact n
        → o ≡ some (int_claim n)
        → as_int J (received o) ≡ some n
    received-int o n h e = rw e (ap some (jwt.exact n h))

    fields :
        (t : Token) (now : ℤ) (uc : UserClaims)
        → IsExact uc.user_id
        → IsExact uc.biz_id
        → IsExact (or_else uc.issued_at now)
        → IsExact (or_else uc.expires_at (add64 now day))
        → (c : Text → Option (Received F)) → All (λ j. c j ≡ received (signed t now uc j)) names
        → user_claims J c ≡ filled t now uc
    unfolding signed
    fields t now uc u b i x c (eu, (eb, (ei, (ee, (es, _))))) =
        rw
          (
            eu,
            eb,
            ei,
            ee,
            es,
            jwt.exact uc.user_id u,
            jwt.exact uc.biz_id b,
            received-int (signed t now uc iat_claim) _ i (iat_lem t now uc uc.issued_at refl),
            received-int (signed t now uc exp_claim) _ x (exp_lem t now uc uc.expires_at refl),
            iss_lem t now uc uc.issuer refl,
          )
          refl

    accepted :
        (t : Token) (now later : ℤ) (uc : UserClaims) (s : Text)
        → encode J t now uc ≡ some s
        → IsExact (or_else uc.expires_at (add64 now day))
        → later <ℤ or_else uc.expires_at (add64 now day)
        → (c : Text → Option (Received F)) × (J.parse (key_func J t) later s ≡ some (true, c))
          × All (λ j. c j ≡ received (signed t now uc j)) names
    unfolding encode encode_claims signed
    accepted t now later uc s e x l =
        jwt.accepts t.key s (signed t now uc) (key_func J t) later _ e refl
          (exp_lem t now uc uc.expires_at refl) x l

    decode-trimmed :
        (t : Token) (now later : ℤ) (uc : UserClaims) (s r : Text)
        → encode J t now uc ≡ some s
        → IsExact uc.user_id
        → IsExact uc.biz_id
        → IsExact (or_else uc.issued_at now)
        → IsExact (or_else uc.expires_at (add64 now day))
        → later <ℤ or_else uc.expires_at (add64 now day)
        → trim_prefix bearer r ≡ s
        → decode J t later r ≡ ok (filled t now uc)
    unfolding decode decode_claims
    decode-trimmed t now later uc s r e u b i x l c =
        let (claims, parsed, read) = accepted t now later uc s e x l in
        rw (c, parsed) (ap ok (fields t now uc u b i x claims read))

    -- A token that was encoded for a user, whose ids and times are at most 2 ^ 53 in size, decodes with
    -- the same key, until it expires, to the same claims, where the time of issue, the expiry after a
    -- day and the issuer stand in for those that were left out; and it does so with the prefix
    -- "Bearer " as well.
    pub decode-encode :
        (t : Token) (now later : ℤ) (uc : UserClaims) (s : Text)
        → encode J t now uc ≡ some s
        → IsExact uc.user_id
        → IsExact uc.biz_id
        → IsExact (or_else uc.issued_at now)
        → IsExact (or_else uc.expires_at (add64 now day))
        → later <ℤ or_else uc.expires_at (add64 now day)
        → (decode J t later s ≡ ok (filled t now uc))
          × (decode J t later (bearer ++ s) ≡ ok (filled t now uc))
    unfolding encode encode_claims signed
    decode-encode t now later uc s e u b i x l = (
      decode-trimmed t now later uc s s e u b i x l
          (rw (jwt.compact t.key s (signed t now uc) e) refl),
      decode-trimmed t now later uc s (bearer ++ s) e u b i x l refl,
    )

    -- A token whose header names no HMAC as its method is never accepted.
    pub method_refused :
        (t : Token) (now : ℤ) (s : Text)
        → header (trim_prefix bearer s) ≡ false
        → decode J t now s ≡ err (decode_token_failed ∷ other ∷ [])
    unfolding decode decode_claims
    method_refused t now s h =
        rw (jwt.asks (trim_prefix bearer s) (key_func J t) now (rw h refl)) refl
