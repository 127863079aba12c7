-- ===== src/Tokens/Tests.antt =====
-- pkg/jwt: a library whose tokens carry the claims as they are, and the theorems at concrete inputs.
use ws_gateway.Common.{
  ℕ, ◌≡◌, refl, sym, Bool, true, false, Option, none, some, [], ◌∷◌, ◌++◌, arith, if◌then◌else◌,
  ◌==◌,
}
use ws_gateway.Common.Int.{ℤ, pos, negsuc, wrap64, ◌+ℤ◌}
use ws_gateway.Common.Keys.{Text, ◌=?◌, text_eq}
use ws_gateway.Errors.{ok}
use ws_gateway.Tokens.{
  Claim, int_claim, str_claim, Received, float, string, MapClaims, Jwt, Token, UserClaims,
  user_id_claim, biz_id_claim, iat_claim, exp_claim, iss_claim, bearer, encode, encode_claims,
  decode,
}
use ws_gateway.Tokens.RoundTrip.{IsJwt, filled, decode-encode}

-- Tokens of numbers that are not negative and of a text; the first character says that the method is an
-- HMAC.
abbrev nat_of : Option Claim → Option ℕ
nat_of (some (int_claim (pos n))) = some n
nat_of _ = none

abbrev text_of : Option Claim → Option Text
text_of (some (str_claim s)) = some s
text_of _ = none

abbrev bind {ℓ} : {A : Type ℓ} → Option A → (A → Option Text) → Option Text
bind none f = none
bind (some a) f = f a

bound {ℓ} :
    {A : Type ℓ} (o : Option A) (f : A → Option Text) (s : Text)
    → bind o f ≡ some s
    → (a : A) × (o ≡ some a) × (f a ≡ some s)
bound none f s e = absurd (ground arith)
bound (some a) f s e = (a, refl, e)

nat_claim : (o : Option Claim) (n : ℕ) → nat_of o ≡ some n → o ≡ some (int_claim (pos n))
nat_claim (some (int_claim (pos m))) n e = ground arith
nat_claim (some (int_claim (negsuc m))) n e = absurd (ground arith)
nat_claim (some (str_claim s)) n e = absurd (ground arith)
nat_claim none n e = absurd (ground arith)

text_claim : (o : Option Claim) (s : Text) → text_of o ≡ some s → o ≡ some (str_claim s)
text_claim (some (str_claim t)) s e = ground arith
text_claim (some (int_claim m)) s e = absurd (ground arith)
text_claim none s e = absurd (ground arith)

abbrev write_token : MapClaims → Option Text
write_token m = bind (nat_of (m user_id_claim)) (λ u. bind (nat_of (m biz_id_claim)) (λ b.
    bind (nat_of (m iat_claim)) (λ i.
      bind (nat_of (m exp_claim))
        (λ x. bind (text_of (m iss_claim)) (λ s. some (1 ∷ u ∷ b ∷ i ∷ x ∷ s))))))

abbrev read_claims : ℕ → ℕ → ℕ → ℕ → Text → Text → Option (Received ℤ)
read_claims u b i x s k =
    if k =? user_id_claim
    then some (float (pos u))
    else if k =? biz_id_claim
    then some (float (pos b))
    else if k =? iat_claim
    then some (float (pos i))
    else if k =? exp_claim
    then some (float (pos x))
    else if k =? iss_claim
    then some (string s)
    else none

abbrev pub header : Text → Bool
header [] = false
header (c ∷ cs) = c == 1

abbrev with_key : Option Text → Text → Option (Bool × (Text → Option (Received ℤ)))
with_key (some k) (c ∷ u ∷ b ∷ i ∷ x ∷ s) = some (true, read_claims u b i x s)
with_key _ _ = none

abbrev pub plain : Jwt
plain = record {
  F = ℤ;
  to_float = λ n. n;
  of_float = λ n. n;
  signed_string = λ k m. write_token m;
  parse = λ kf now s. with_key (kf (header s)) s;
}

written :
    (m : MapClaims) (s : Text)
    → write_token m ≡ some s
    → (u : ℕ) × (b : ℕ) × (i : ℕ) × (x : ℕ) × (t : Text) × (m user_id_claim
        ≡ some (int_claim (pos u)))
      × (m biz_id_claim ≡ some (int_claim (pos b)))
      × (m iat_claim ≡ some (int_claim (pos i)))
      × (m exp_claim ≡ some (int_claim (pos x)))
      × (m iss_claim ≡ some (str_claim t))
      × (1 ∷ u ∷ b ∷ i ∷ x ∷ t ≡ s)
written m s e =
    let (u, eu, e1) = bound (nat_of (m user_id_claim)) _ s e in
    let (b, eb, e2) = bound (nat_of (m biz_id_claim)) _ s e1 in
    let (i, ei, e3) = bound (nat_of (m iat_claim)) _ s e2 in
    let (x, ex, e4) = bound (nat_of (m exp_claim)) _ s e3 in
    let (t, et, e5) = bound (text_of (m iss_claim)) _ s e4 in
    (
      u,
      b,
      i,
      x,
      t,
      nat_claim _ u eu,
      nat_claim _ b eb,
      nat_claim _ i ei,
      nat_claim _ x ex,
      text_claim _ t et,
      ground arith,
    )

pub plain-IsJwt : IsJwt plain header
plain-IsJwt = record {
  exact = λ n h. refl;
  compact = λ k s m e. let (u, b, i, x, t, _, _, _, _, _, h) = written m s e in rw⁻¹ h refl;
  accepts = λ k s m kf now later e h _ _ _.
      let (u, b, i, x, t, eu, eb, ei, ex, et, same) = written m s e in
      (
        read_claims u b i x t,
        rw (sym same, h) refl,
        (rw eu refl, (rw eb refl, (rw ei refl, (rw ex refl, (rw et refl, tt))))),
      );
  asks = λ s kf now h. rw h refl;
}

abbrev pub signer : Token
signer = record { key = 107 ∷ []; issuer = 103 ∷ [] }

abbrev pub carol : UserClaims
carol = record { user_id = pos 7; biz_id = pos 2; issued_at = none; expires_at = none; issuer = [] }

abbrev pub carols_token : Text
carols_token = 1 ∷ 7 ∷ 2 ∷ 1000 ∷ 87400 ∷ 103 ∷ []

pub encode-carol : encode plain signer (pos 1000) carol ≡ some carols_token
unfolding encode encode_claims wrap64 ◌+ℤ◌
encode-carol = refl

decode-encode_example :
    (decode plain signer (pos 2000) carols_token ≡ ok (filled signer (pos 1000) carol))
    × (decode plain signer (pos 2000) (bearer ++ carols_token)
        ≡ ok (filled signer (pos 1000) carol))
unfolding wrap64 ◌+ℤ◌
decode-encode_example =
    decode-encode plain header plain-IsJwt signer (pos 1000) (pos 2000) carol carols_token
      encode-carol (omega arith) (omega arith) (omega arith) (omega arith) (omega arith)
