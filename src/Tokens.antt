-- ===== src/Tokens.antt =====
-- pkg/jwt/jwt.go and user_jwt.go: the tokens of users. A Go map of claims is a function; times are in
-- seconds, and the clock is an argument. The JWT library and float64 are parameters.
pub mod RoundTrip
pub mod Tests
use ws_gateway.Common.{
  ℕ, Bool, true, false, Option, none, some, List, [], ◌∷◌, ◌++◌, if◌then◌else◌, ◌==◌,
}
use ws_gateway.Common.Int.{ℤ, pos, add64}
use ws_gateway.Common.Keys.{Text, ◌=?◌, text_eq}
use ws_gateway.Errors.{Error, Result, ok, err, decode_token_failed, invalid_token, other}

-- A claim as the code writes it, and as the library gives it back.
pub data Claim : Type 0 where
  int_claim : ℤ → Claim
  str_claim : Text → Claim

pub data Received (F : Type 0) : Type 0 where
  float : F → Received F
  string : Text → Received F
  otherwise : Received F

abbrev pub MapClaims : Type 0
MapClaims = Text → Option Claim

-- golang-jwt: `SignedString` with HS256, and `Parse` with the function that picks the key by whether the
-- token's method is an HMAC, at a time; float64 with Go's conversions from and to int64.
pub record Jwt : Type 1 where
  pub F : Type 0
  pub to_float : ℤ → F
  pub of_float : F → ℤ
  pub signed_string : Text → MapClaims → Option Text
  pub parse : (Bool → Option Text) → ℤ → Text → Option (Bool × (Text → Option (Received F)))

pub record Token : Type 0 where
  pub key : Text
  pub issuer : Text

pub record UserClaims : Type 0 where
  pub user_id : ℤ
  pub biz_id : ℤ
  pub issued_at : Option ℤ
  pub expires_at : Option ℤ
  pub issuer : Text

-- "user_id", "biz_id", "iat", "exp", "iss" and "Bearer "
abbrev pub user_id_claim : Text
user_id_claim = 117 ∷ 115 ∷ 101 ∷ 114 ∷ 95 ∷ 105 ∷ 100 ∷ []

abbrev pub biz_id_claim : Text
biz_id_claim = 98 ∷ 105 ∷ 122 ∷ 95 ∷ 105 ∷ 100 ∷ []

abbrev pub iat_claim : Text
iat_claim = 105 ∷ 97 ∷ 116 ∷ []

abbrev pub exp_claim : Text
exp_claim = 101 ∷ 120 ∷ 112 ∷ []

abbrev pub iss_claim : Text
iss_claim = 105 ∷ 115 ∷ 115 ∷ []

abbrev pub bearer : Text
bearer = 66 ∷ 101 ∷ 97 ∷ 114 ∷ 101 ∷ 114 ∷ 32 ∷ []

-- strings.TrimPrefix
abbrev pub cut_prefix : Text → Text → Option Text
cut_prefix [] s = some s
cut_prefix (p ∷ ps) [] = none
cut_prefix (p ∷ ps) (c ∷ cs) = if p == c then cut_prefix ps cs else none

abbrev pub or_else {ℓ} : {A : Type ℓ} → Option A → A → A
or_else none x = x
or_else (some y) x = y

abbrev pub trim_prefix : Text → Text → Text
trim_prefix p s = or_else (cut_prefix p s) s

abbrev pub overlay {ℓ} : {A : Type ℓ} → Option A → Option A → Option A
overlay none o = o
overlay (some x) o = some x

-- `claims[k] = v` where there is a value.
abbrev pub put : Text → Option Claim → MapClaims → MapClaims
put k o m j = if k =? j then overlay o (m j) else m j

abbrev pub int_of : Option ℤ → Option Claim
int_of none = none
int_of (some n) = some (int_claim n)

abbrev pub str_of : Text → Option Claim
str_of [] = none
str_of (c ∷ cs) = some (str_claim (c ∷ cs))

abbrev pub day : ℤ
day = pos 86400

-- The expiry where `exp` is not set yet.
abbrev pub default_exp : ℤ → MapClaims → MapClaims
default_exp now m = put exp_claim (overlay (m exp_claim) (some (int_claim (add64 now day)))) m

abbrev pub no_claims : MapClaims
no_claims k = none

module _ (J : Jwt) where
  open J use {F}

  -- The claims that `Token.Encode` signs.
  abbrev pub merged : Token → ℤ → MapClaims → MapClaims
  merged t now custom = default_exp now (λ k. overlay (custom k) (
      put iss_claim (some (str_claim t.issuer)) (put iat_claim (some (int_claim now)) no_claims) k))

  unfoldable pub encode_claims : Token → ℤ → MapClaims → Option Text
  encode_claims t now custom = J.signed_string t.key (merged t now custom)

  abbrev pub key_func : Token → Bool → Option Text
  key_func t is_hmac = if is_hmac then some t.key else none

  abbrev pub checked :
      Option (Bool × (Text → Option (Received F))) → Result (Text → Option (Received F))
  checked none = err (decode_token_failed ∷ other ∷ [])
  checked (some (valid, claims)) = if valid then ok claims else err (invalid_token ∷ [])

  unfoldable pub decode_claims : Token → ℤ → Text → Result (Text → Option (Received F))
  decode_claims t now s = checked (J.parse (key_func t) now (trim_prefix bearer s))

  abbrev pub user_map_claims : ℤ → UserClaims → MapClaims
  user_map_claims now uc = default_exp now (
      put iss_claim (str_of uc.issuer) (
        put exp_claim (int_of uc.expires_at) (
          put iat_claim (int_of uc.issued_at) (
            put biz_id_claim (some (int_claim uc.biz_id))
              (put user_id_claim (some (int_claim uc.user_id)) no_claims)))))

  unfoldable pub encode : Token → ℤ → UserClaims → Option Text
  encode t now uc = encode_claims t now (user_map_claims now uc)

  -- The type assertions to float64 and to string.
  abbrev pub as_int : Option (Received F) → Option ℤ
  as_int (some (float x)) = some (J.of_float x)
  as_int _ = none

  abbrev pub as_text : Option (Received F) → Text
  as_text (some (string s)) = s
  as_text _ = []

  abbrev pub user_claims : (Text → Option (Received F)) → UserClaims
  user_claims m = record {
    user_id = or_else (as_int (m user_id_claim)) (pos 0);
    biz_id = or_else (as_int (m biz_id_claim)) (pos 0);
    issued_at = as_int (m iat_claim);
    expires_at = as_int (m exp_claim);
    issuer = as_text (m iss_claim);
  }

  abbrev pub decoded : Result (Text → Option (Received F)) → Result UserClaims
  decoded (err e) = err e
  decoded (ok m) = ok (user_claims m)

  unfoldable pub decode : Token → ℤ → Text → Result UserClaims
  decode t now s = decoded (decode_claims t now s)
