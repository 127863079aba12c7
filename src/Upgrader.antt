-- ===== src/Upgrader.antt =====
-- internal/upgrader/upgrader.go: the handshake of a connection. The WebSocket library calls OnRequest with
-- the URI, OnHeader with each header and OnBeforeUpgrade, and ends the handshake at the first error.
pub mod Admission
pub mod Tests
use ws_gateway.Common.{ℕ, Bool, true, false, Option, none, some, List, [], ◌∷◌, ◌++◌, if◌then◌else◌}
use ws_gateway.Common.Int.{ℤ}
use ws_gateway.Common.Keys.{Text, ◌=?◌, text_eq}
use ws_gateway.Errors.{Error, Result, ok, err, invalid_uri, invalid_user_token, other}
use ws_gateway.Links.Manager.{UserInfo}
use ws_gateway.Session.{Redis, Answer, built, value, done, failed, build}
use ws_gateway.Tokens.{Jwt, Token, UserClaims, decode}

-- What the library and the client bring: the value of the query's parameter "token", for a URI that
-- parses, strings.EqualFold with "X-AutoClose", and how the negotiation of the compression ends.
pub record Platform : Type 1 where
  pub query_token : Text → Option Text
  pub is_auto_close_key : Text → Bool
  -- Whether the library finds the headers in order, before OnBeforeUpgrade.
  pub well_formed : Bool
  -- Whether the library answers the handshake itself, after OnBeforeUpgrade.
  pub answers : Bool
  -- Whether the extension was accepted, where it was offered.
  pub negotiated : Bool

-- "true"
abbrev pub true_text : Text
true_text = 116 ∷ 114 ∷ 117 ∷ 101 ∷ []

module _ (J : Jwt) (R : Redis) (P : Platform) where
  open R use {Store}

  abbrev pub info_of : Result UserClaims → Result UserInfo
  info_of (err e) = err (invalid_user_token ∷ e)
  info_of (ok c) = ok (record { biz_id = c.biz_id; user_id = c.user_id; auto_close = false })

  abbrev pub info_of_token : Token → ℤ → Option Text → Result UserInfo
  info_of_token t now none = err (invalid_uri ∷ [])
  info_of_token t now (some s) = info_of (decode J t now s)

  unfoldable pub get_user_info : Token → ℤ → Text → Result UserInfo
  get_user_info t now uri = info_of_token t now (P.query_token uri)

  -- The headers in their order; a later one counts.
  unfoldable pub on_headers : List (Text × Text) → Bool → Bool
  on_headers [] auto = auto
  on_headers ((k, v) ∷ hs) auto =
      on_headers hs (if P.is_auto_close_key k then v =? true_text else auto)

  -- The session that OnBeforeUpgrade builds, with the error of a build that failed. A session that
  -- existed is taken as it is.
  abbrev pub session_of : UserInfo → Answer → Result UserInfo
  session_of u (built is_new) = ok u
  session_of u _ = err (other ∷ [])

  unfoldable pub on_before_upgrade : UserInfo → Text → Bool → Store → Result UserInfo × Store
  on_before_upgrade u login auto s =
      let user = record u { auto_close = auto } in
      let b = build R user login s in (session_of user b.0, b.1)

  -- The state of the compression is `none` where it is off or was not accepted.
  abbrev pub ended : Bool → Result UserInfo → Result (UserInfo × Option Bool)
  ended enabled (err e) = err e
  ended enabled (ok u) =
      if P.answers
      then ok (u, if enabled then (if P.negotiated then some true else none) else none)
      else err (other ∷ [])

  abbrev pub after_request :
      Bool
      → List (Text × Text)
      → Text
      → Result UserInfo
      → Store
      → Result (UserInfo × Option Bool) × Store
  after_request enabled hs login (err e) s = (err e, s)
  after_request enabled hs login (ok u) s =
      let r = on_before_upgrade u login (on_headers hs false) s in
      if P.well_formed then (ended enabled r.0, r.1) else (err (other ∷ []), s)

  -- `enabled` is the configuration of the compression.
  unfoldable pub upgrade :
      Bool
      → Token
      → ℤ
      → Text
      → List (Text × Text)
      → Text
      → Store
      → Result (UserInfo × Option Bool) × Store
  upgrade enabled t now uri hs login s = after_request enabled hs login (get_user_info t now uri) s
