-- ===== src/Session/Keys.antt =====
-- pkg/session/session.go: the keys of two users.
use ws_gateway.Common.{ℕ, zero, suc, ◌≡◌, refl, ap, Bool, ◌&&◌, [], ◌∷◌, ◌++◌}
use ws_gateway.Common.Int.{ℤ}
use ws_gateway.Common.Keys.{Text, ◌=?◌, text_eq, int_eq}
use ws_gateway.Common.Format.{show_int, show_int-injective}
use ws_gateway.Links.Manager.{UserInfo}
use ws_gateway.Session.{key_infix, session_key}

abbrev drop : ℕ → Text → Text
drop zero t = t
drop (suc n) [] = []
drop (suc n) (c ∷ t) = drop n t

abbrev pub is_same : UserInfo → ℤ → ℤ → Bool
is_same u b i = (u.biz_id =? b) && (u.user_id =? i)

-- Two users with the same key are the same user of the same business.
pub session_key-injective :
    (u v : UserInfo)
    → session_key u ≡ session_key v
    → (u.biz_id ≡ v.biz_id) × (u.user_id ≡ v.user_id)
unfolding session_key
session_key-injective u v e =
    let tails = ap (drop 22) e in
    let (b, rest) =
      show_int-injective 58 u.biz_id v.biz_id (drop 1 (key_infix ++ show_int u.user_id))
        (drop 1 (key_infix ++ show_int v.user_id)) refl tails in
    let ids = ap (λ t. drop 7 t ++ 58 ∷ []) rest in
    (b, (show_int-injective 58 u.user_id v.user_id [] [] refl ids).0)
