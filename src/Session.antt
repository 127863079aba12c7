-- ===== src/Session.antt =====
-- pkg/session/session.go: the sessions of users, as hashes in Redis.
-- Redis is a parameter with the documented behaviour of its commands; a script runs atomically, and a
-- command that answers an error may have been executed or not. A `redisSession` is its user; the clock is an argument.
pub mod Keys
pub mod Refinement
pub mod Tests
use ws_gateway.Common.{
  ℕ, ◌≡◌, Bool, true, false, Option, none, some, List, [], ◌∷◌, ◌++◌, if◌then◌else◌, ◌&&◌,
}
use ws_gateway.Common.Int.{ℤ}
use ws_gateway.Common.Keys.{Text, ◌=?◌, text_eq}
use ws_gateway.Common.Format.{show_int}
use ws_gateway.Links.Manager.{UserInfo}

-- What becomes of a command: it is executed and answered, not executed, or executed while its answer is
-- lost, as when it times out.
pub data Fate : Type 0 where
  answers refused unanswered : Fate

pub record Redis : Type 1 where
  pub Store : Type 0
  -- HGET and EXISTS of a server that is reached.
  pub hget : Text → Text → Store → Option Text
  pub exists : Text → Store → Bool
  pub hset : Text → Text → Text → Store → Store
  pub del : Text → Store → Store
  -- The fate of the next command, which is told before it is executed.
  pub fate : Store → Fate × Store
  pub fate-hget : (k f : Text) (s : Store) → hget k f (fate s).1 ≡ hget k f s
  pub fate-exists : (k : Text) (s : Store) → exists k (fate s).1 ≡ exists k s
  pub hset-hget :
      (k j f g v : Text) (s : Store)
      → hget j g (hset k f v s) ≡ (if k =? j && f =? g then some v else hget j g s)
  pub hset-exists :
      (k j f v : Text) (s : Store) → exists j (hset k f v s) ≡ (if k =? j then true else exists j s)
  pub del-hget :
      (k j g : Text) (s : Store) → hget j g (del k s) ≡ (if k =? j then none else hget j g s)
  pub del-exists :
      (k j : Text) (s : Store) → exists j (del k s) ≡ (if k =? j then false else exists j s)
  -- A key that does not exist has no field.
  pub absent-hget : (k f : Text) (s : Store) → exists k s ≡ false → hget k f s ≡ none

-- "gateway:session:bizId:", ":userId:" and "loginTime"
abbrev pub key_prefix : Text
key_prefix =
    103 ∷ 97 ∷ 116 ∷ 101 ∷ 119 ∷ 97 ∷ 121 ∷ 58 ∷ 115 ∷ 101 ∷ 115 ∷ 115 ∷ 105 ∷ 111 ∷ 110 ∷ 58 ∷ 98
    ∷ 105 ∷ 122 ∷ 73 ∷ 100 ∷ 58 ∷ []

abbrev pub key_infix : Text
key_infix = 58 ∷ 117 ∷ 115 ∷ 101 ∷ 114 ∷ 73 ∷ 100 ∷ 58 ∷ []

abbrev pub login_time : Text
login_time = 108 ∷ 111 ∷ 103 ∷ 105 ∷ 110 ∷ 84 ∷ 105 ∷ 109 ∷ 101 ∷ []

-- `key` of a session.
unfoldable pub session_key : UserInfo → Text
session_key u = key_prefix ++ (show_int u.biz_id ++ (key_infix ++ show_int u.user_id))

-- How `initialize` ends.
pub data Initialized : Type 0 where
  created existed create_failed : Initialized

-- What a call answers: of `Build` whether the session is new, of `Get` the field's value, which is the
-- zero value where there is none.
pub data Answer : Type 0 where
  built : Bool → Answer
  value : Option Text → Answer
  done failed : Answer

pub data Call : Type 0 where
  builds : UserInfo → Text → Call
  gets : UserInfo → Text → Call
  sets : UserInfo → Text → Text → Call
  destroys : UserInfo → Call

module _ (R : Redis) where
  open R use {Store}

  -- The script `luaSetSessionIfNotExist` with one field.
  unfoldable pub set_session_if_not_exist : Text → Text → Text → Store → Bool × Store
  set_session_if_not_exist k f v s = if R.exists k s then (false, s) else (true, R.hset k f v s)

  -- What the caller gets, with `e` for an error, from what the command does at a store.
  unfoldable pub carry : {A : Type 0} → A → Fate → A × Store → Store → A × Store
  carry e answers r s = r
  carry e refused r s = (e, s)
  carry e unanswered r s = (e, r.1)

  abbrev pub initialized : Bool × Store → Initialized × Store
  initialized (is_new, s) = (if is_new then created else existed, s)

  unfoldable pub initialize : UserInfo → Text → Store → Initialized × Store
  initialize u now s =
      let a = R.fate s in
      carry create_failed a.0
        (initialized (set_session_if_not_exist (session_key u) login_time now a.1)) a.1

  unfoldable pub get : UserInfo → Text → Store → Answer × Store
  get u f s = let a = R.fate s in carry failed a.0 (value (R.hget (session_key u) f a.1), a.1) a.1

  unfoldable pub set : UserInfo → Text → Text → Store → Answer × Store
  set u f v s = let a = R.fate s in carry failed a.0 (done, R.hset (session_key u) f v a.1) a.1

  unfoldable pub destroy : UserInfo → Store → Answer × Store
  destroy u s = let a = R.fate s in carry failed a.0 (done, R.del (session_key u) a.1) a.1

  unfoldable pub build_answer : Initialized → Answer
  build_answer created = built true
  build_answer existed = built false
  build_answer create_failed = failed

  unfoldable pub build : UserInfo → Text → Store → Answer × Store
  build u now s = let i = initialize u now s in (build_answer i.0, i.1)

  unfoldable pub step : Call → Store → Answer × Store
  step (builds u now) s = build u now s
  step (gets u f) s = get u f s
  step (sets u f v) s = set u f v s
  step (destroys u) s = destroy u s

  unfoldable pub run : List Call → Store → List Answer × Store
  run [] s = ([], s)
  run (c ∷ cs) s = let r = step c s in let rest = run cs r.1 in (r.0 ∷ rest.0, rest.1)
