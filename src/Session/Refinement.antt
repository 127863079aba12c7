-- ===== src/Session/Refinement.antt =====
-- pkg/session/session.go against an abstract store: a map from users to their fields.
use ws_gateway.Common.{
  ◌≡◌, refl, ap, sym, ◌∙◌, inl, inr, Bool, true, false, ◌&&◌, Option, none, some, List, [], ◌∷◌,
  arith, if◌then◌else◌, Bool-cases,
}
use mathlib.Core.Path.{fun_ext}
use ws_gateway.Common.Keys.{Text, ◌=?◌, =?_iff, text_eq, int_eq}
use ws_gateway.Links.Manager.{UserInfo}
use ws_gateway.Session.{
  Redis, login_time, session_key, Answer, built, value, done, failed, Call, builds, gets, sets,
  destroys, set_session_if_not_exist, initialize, get, set, destroy, build_answer, build, step, run,
  Fate, answers, refused, unanswered, carry, initialized, Initialized, create_failed,
}
use ws_gateway.Session.Keys.{session_key-injective}

-- The fields of one session, and of every user by business and user id: `none` is no session.
abbrev pub Fields : Type 0
Fields = Text → Option Text

abbrev pub Sessions : Type 0
Sessions = UserInfo → Option Fields

unfoldable pub is_user : UserInfo → UserInfo → Bool
is_user u v = (u.biz_id =? v.biz_id) && (u.user_id =? v.user_id)

abbrev pub no_fields : Fields
no_fields f = none

abbrev pub with_field : Text → Text → Fields → Fields
with_field f v fields g = if f =? g then some v else fields g

abbrev pub fields_of : Option Fields → Fields
fields_of none = no_fields
fields_of (some fields) = fields

abbrev pub put_session : UserInfo → Option Fields → Sessions → Sessions
put_session u o a v = if is_user u v then o else a v

-- What the calls mean.
abbrev pub specify_build : UserInfo → Text → Option Fields → Sessions → Answer × Sessions
specify_build u now (some fields) a = (built false, a)
specify_build u now none a =
    (built true, put_session u (some (with_field login_time now no_fields)) a)

abbrev pub specify : Call → Sessions → Answer × Sessions
specify (builds u now) a = specify_build u now (a u) a
specify (gets u f) a = (value (fields_of (a u) f), a)
specify (sets u f v) a = (done, put_session u (some (with_field f v (fields_of (a u)))) a)
specify (destroys u) a = (done, put_session u none a)

abbrev pub is_failed : Answer → Bool
is_failed failed = true
is_failed _ = false

same_key :
    (u v : UserInfo) → u.biz_id ≡ v.biz_id → u.user_id ≡ v.user_id → session_key u ≡ session_key v
unfolding session_key
same_key u v b i = cc (b, i)

module _ (R : Redis) where
  open R use {Store}

  -- The sessions that Redis holds.
  abbrev pub view : Store → Sessions
  view s u = if R.exists (session_key u) s then some (λ f. R.hget (session_key u) f s) else none

  key_test : (u v : UserInfo) → (session_key u =? session_key v) ≡ is_user u v
  unfolding is_user
  key_test u v = ground (
    arith,
    =?_iff (session_key u) (session_key v),
    =?_iff u.biz_id v.biz_id,
    =?_iff u.user_id v.user_id,
    session_key-injective u v,
    same_key u v,
  )

  view-fate : (s : Store) → view (R.fate s).1 ≡ view s
  view-fate s = fun_ext λ u. rw (R.fate-exists (session_key u) s) (
      ap (λ fields. if R.exists (session_key u) s then some fields else none)
        (fun_ext λ f. R.fate-hget (session_key u) f s))

  apart : (u v : UserInfo) → is_user u v ≡ false → (session_key u =? session_key v) ≡ false
  apart u v t = key_test u v ∙ t

  together : (u v : UserInfo) → is_user u v ≡ true → session_key u ≡ session_key v
  together u v t = (=?_iff (session_key u) (session_key v)).0 (key_test u v ∙ t)

  view-del :
      (u : UserInfo) (s : Store) → view (R.del (session_key u) s) ≡ put_session u none (view s)
  view-del u s = fun_ext λ v. elim (Bool-cases (is_user u v)) [
    | inl t ↦ rw (R.del-exists (session_key u) (session_key v) s, key_test u v, t) refl
    | inr t ↦
        rw (R.del-exists (session_key u) (session_key v) s, key_test u v, t)
          (ap (λ fields. if R.exists (session_key v) s then some fields else none)
            (fun_ext λ f. R.del-hget (session_key u) (session_key v) f s ∙ rw (apart u v t) refl))
  ]

  fields_of-view :
      (u : UserInfo) (g : Text) (s : Store) → fields_of (view s u) g ≡ R.hget (session_key u) g s
  fields_of-view u g s = elim (Bool-cases (R.exists (session_key u) s)) [
    | inl there ↦ rw there refl
    | inr missing ↦ rw missing (sym (R.absent-hget (session_key u) g s missing))
  ]

  view-hset :
      (u : UserInfo) (f v : Text) (s : Store)
      → view (R.hset (session_key u) f v s)
        ≡ put_session u (some (with_field f v (fields_of (view s u)))) (view s)
  view-hset u f v s = fun_ext λ w. elim (Bool-cases (is_user u w)) [
    | inl t ↦
        rw (R.hset-exists (session_key u) (session_key w) f v s, key_test u w, t)
          (ap some (
            fun_ext λ g.
              R.hset-hget (session_key u) (session_key w) f g v s
              ∙ (rw (key_test u w, t, fields_of-view u g s, together u w t) refl)))
    | inr t ↦
        rw (R.hset-exists (session_key u) (session_key w) f v s, key_test u w, t)
          (ap (λ fields. if R.exists (session_key w) s then some fields else none)
            (fun_ext
              λ g. R.hset-hget (session_key u) (session_key w) f g v s ∙ rw (apart u w t) refl))
  ]

  -- What a call means with the fate of its command.
  abbrev pub specify_under : Fate → Call → Sessions → Answer × Sessions
  specify_under answers c a = specify c a
  specify_under refused c a = (failed, a)
  specify_under unanswered c a = (failed, (specify c a).1)

  abbrev pub replay : List Call → List Fate → Sessions → List Answer × Sessions
  replay [] fs a = ([], a)
  replay (c ∷ cs) [] a = ([], a)
  replay (c ∷ cs) (f ∷ fs) a = (
    (specify_under f c a).0 ∷ (replay cs fs (specify_under f c a).1).0,
    (replay cs fs (specify_under f c a).1).1,
  )

  -- The fates of the calls' commands.
  unfoldable pub fates : List Call → Store → List Fate
  fates [] s = []
  fates (c ∷ cs) s = (R.fate s).0 ∷ fates cs (step R c s).1

  -- A command that means `c` where it is executed means it with its fate.
  carry_refines :
      (c : Call) (f : Fate) (r : Answer × Store) (s : Store)
      → ◌≡◌ {A = Answer × Sessions} (r.0, view r.1) (specify c (view s))
      → ◌≡◌ {A = Answer × Sessions}
          ((carry R failed f r s).0, view (carry R failed f r s).1)
          (specify_under f c (view s))
  unfolding carry
  carry_refines c answers r s e = e
  carry_refines c refused r s e = refl
  carry_refines c unanswered r s e =
      ap {A = Answer × Sessions} {B = Answer × Sessions} (λ p. (failed, p.1)) e

  abbrev created_at : UserInfo → Text → Store → Initialized × Store
  created_at u now s = initialized R (set_session_if_not_exist R (session_key u) login_time now s)

  build_carried :
      (f : Fate) (u : UserInfo) (now : Text) (s : Store)
      → ◌≡◌ {A = Answer × Store}
          (
            build_answer R (carry R create_failed f (created_at u now s) s).0,
            (carry R create_failed f (created_at u now s) s).1,
          )
          (carry R failed f (build_answer R (created_at u now s).0, (created_at u now s).1) s)
  unfolding carry build_answer
  build_carried answers u now s = refl
  build_carried refused u now s = refl
  build_carried unanswered u now s = refl

  create_refines :
      (u : UserInfo) (now : Text) (s : Store)
      → ◌≡◌ {A = Answer × Sessions}
          (build_answer R (created_at u now s).0, view (created_at u now s).1)
          (specify (builds u now) (view s))
  unfolding set_session_if_not_exist build_answer
  create_refines u now s = elim (Bool-cases (R.exists (session_key u) s)) [
    | inl there ↦ rw there refl
    | inr missing ↦
        rw missing (ap (λ a. (built true, a)) (view-hset u login_time now s ∙ rw missing refl))
  ]

  at_fate :
      (c : Call) (s : Store) (r : Answer × Store)
      → ◌≡◌ {A = Answer × Sessions} (r.0, view r.1) (specify c (view (R.fate s).1))
      → ◌≡◌ {A = Answer × Sessions}
          (
            (carry R failed (R.fate s).0 r (R.fate s).1).0,
            view (carry R failed (R.fate s).0 r (R.fate s).1).1,
          )
          (specify_under (R.fate s).0 c (view s))
  at_fate c s r e =
      carry_refines c (R.fate s).0 r (R.fate s).1 e
      ∙ ap (λ a. specify_under (R.fate s).0 c a) (view-fate s)

  step_refines :
      (c : Call) (s : Store)
      → ◌≡◌ {A = Answer × Sessions}
          ((step R c s).0, view (step R c s).1)
          (specify_under (R.fate s).0 c (view s))
  unfolding step build initialize get set destroy
  step_refines (builds u now) s =
      ap {A = Answer × Store} {B = Answer × Sessions} (λ p. (p.0, view p.1))
        (build_carried (R.fate s).0 u now (R.fate s).1)
      ∙ at_fate (builds u now) s _ (create_refines u now (R.fate s).1)
  step_refines (gets u f) s =
      at_fate (gets u f) s _
        (ap (λ x. (value x, view (R.fate s).1)) (sym (fields_of-view u f (R.fate s).1)))
  step_refines (sets u f v) s =
      at_fate (sets u f v) s _ (ap (λ a. (done, a)) (view-hset u f v (R.fate s).1))
  step_refines (destroys u) s =
      at_fate (destroys u) s _ (ap (λ a. (done, a)) (view-del u (R.fate s).1))

  -- Along every sequence of calls the sessions in Redis behave as a map from users, told apart by business
  -- and user id, to their fields: the answers are those of the map and Redis holds what the map
  -- holds. A call whose command is not answered says so, and what it asked for is done in full or, if
  -- the command was not executed, not at all.
  pub run_refines :
      (cs : List Call) (s : Store)
      → ◌≡◌ {A = List Answer × Sessions}
          ((run R cs s).0, view (run R cs s).1)
          (replay cs (fates cs s) (view s))
  unfolding run fates
  run_refines [] s = refl
  run_refines (c ∷ cs) s =
      let later = fates cs (step R c s).1 in
      ap {A = List Answer × Sessions} {B = List Answer × Sessions}
        (λ q. ((step R c s).0 ∷ q.0, q.1)) (run_refines cs (step R c s).1)
      ∙ ap {A = Answer × Sessions} {B = List Answer × Sessions}
          (λ p. (p.0 ∷ (replay cs later p.1).0, (replay cs later p.1).1)) (step_refines c s)
