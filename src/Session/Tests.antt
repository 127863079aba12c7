-- ===== src/Session/Tests.antt =====
-- pkg/session/session.go: a Redis that fails when it is told to, and the theorem at a concrete input.
use ws_gateway.Common.{◌≡◌, refl, false, ◌&&◌, some, List, [], ◌∷◌, arith, if◌then◌else◌, is_some}
use ws_gateway.Common.Int.{pos}
use ws_gateway.Common.Keys.{Text, ◌=?◌, =?_iff, text_eq}
use ws_gateway.Common.Map.{lookup, insert, delete, lookup-insert, lookup-delete}
use ws_gateway.Links.Manager.{UserInfo}
use ws_gateway.Session.{
  Redis, Fate, answers, refused, unanswered, Answer, Call, builds, gets, sets, destroys, run,
}
use ws_gateway.Session.Refinement.{
  Fields, Sessions, with_field, fields_of, view, replay, fates, run_refines,
}

abbrev Hashes : Type 0
Hashes = List (Text × Fields) × List Fate

abbrev next_fate : Hashes → Fate × Hashes
next_fate (h, []) = (answers, (h, []))
next_fate (h, b ∷ bs) = (b, (h, bs))

abbrev fields_at : Text → Hashes → Fields
fields_at k s = fields_of (lookup k s.0)

abbrev write : Text → Text → Text → Hashes → Hashes
write k f v s = (insert k (with_field f v (fields_at k s)) s.0, s.1)

pub fields_at-next_fate :
    (k f : Text) (s : Hashes) → fields_at k (next_fate s).1 f ≡ fields_at k s f
fields_at-next_fate k f (h, []) = refl
fields_at-next_fate k f (h, b ∷ bs) = refl

pub lookup-next_fate :
    (k : Text) (s : Hashes) → is_some (lookup k (next_fate s).1.0) ≡ is_some (lookup k s.0)
lookup-next_fate k (h, []) = refl
lookup-next_fate k (h, b ∷ bs) = refl

pub fields_at-write :
    (k j f g v : Text) (s : Hashes)
    → fields_at j (write k f v s) g ≡ (if k =? j && f =? g then some v else fields_at j s g)
fields_at-write k j f g v s =
    ground (arith, lookup-insert k j (with_field f v (fields_at k s)) s.0, =?_iff k j, =?_iff f g)

abbrev pub toy : Redis
toy = record {
  Store = Hashes;
  hget = λ k f s. fields_at k s f;
  exists = λ k s. is_some (lookup k s.0);
  hset = write;
  del = λ k s. (delete k s.0, s.1);
  fate = next_fate;
  fate-hget = fields_at-next_fate;
  fate-exists = lookup-next_fate;
  hset-hget = fields_at-write;
  hset-exists = λ k j f v s.
      ground (arith, lookup-insert k j (with_field f v (fields_at k s)) s.0, =?_iff k j);
  del-hget = λ k j g s. ground (arith, lookup-delete k j s.0, =?_iff k j);
  del-exists = λ k j s. ground (arith, lookup-delete k j s.0, =?_iff k j);
  absent-hget = λ k f s e. ground arith;
}

abbrev alice : UserInfo
alice = record { biz_id = pos 1; user_id = pos 2; auto_close = false }

abbrev calls : List Call
calls =
    builds alice (49 ∷ [])
    ∷ sets alice (7 ∷ []) (8 ∷ [])
    ∷ builds alice (50 ∷ [])
    ∷ gets alice (7 ∷ [])
    ∷ destroys alice
    ∷ []

abbrev start : Hashes
start = ([], answers ∷ unanswered ∷ refused ∷ [])

run_refines_example :
    ◌≡◌ {A = List Answer × Sessions}
      ((run toy calls start).0, view toy (run toy calls start).1)
      (replay toy calls (fates toy calls start) (view toy start))
run_refines_example = run_refines toy calls start
