-- ===== src/BatchProducer/Tests.antt =====
-- internal/event/batch_send_to_backend.go: one request through two rounds of the loop; the world is the
-- payloads that were sent.
use ws_gateway.Common.{ℕ, ◌+◌, ◌≤◌, ◌≡◌, refl, Bool, false, Option, none, some, List, [], ◌∷◌, ◌++◌}
use ws_gateway.Common.Keys.{Text, nat_eq}
use ws_gateway.Common.Map.{lookup, insert, delete}
use ws_gateway.BatchProducer.{
  Request, Producer, Event, reads, iterates, report, publish_all, process, iterate, step, run,
}
use ws_gateway.BatchProducer.Rounds.{reads_of, rounds, rounds_bounded}

abbrev marshal : List ℕ → Option Text
marshal msgs = some msgs

abbrev publish : Text → List Text → Bool × List Text
publish payload w = (false, w ++ payload ∷ [])

abbrev request : Request ℕ
request = record { msg = 65; err_chan = 1 }

abbrev gathered : Producer ℕ (List Text)
gathered = record { req = []; reqs = request ∷ []; chans = []; world = [] }

abbrev two_rounds : List (Event ℕ)
two_rounds = iterates ∷ reads 1 ∷ iterates ∷ []

-- The same payload is sent twice.
abbrev sent_twice : Producer ℕ (List Text)
sent_twice = record gathered { chans = (1, false) ∷ []; world = (65 ∷ []) ∷ (65 ∷ []) ∷ [] }

two_rounds-run : run marshal publish two_rounds gathered ≡ some sent_twice
unfolding run step iterate process publish_all report lookup insert delete
two_rounds-run = refl

third_round : run marshal publish (iterates ∷ []) sent_twice ≡ none
unfolding run step iterate process publish_all report lookup insert
third_round = refl

rounds_bounded_example : rounds marshal publish two_rounds gathered ≤ 1 + reads_of 1 two_rounds
rounds_bounded_example =
    rounds_bounded marshal publish two_rounds gathered sent_twice 0 request refl two_rounds-run
