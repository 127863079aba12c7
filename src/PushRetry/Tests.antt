-- ===== src/PushRetry/Tests.antt =====
-- pkg/pushretry/manager.go: runs of the manager over a concrete map and links, and the theorems at
-- concrete inputs. A link is its own name, a message is a number that each push raises, and the
-- world counts pushes; pushes on the link 9 fail.
use ws_gateway.Common.{ℕ, ◌+◌, ◌≤◌, ◌≡◌, refl, true, false, none, some, List, [], ◌∷◌, arith, ◌==◌}
use ws_gateway.Common.Int.{pos, ◌+ℤ◌}
use ws_gateway.Common.Keys.{Text, nat_eq, text_eq}
use ws_gateway.Common.Map.{lookup, insert, delete}
use ws_gateway.Common.SyncMap.{list_map}
use ws_gateway.PushRetry.{
  LinkApi, Manager, Task, new_manager, start, stop, stop_and_delete_task, fire, begin_fire,
  end_fire, get_stats,
}
use ws_gateway.PushRetry.Invariant.{IsWellFormed}
use ws_gateway.PushRetry.Retries.{fires, fires_end}
use ws_gateway.PushRetry.Budget.{fires-sends}
use ws_gateway.PushRetry.Races.{stop_in_push_lem, on_again, sent}
use ws_gateway.PushRetry.History.{Call, starts, run, step, history-IsWellFormed}

abbrev links : LinkApi
links = record {
  Link = ℕ;
  Message = ℕ;
  World = ℕ;
  link_id = λ l. l ∷ [];
  push = λ l msg w. (l == 9, msg + 1, w + 1);
  update_active_time = λ l w. w;
}

abbrev key_a : Text
key_a = b'a' ∷ []

abbrev key_b : Text
key_b = b'b' ∷ []

abbrev M : Type 0
M = Manager (list_map Text ℕ) links

abbrev calls : List (Call (list_map Text ℕ) links)
calls = starts key_a 1 100 ∷ starts key_b 2 200 ∷ starts key_a 1 300 ∷ []

abbrev two : M
two = (run (list_map Text ℕ) links calls (new_manager (list_map Text ℕ) links (pos 3), 0)).0

two_stats : get_stats (list_map Text ℕ) links two ≡ pos 2
unfolding get_stats run step start new_manager lookup insert ◌+ℤ◌
two_stats = refl

-- Two firings send twice, the third drops the task.
two-fires :
    fires (list_map Text ℕ) links 2 0 two 0
    ≡ ((fires (list_map Text ℕ) links 1 0 (fire (list_map Text ℕ) links 0 two 0).0 1).0, 2)
unfolding fires fire run step start new_manager lookup insert delete stop_and_delete_task ◌+ℤ◌
two-fires = refl

two-IsWellFormed : IsWellFormed (list_map Text ℕ) links two
two-IsWellFormed = history-IsWellFormed (list_map Text ℕ) links (pos 3) calls 0

abbrev task_a : Task (list_map Text ℕ) links
task_a = record { key = key_a; link = 1; message = 100; armed = true; retry_count = 0 }

fires_end_example : lookup key_a (fires (list_map Text ℕ) links 3 0 two 0).0.tasks.entries ≡ none
unfolding run step start new_manager lookup insert
fires_end_example =
    fires_end (list_map Text ℕ) links 3 0 task_a two 0 two-IsWellFormed refl refl (omega arith)
      (omega arith)

fires-sends_example : (fires (list_map Text ℕ) links 7 0 two 0).1 + 0 ≤ 0 + 2
unfolding run step start new_manager lookup insert
fires-sends_example =
    fires-sends (list_map Text ℕ) links (λ w. w) (λ l msg w. refl) (λ l w. refl) 7 2 0 task_a two 0
      refl two-IsWellFormed refl refl (omega arith)

-- The key is stopped while its first retransmission is sent, and started again with another message.
stop_in_push_lem_example :
    let b = begin_fire (list_map Text ℕ) links 0 two 0 in
    let stopped = stop (list_map Text ℕ) links key_a b.1 in
    let m' = (end_fire (list_map Text ℕ) links 0 b.0 stopped b.2).0 in
    let old = sent (list_map Text ℕ) links task_a 0 in
    (lookup key_a stopped.tasks.entries ≡ none)
    × (lookup key_a m'.tasks.entries ≡ none)
    × (lookup 0 m'.heap ≡ some (on_again (list_map Text ℕ) links old))
    × ((begin_fire (list_map Text ℕ) links 0 (start (list_map Text ℕ) links key_a 1 900 m') 5).0
        ≡ some (false, sent (list_map Text ℕ) links (on_again (list_map Text ℕ) links old) 5))
unfolding run step start new_manager lookup insert
stop_in_push_lem_example =
    stop_in_push_lem (list_map Text ℕ) links 0 task_a two 0 5 1 900 refl refl refl (omega arith)
      refl refl refl refl
