-- ===== src/PushRetry.antt =====
-- pkg/pushretry/manager.go: the manager of downstream retransmissions.
-- A `*Task` is a reference into `heap`; the map `tasks` and the timers share it. Each method is one
-- step, the three calls of `Start` on the map, the timer and the counter included; `begin_fire` and
-- `end_fire` are the two halves of a retry, around its push. A timer is armed or not (`armed`), and firing it runs `retry`. The atomic counters do
-- not wrap. What a link does (`push_func`, `UpdateActiveTime`) is the interface `LinkApi`.
pub mod Invariant
pub mod Stopping
pub mod Retries
pub mod Budget
pub mod History
pub mod Races
pub mod Tests
use ws_gateway.Common.{
  ℕ, suc, ◌+◌, ◌≡◌, Bool, true, false, not, Option, none, some, List, [], ◌∷◌, if◌then◌else◌,
  is_some,
}
use ws_gateway.Common.Int.{ℤ, pos, negsuc, ◌+ℤ◌, leb_ℤ}
use ws_gateway.Common.Keys.{Text, ◌=?◌, nat_eq, text_eq}
use ws_gateway.Common.Map.{lookup, insert}
use ws_gateway.Common.SyncMap.{SyncMap}

-- A link and the function that sends on it. `push` may change the message, which is shared with
-- its caller, and the world; its Boolean says that it returned an error.
pub record LinkApi : Type 1 where
  pub Link : Type 0
  pub Message : Type 0
  pub World : Type 0
  pub link_id : Link → Text
  pub push : Link → Message → World → Bool × Message × World
  pub update_active_time : Link → World → World

abbrev pub on_link : Text → Option Text → Bool
on_link id none = false
on_link id (some j) = j =? id

module _ (S : SyncMap Text ℕ) (I : LinkApi) where
  open S use {Store, empty, load, store, remove, range}
  open I use {Link, Message, World, link_id, push, update_active_time}

  pub record Task : Type 0 where
    pub key : Text
    pub link : Link
    pub message : Message
    -- `timerPtr` holds a timer that has neither fired nor been stopped.
    pub armed : Bool
    pub retry_count : ℕ

  pub record Manager : Type 0 where
    pub tasks : Store
    pub heap : List (ℕ × Task)
    pub next : ℕ
    pub total_tasks : ℤ
    pub max_retries : ℤ
    pub closed : Bool

  unfoldable pub new_manager : ℤ → Manager
  new_manager n = record {
    tasks = empty;
    heap = [];
    next = 0;
    total_tasks = pos 0;
    max_retries = n;
    closed = false;
  }

  -- The allocation, the new entry, the timer and the counter of `Start`.
  add_task : Text → Link → Message → Manager → Manager
  add_task key link message m = record m {
    tasks = store key m.next m.tasks;
    heap =
        insert m.next
          (record { key = key; link = link; message = message; armed = true; retry_count = 0 })
          m.heap;
    next = suc m.next;
    total_tasks = m.total_tasks +ℤ pos 1;
  }

  unfoldable pub start : Text → Link → Message → Manager → Manager
  unfolding add_task
  start key link message m =
      if m.closed then m else if is_some (load key m.tasks) then m else add_task key link message m

  -- `task.stop()`: the timer does not fire any more.
  disarm : ℕ → List (ℕ × Task) → List (ℕ × Task)
  disarm i heap = elim (lookup i heap) [
    | none ↦ heap
    | some t ↦ insert i (record t { armed = false }) heap
  ]

  unfoldable pub stop_and_delete_task : Text → Manager → Manager × Bool
  unfolding disarm
  stop_and_delete_task key m = elim (load key m.tasks) [
    | none ↦ (m, false)
    | some i ↦ (
      record m {
        tasks = remove key m.tasks;
        heap = disarm i m.heap;
        total_tasks = m.total_tasks +ℤ negsuc 0;
      },
      true,
    )
  ]

  unfoldable pub stop : Text → Manager → Manager
  stop key m = elim (load key m.tasks) [ none ↦ m | some i ↦ (stop_and_delete_task key m).0 ]

  -- The link of the task that a reference stands for.
  pub link_of : ℕ → Manager → Option Text
  link_of i m = elim (lookup i m.heap) [ none ↦ none | some t ↦ some (link_id t.link) ]

  -- The body of `Range` in `StopByLinkID` at one entry; the number is `taskCount`.
  pub visit : Text → Text × ℕ → Manager × ℕ → Manager × ℕ
  visit id (key, i) (m, n) =
      if on_link id (link_of i m)
      then ((stop_and_delete_task key m).0, if (stop_and_delete_task key m).1 then n + 1 else n)
      else (m, n)

  pub stop_loop : Text → List (Text × ℕ) → Manager × ℕ → Manager × ℕ
  stop_loop id [] r = r
  stop_loop id (e ∷ es) r = stop_loop id es (visit id e r)

  unfoldable pub stop_by_link_id : Text → Manager → Manager × ℕ
  stop_by_link_id id m = stop_loop id (range m.tasks) (m, 0)

  unfoldable pub get_stats : Manager → ℤ
  get_stats m = m.total_tasks

  pub close_loop : List (Text × ℕ) → Manager → Manager
  close_loop [] m = m
  close_loop ((key, i) ∷ rest) m = close_loop rest (stop_and_delete_task key m).0

  unfoldable pub close : Manager → Manager
  close m = let c : Manager = record m { closed = true } in close_loop (range m.tasks) c

  -- The part of `retry` after the existence check, on the task itself.
  resend : ℕ → Task → Manager → World → Manager × World
  resend i t m w =
      let counted : Task = record t { armed = false; retry_count = t.retry_count + 1 } in
      let (failed, message, w') = push t.link t.message w in
      let pushed : Task = record counted { message = message } in
      if leb_ℤ m.max_retries (pos counted.retry_count)
      then ((stop_and_delete_task t.key (record m { heap = insert i counted m.heap })).0, w)
      else if failed
      then ((stop_and_delete_task t.key (record m { heap = insert i pushed m.heap })).0, w')
      else (
        record m { heap = insert i (record pushed { armed = true }) m.heap },
        update_active_time t.link w',
      )

  -- `task.retry`, run by the timer: the timer is spent, and a task whose key is gone does nothing.
  retry_task : ℕ → Task → Manager → World → Manager × World
  unfolding resend
  retry_task i t m w =
      if is_some (load t.key m.tasks)
      then resend i t m w
      else (record m { heap = insert i (record t { armed = false }) m.heap }, w)

  -- The timer of task `i` fires. Only an armed timer can.
  unfoldable pub fire : ℕ → Manager → World → Manager × World
  unfolding retry_task
  fire i m w = elim (lookup i m.heap) [
    | none ↦ (m, w)
    | some t ↦ if t.armed then retry_task i t m w else (m, w)
  ]

  -- The two halves of `retry`, between which its caller is in `pushFunc` and other calls may come: up to
  -- the answer of `pushFunc`, which is given with the task if there was a push; and what follows.
  abbrev pub begun : ℕ → Task → Manager → World → Option (Bool × Task) × Manager × World
  begun i t m w =
      let counted : Task = record t { armed = false; retry_count = t.retry_count + 1 } in
      let (failed, message, w') = push t.link t.message w in
      let pushed : Task = record counted { message = message } in
      if leb_ℤ m.max_retries (pos counted.retry_count)
      then (none, (stop_and_delete_task t.key (record m { heap = insert i counted m.heap })).0, w)
      else (some (failed, pushed), record m { heap = insert i pushed m.heap }, w')

  unfoldable pub begin_fire : ℕ → Manager → World → Option (Bool × Task) × Manager × World
  begin_fire i m w = elim (lookup i m.heap) [
    | none ↦ (none, m, w)
    | some t ↦
        if t.armed
        then (if is_some (load t.key m.tasks)
            then begun i t m w
            else (none, record m { heap = insert i (record t { armed = false }) m.heap }, w))
        else (none, m, w)
  ]

  -- The timer of the task is set again.
  abbrev pub rearm : ℕ → List (ℕ × Task) → List (ℕ × Task)
  rearm i heap = elim (lookup i heap) [
    | none ↦ heap
    | some t ↦ insert i (record t { armed = true }) heap
  ]

  unfoldable pub end_fire : ℕ → Option (Bool × Task) → Manager → World → Manager × World
  end_fire i none m w = (m, w)
  end_fire i (some (true, t)) m w = ((stop_and_delete_task t.key m).0, w)
  end_fire i (some (false, t)) m w =
      (record m { heap = rearm i m.heap }, update_active_time t.link w)
