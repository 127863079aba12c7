-- ===== src/Links/Manager.antt =====
-- internal/link/manager.go: the links of a node by the identity of their user. `S` is the map
-- `links`, from link ids to references into `heap`; `conn_close` closes a connection. A method is one
-- step, but for `NewLink`, whose two are also given apart: that others may run while `Close` ranges
-- over the map is not modelled.
use ws_gateway.Common.{
  ℕ, suc, ◌+◌, Bool, true, false, ◌||◌, Option, none, some, List, [], ◌∷◌, ◌++◌, if◌then◌else◌,
}
use ws_gateway.Common.Int.{ℤ, pos, negsuc, ◌+ℤ◌, ltb_ℤ, eqb_ℤ}
use ws_gateway.Common.Keys.{Text, nat_eq, text_eq}
use ws_gateway.Common.Map.{lookup, insert}
use ws_gateway.Common.SyncMap.{SyncMap}
use ws_gateway.Common.Format.{show_int, format_key}
use ws_gateway.Errors.{Error, marshal_failed, other}
use ws_gateway.Links.{
  Link, LinkOption, with_timeouts, with_compression, with_retry, with_buffer, with_auto_close,
  with_rate_limit, new, send, close, try_close_if_idle,
}

pub record UserInfo : Type 0 where
  pub biz_id : ℤ
  pub user_id : ℤ
  pub auto_close : Bool

pub record Config : Type 0 where
  pub read_timeout : ℤ
  pub write_timeout : ℤ
  pub init_retry_interval : ℤ
  pub max_retry_interval : ℤ
  pub max_retries : ℤ
  pub send_buffer_size : ℤ
  pub receive_buffer_size : ℤ
  pub user_rate_limit : ℤ

-- What the loop of `GracefulClose` finds: a tick, the end of its context, or another goroutine's call in
-- between.
pub data Wake (A : Type 0) : Type 0 where
  ticks times_out : Wake A
  meanwhile : A → Wake A

-- A call on the manager.
pub data Call : Type 0 where
  new_links : UserInfo → Option Bool → ℤ → Call
  remove_links : Text → Call
  clean_idle : ℤ → ℤ → Call
  closes : Call

-- "%d-%d"
unfoldable pub generate_link_id : UserInfo → Text
generate_link_id u = format_key u.biz_id (show_int u.user_id)

abbrev positive : ℤ → Bool
positive a = ltb_ℤ (pos 0) a

unfoldable pub convert_to_link_options : Config → UserInfo → Option Bool → List LinkOption
convert_to_link_options c u compression =
    elim compression [ none ↦ [] | some enabled ↦ with_compression enabled ∷ [] ]
    ++ (if positive c.read_timeout || positive c.write_timeout
        then with_timeouts c.read_timeout c.write_timeout ∷ []
        else [])
    ++ (if positive c.max_retries
        then with_retry c.init_retry_interval c.max_retry_interval c.max_retries ∷ []
        else [])
    ++ (if positive c.send_buffer_size || positive c.receive_buffer_size
        then with_buffer c.send_buffer_size c.receive_buffer_size ∷ []
        else [])
    ++ with_auto_close u.auto_close ∷ with_rate_limit c.user_rate_limit ∷ []

module _ {W : Type 0} (conn_close : Text → W → Bool × W) (S : SyncMap Text ℕ) where
  open S use {Store, load, store, remove, range}

  pub record Manager : Type 0 where
    pub links : Store
    pub len : ℤ
    pub heap : List (ℕ × Link)
    pub next : ℕ
    pub config : Config
    pub world : W

  -- `NewLink` up to the storing of the link, and its last step, the counting.
  unfoldable pub store_link : UserInfo → Option Bool → ℤ → Manager → Manager
  store_link u compression now m =
      let id : Text = generate_link_id u in
      record m {
        heap = insert m.next (new id now (convert_to_link_options m.config u compression)) m.heap;
        next = suc m.next;
        links = store id m.next m.links;
      }

  unfoldable pub count_link : Manager → Manager
  count_link m = record m { len = m.len +ℤ pos 1 }

  unfoldable pub new_link : UserInfo → Option Bool → ℤ → Manager → Manager
  unfolding store_link count_link
  new_link u compression now m = count_link (store_link u compression now m)

  unfoldable pub find_link_by_user_info : UserInfo → Manager → Option ℕ
  find_link_by_user_info u m = load (generate_link_id u) m.links

  unfoldable pub remove_link : Text → Manager → Bool × Manager
  remove_link id m = elim (load id m.links) [
    | none ↦ (false, m)
    | some i ↦ (true, record m { links = remove id m.links; len = m.len +ℤ negsuc 0 })
  ]

  -- `Links`, as references.
  abbrev pub references : List (Text × ℕ) → List ℕ
  references [] = []
  references ((id, i) ∷ rest) = i ∷ references rest

  unfoldable pub all_links : Manager → List ℕ
  all_links m = references (range m.links)

  -- The loop of `push`: a failed `Send` is only logged. `none` is a `Send` that blocks.
  unfoldable pub push_loop : Text → List ℕ → List (ℕ × Link) → Option (List (ℕ × Link))
  push_loop payload [] heap = some heap
  push_loop payload (i ∷ is) heap = elim (lookup i heap) [
    | none ↦ none
    | some l ↦ (elim (send payload l) [
      | none ↦ none
      | some (e, l') ↦ push_loop payload is (insert i l' heap)
    ])
  ]

  -- `push` of a message that the codec has marshalled or not.
  unfoldable pub push : Option Text → List ℕ → Manager → Option (Option Error × Manager)
  push none is m = some (some (marshal_failed ∷ other ∷ []), m)
  push (some payload) is m = elim (push_loop payload is m.heap) [
    | none ↦ none
    | some heap ↦ some (none, record m { heap = heap })
  ]

  -- `push` to the links that were selected, if any.
  unfoldable pub push_selected :
      Option Text → Option (List ℕ) → Manager → Option (Option Error × Manager)
  push_selected payload none m = none
  push_selected payload (some []) m = some (none, m)
  push_selected payload (some (i ∷ is)) m = push payload (i ∷ is) m

  unfoldable pub push_all_of :
      (List ℕ → Option (List ℕ)) → Option Text → List ℕ → Manager → Option (Option Error × Manager)
  push_all_of select payload [] m = some (none, m)
  push_all_of select payload (i ∷ is) m = push_selected payload (select (i ∷ is)) m

  -- The selector panics where it gives `none`, which is the result then.
  unfoldable pub push_message :
      (List ℕ → Option (List ℕ)) → Option Text → Manager → Option (Option Error × Manager)
  push_message select payload m = push_all_of select payload (all_links m) m

  -- The body of `Range` in `CleanIdleLinks` at one entry; the number is `n`.
  unfoldable pub clean_entry : ℤ → ℤ → Text × ℕ → Manager × ℕ → Manager × ℕ
  clean_entry now timeout (id, i) (m, n) = elim (lookup i m.heap) [
    | none ↦ (m, n)
    | some l ↦
        let (idle, l', w) = try_close_if_idle conn_close now timeout l m.world in
        let m' : Manager = record m { heap = insert i l' m.heap; world = w } in
        let (deleted, m'') = remove_link id m' in
        if idle then (m'', if deleted then n + 1 else n) else (m', n)
  ]

  unfoldable pub clean_loop : ℤ → ℤ → List (Text × ℕ) → Manager × ℕ → Manager × ℕ
  clean_loop now timeout [] r = r
  clean_loop now timeout (e ∷ es) r = clean_loop now timeout es (clean_entry now timeout e r)

  unfoldable pub clean_idle_links : ℤ → ℤ → Manager → Manager × ℕ
  clean_idle_links now timeout m = clean_loop now timeout (range m.links) (m, 0)

  -- The body of `Range` in `Close`.
  unfoldable pub close_entry : Text × ℕ → Manager → Manager
  close_entry (id, i) m = elim (lookup i m.heap) [
    | none ↦ (remove_link id m).1
    | some l ↦
        let (failed, l', w) = close conn_close l m.world in
        let m' : Manager = record m { heap = insert i l' m.heap; world = w } in
        (remove_link id m').1
  ]

  unfoldable pub close_loop : List (Text × ℕ) → Manager → Manager
  close_loop [] m = m
  close_loop (e ∷ es) m = close_loop es (close_entry e m)

  unfoldable pub close_all : Manager → Manager
  close_all m = if eqb_ℤ m.len (pos 0) then m else close_loop (range m.links) m

  -- `GracefulClose` up to its loop: the message is pushed to all links; an error of that is only
  -- logged. `none` is a `Send` that blocks.
  unfoldable pub begin_graceful_close : Option Text → Manager → Option Manager
  begin_graceful_close payload m = elim (push payload (all_links m) m) [
    | none ↦ none
    | some (e, m') ↦ some m'
  ]

  unfoldable pub step : Call → Manager → Manager
  step (new_links u c now) m = new_link u c now m
  step (remove_links id) m = (remove_link id m).1
  step (clean_idle now timeout) m = (clean_idle_links now timeout m).0
  step closes m = close_all m

  unfoldable pub run : List Call → Manager → Manager
  run [] m = m
  run (c ∷ cs) m = run cs (step c m)

  -- The loop of `GracefulClose`; `none` is still waiting.
  unfoldable pub close_wait : List (Wake Call) → Manager → Option Manager
  close_wait [] m = none
  close_wait (ticks ∷ ws) m =
      let later = close_wait ws m in if eqb_ℤ m.len (pos 0) then some m else later
  close_wait (times_out ∷ ws) m = some (close_all m)
  close_wait (meanwhile c ∷ ws) m = close_wait ws (step c m)

  -- `GracefulClose` after the nodes were marshalled.
  unfoldable pub graceful_close : Option Text → List (Wake Call) → Manager → Option Manager
  graceful_close payload ws m =
      let begun = begin_graceful_close payload m in
      if eqb_ℤ m.len (pos 0)
      then some m
      else elim begun [ none ↦ none | some m' ↦ close_wait ws m' ]
