-- ===== src/Links.antt =====
-- internal/link/link.go and internal/link/manager.go: the links of a gateway node.
-- A `*Link` is a reference into `heap`, which the map of the manager and the sockets share. The
-- connection (net.Conn) and its clock are parameters. Logging is left out.
pub mod Manager
pub mod Removal
pub mod Counting
pub mod Retrying
pub mod Closing
pub mod Uncounted
pub mod Loops
pub mod Ordering
pub mod Receiving
pub mod Tests
use ws_gateway.Common.{
  ℕ, zero, suc, ◌+◌, ◌*◌, Bool, true, false, not, ◌&&◌, ◌||◌, Option, none, some, List, [], ◌∷◌,
  ◌++◌, if◌then◌else◌, is_some, ◌==◌, ltb, leb, length,
}
use ws_gateway.Common.Int.{ℤ, pos, negsuc, ◌+ℤ◌, ◌-ℤ◌, ltb_ℤ, leb_ℤ, eqb_ℤ}
use ws_gateway.Common.Keys.{Text, ◌=?◌, nat_eq, text_eq}
use ws_gateway.Common.Map.{lookup, insert}
use ws_gateway.Common.SyncMap.{SyncMap}
use ws_gateway.Common.Format.{show_int}
use ws_gateway.Errors.{Error, link_closed}

-- Durations are in nanoseconds.
pub record Link : Type 0 where
  pub id : Text
  pub read_timeout : ℤ
  pub write_timeout : ℤ
  -- `compressionState`, if there is one: whether it is enabled.
  pub compression : Option Bool
  pub init_retry_interval : ℤ
  pub max_retry_interval : ℤ
  pub max_retries : ℤ
  pub send_capacity : ℤ
  pub receive_capacity : ℤ
  pub send_ch : List Text
  pub auto_close : Bool
  pub last_active_time : ℤ
  pub limit_rate : ℤ
  -- The context is cancelled.
  pub cancelled : Bool
  -- `closeOnce` has run, and whether closing the connection failed.
  pub close_err : Option Bool

abbrev second : ℕ
second = 1000000000

abbrev pub LinkOption : Type 0
LinkOption = Link → Link

abbrev pub with_timeouts : ℤ → ℤ → LinkOption
with_timeouts read write l = record l { read_timeout = read; write_timeout = write }

abbrev pub with_compression : Bool → LinkOption
with_compression enabled l = record l { compression = some enabled }

abbrev pub with_retry : ℤ → ℤ → ℤ → LinkOption
with_retry initial most retries l = record l {
  init_retry_interval = initial;
  max_retry_interval = most;
  max_retries = retries;
}

abbrev pub with_buffer : ℤ → ℤ → LinkOption
with_buffer send receive l = record l {
  send_capacity = send;
  receive_capacity = receive;
  send_ch = [];
}

abbrev pub with_auto_close : Bool → LinkOption
with_auto_close auto l = record l { auto_close = auto }

abbrev pub with_rate_limit : ℤ → LinkOption
with_rate_limit rate l = if ltb_ℤ (pos 0) rate then record l { limit_rate = rate } else l

abbrev pub apply_options : List LinkOption → Link → Link
apply_options [] l = l
apply_options (o ∷ os) l = apply_options os (o l)

-- `New`, without its goroutines; no rate limiter is the rate 0.
unfoldable pub new : Text → ℤ → List LinkOption → Link
new id now opts = apply_options opts (record {
  id = id;
  read_timeout = pos (30 * second);
  write_timeout = pos (10 * second);
  compression = none;
  init_retry_interval = pos second;
  max_retry_interval = pos (5 * second);
  max_retries = pos 3;
  send_capacity = pos 256;
  receive_capacity = pos 256;
  send_ch = [];
  auto_close = false;
  last_active_time = now;
  limit_rate = pos 0;
  cancelled = false;
  close_err = none;
})

-- `Send`: an error, or a free place in the buffer; `none` blocks. A closed link whose buffer has a
-- place may take the payload, and the error is returned all the same. That a channel without buffer
-- hands a payload over to a receiver that waits is not modelled.
unfoldable pub send : Text → Link → Option (Option Error × Link)
send payload l =
    if l.cancelled
    then some (some (link_closed ∷ []), l)
    else if ltb_ℤ (pos (length l.send_ch)) l.send_capacity
    then some (none, record l { send_ch = l.send_ch ++ payload ∷ [] })
    else none

unfoldable pub update_active_time : ℤ → Link → Link
update_active_time now l = if l.cancelled then l else record l { last_active_time = now }

module _ {W : Type 0} (conn_close : Text → W → Bool × W) where
  -- `Close`; the connection's `Close` follows the close frame, and tells whether it failed.
  unfoldable pub close : Link → W → Bool × Link × W
  close l w = elim l.close_err [
    | some failed ↦ (failed, l, w)
    | none ↦
        let (failed, w') = conn_close l.id w in
        (failed, record l { cancelled = true; close_err = some failed }, w')
  ]

  unfoldable pub try_close_if_idle : ℤ → ℤ → Link → W → Bool × Link × W
  try_close_if_idle now timeout l w =
      let (failed, l', w') = close l w in
      if l.cancelled
      then (true, l, w)
      else if not l.auto_close || leb_ℤ (now -ℤ l.last_active_time) timeout
      then (false, l, w)
      else (true, l', w')

-- What one write to the connection returns.
pub data Written : Type 0 where
  written timed_out failed : Written

-- `done` is the context's end, `write` one write, `wait` the pause before a retry and whether the
-- context outlived it; `next_retry` is the strategy.
module _ {W : Type 0} (done : W → Bool) (write : Text → W → Written × W) (wait : W → Bool × W)
    (next_retry : ℕ → Bool) where
  -- `sendWithRetry` on fuel, `n` retries done; `none` means that the fuel ran out.
  unfoldable pub send_with_retry : ℕ → ℕ → Text → W → Option (Bool × W)
  send_with_retry zero n payload w = none
  send_with_retry (suc fuel) n payload w =
      let r = write payload w in
      let p = wait r.1 in
      let again = send_with_retry fuel (suc n) payload p.1 in
      if done w then some (false, w) else (elim r.0 [
        | written ↦ some (true, r.1)
        | timed_out ↦
            if next_retry n then (if p.0 then again else some (false, p.1)) else some (false, r.1)
        | failed ↦ some (false, r.1)
      ])
