-- ===== src/PowerManager/Ticker.antt =====
-- src/system/common/ticker/ticker.ts: a timer with a life cycle. The function that a tick runs is its
-- name, and the events that are emitted are counted.
use redis_smq.Prelude.{ℕ, ◌+◌, Bool, true, false, ◌||◌, Option, none, some, if◌then◌else◌}
use redis_smq.Errors.{Result, ok, err, ticker_error, ◌>>=◌}
use redis_smq.PowerManager.{
  PowerManager, new_power_manager, is_going_up, is_running, going_up, going_down, commit, rollback,
}

-- The function that a tick runs: that of the constructor, or one given for the next tick.
pub data TickFn : Type 0 where
  on_tick_fn : TickFn
  next_tick_fn : ℕ → TickFn

pub record Ticker : Type 0 where
  pub power_manager : PowerManager
  -- `onNextTickFn`
  pub on_next : Option ℕ
  -- `timeout !== null`, `interval !== null`
  pub timeout : Bool
  pub interval : Bool
  -- how often DOWN was emitted
  pub downs : ℕ

-- `new Ticker(onTickFn, time)`
unfoldable pub new_ticker : Result Ticker
unfolding going_up
new_ticker = do
  p ← going_up new_power_manager
  ok (record { power_manager = p; on_next = none; timeout = false; interval = false; downs = 0 })

-- The timers are cleared, not forgotten: the fields keep them.
unfoldable pub shutdown : Ticker → Result Ticker
unfolding commit
shutdown t = do p ← commit t.power_manager; ok (record t { power_manager = p; downs = t.downs + 1 })

abbrev tick_fn : Option ℕ → TickFn
tick_fn none = on_tick_fn
tick_fn (some f) = next_tick_fn f

-- The function that runs, if any.
unfoldable pub on_tick : Ticker → Ticker × Option TickFn
unfolding is_running
on_tick t =
    if is_running t.power_manager
    then (record t { on_next = none }, some (tick_fn t.on_next))
    else (t, none)

unfoldable pub quit : Ticker → Result Ticker
unfolding is_going_up rollback going_down shutdown
quit t =
    if is_going_up t.power_manager
    then (do p ← rollback t.power_manager; ok (record t { power_manager = p; downs = t.downs + 1 }))
    else (do p ← going_down t.power_manager; shutdown (record t { power_manager = p }))

-- `if (goingUp) commit()`
abbrev settled : PowerManager → Result PowerManager
settled p = if is_going_up p then commit p else ok p

unfoldable pub next_tick : Ticker → Result Ticker
unfolding is_going_up is_running commit
next_tick t =
    if t.timeout || t.interval
    then err ticker_error
    else if is_going_up t.power_manager || is_running t.power_manager
    then (do p ← settled t.power_manager; ok (record t { power_manager = p; timeout = true }))
    else ok t

unfoldable pub next_tick_with : ℕ → Ticker → Result Ticker
unfolding next_tick
next_tick_with f t = next_tick (record t { on_next = some f })

unfoldable pub run_timer : Ticker → Result Ticker
unfolding is_going_up is_running commit
run_timer t =
    if t.interval || t.timeout
    then err ticker_error
    else if is_going_up t.power_manager || is_running t.power_manager
    then (do p ← settled t.power_manager; ok (record t { power_manager = p; interval = true }))
    else ok t

-- The timeout fires: `this.timeout = null; this.onTick()`.
unfoldable pub fire : Ticker → Ticker × Option TickFn
unfolding on_tick
fire t = on_tick (record t { timeout = false })
