-- ===== src/Workers/Ticks.antt =====
-- src/system/workers/{delay,schedule,heartbeat-monitor}.worker.ts: one tick of each.
use redis_smq.Prelude.{Text, ℕ, Bool}
use redis_smq.Message.{Message}
use redis_smq.Redis.Program.{Program, ◌>>=◌}
use redis_smq.Handlers.Manager
use redis_smq.Heartbeat.{get_heartbeats_by_status, handle_expired_heartbeats}

unfoldable pub delay_worker_tick : (Text → ℕ → ℕ) → Message → ℕ → Program (Unit {0})
delay_worker_tick = Manager.schedule_delayed_messages

unfoldable pub schedule_worker_tick : (Text → ℕ → ℕ) → Message → ℕ → Bool → Program (Unit {0})
schedule_worker_tick = Manager.enqueue_scheduled_messages

unfoldable pub heartbeat_monitor_tick : ℕ → Program (Unit {0})
unfolding get_heartbeats_by_status handle_expired_heartbeats
heartbeat_monitor_tick now = do
  status ← get_heartbeats_by_status now
  handle_expired_heartbeats status.expired
