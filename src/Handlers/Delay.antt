-- ===== src/Handlers/Delay.antt =====
-- src/system/message-manager/handlers/delay.handler.ts
pub mod Delayed
use redis_smq.Prelude.{Text, ℕ, some, List, [], ◌∷◌, ◌++◌, false}
use redis_smq.Errors.{Result, ok, ◌>>=◌}
use redis_smq.Message.{Message, incr_attempts, set_scheduled_delay}
use redis_smq.Keys.Names.{get_global_keys}
use redis_smq.Redis.Value.{Value, create_from_message}
use redis_smq.Redis.Command.{Command}
use redis_smq.Redis.Client
use redis_smq.Redis.Client.{exec_multi}
use redis_smq.Redis.Program
use redis_smq.Redis.Program.{Program, pure, lift}
use redis_smq.Handlers.Schedule.{schedule_multi}

-- One task: the commands that it adds to the transaction.
unfoldable pub delay_task : (Text → ℕ → ℕ) → Message → ℕ → Value → Result (List Command)
unfolding create_from_message incr_attempts set_scheduled_delay schedule_multi
delay_task next_cron fresh now i = do
  m ← create_from_message fresh (some i) false
  m' ← set_scheduled_delay m.retry_delay (incr_attempts m)
  ok (Command.lrem get_global_keys.key_queue_delay i ∷ schedule_multi next_cron now m')

-- The tasks of `async.parallel` run in order; what one throws ends the tick before the transaction.
unfoldable pub delay_tasks : (Text → ℕ → ℕ) → Message → ℕ → List Value → Result (List Command)
unfolding delay_task
delay_tasks next_cron fresh now [] = ok []
delay_tasks next_cron fresh now (i ∷ is) =
    let rest = delay_tasks next_cron fresh now is in
    delay_task next_cron fresh now i >>= λ first. rest >>= λ others. ok (first ++ others)

abbrev schedule_messages : (Text → ℕ → ℕ) → Message → ℕ → List Value → Program (Unit {0})
schedule_messages next_cron fresh now [] = pure tt
schedule_messages next_cron fresh now (i ∷ is) =
    Program.◌>>=◌ (lift (delay_tasks next_cron fresh now (i ∷ is))) exec_multi

-- The first hundred messages of the delay queue.
unfoldable pub schedule_delayed : (Text → ℕ → ℕ) → Message → ℕ → Program (Unit {0})
unfolding delay_tasks
schedule_delayed next_cron fresh now =
    Program.◌>>=◌ (Client.lrange get_global_keys.key_queue_delay 0 99)
      (schedule_messages next_cron fresh now)
