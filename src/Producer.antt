-- ===== src/Producer.antt =====
-- src/system/producer/producer.ts
pub mod Delivery
use redis_smq.Prelude.{Text, ℕ, Bool, true, not, if◌then◌else◌}
use redis_smq.Errors.{Error, panic_error}
use redis_smq.Message.{Message, reset, set_queue, is_schedulable}
use redis_smq.Redis.Program.{Program, pure, ◌>>◌}
use redis_smq.PowerManager.{PowerManager, is_up, is_going_up}
use redis_smq.Broker.{Broker, schedule_message, enqueue_message}

-- The message as it is produced: the caller's object without its system parameters, and its queue.
unfoldable pub prepare : Text → Text → Message → Message
unfolding reset set_queue
prepare namespace name m = set_queue namespace name (reset m)

-- `proceed`
unfoldable pub proceed : Broker → (Text → ℕ → ℕ) → ℕ → Message → Program Bool
unfolding is_schedulable schedule_message enqueue_message
proceed b next_cron now m =
    if is_schedulable m
    then schedule_message next_cron now m
    else (do enqueue_message b now m; pure true)

-- What `produceMessage` does: it goes on at once or when the producer is up, or it refuses.
pub data Production : Type 0 where
  at_once on_up : Program Bool → Production
  refused : Error → Production

unfoldable pub produce_message :
    PowerManager → Broker → Text → (Text → ℕ → ℕ) → ℕ → Message → Production
unfolding prepare proceed is_up is_going_up
produce_message p b name next_cron now m =
    let program = proceed b next_cron now (prepare b.namespace name m) in
    if not (is_up p)
    then (if is_going_up p then on_up program else refused panic_error)
    else at_once program
