-- ===== src/Handlers/Manager.antt =====
-- src/system/message-manager/message-manager.ts: each operation is that of a handler; the log lines
-- are left out.
pub mod Admin
use redis_smq.Prelude.{Text, ℕ, Bool, Option, none, some}
use redis_smq.Message.{Message}
use redis_smq.Redis.Value.{Value}
use redis_smq.Redis.Client.{Version}
use redis_smq.Redis.Program.{Program}
use redis_smq.Handlers.Enqueue
use redis_smq.Handlers.Processing
use redis_smq.Handlers.Dequeue
use redis_smq.Handlers.Dequeue.{DequeueHandler, new_dequeue_handler}
use redis_smq.Handlers.Schedule
use redis_smq.Handlers.Delay

-- `getDequeueHandler`: the handler of the first call is kept.
abbrev pub get_dequeue_handler : Option DequeueHandler → Text → Text → Text → DequeueHandler
get_dequeue_handler none namespace name key_queue_processing =
    new_dequeue_handler namespace name key_queue_processing
get_dequeue_handler (some h) namespace name key_queue_processing = h

abbrev pub dequeue_message : DequeueHandler → Program (Option Value)
dequeue_message = Dequeue.dequeue

abbrev pub dequeue_message_with_priority : ℕ → DequeueHandler → Program Value
dequeue_message_with_priority = Dequeue.dequeue_with_priority

abbrev pub enqueue_message : ℕ → Message → Bool → Program (Unit {0})
enqueue_message = Enqueue.enqueue

abbrev pub enqueue_scheduled_messages : (Text → ℕ → ℕ) → Message → ℕ → Bool → Program (Unit {0})
enqueue_scheduled_messages = Schedule.enqueue_scheduled_messages

abbrev pub schedule_message : (Text → ℕ → ℕ) → ℕ → Message → Program Bool
schedule_message = Schedule.schedule

abbrev pub requeue_unacknowledged_message : Text → Program (Unit {0})
requeue_unacknowledged_message = Processing.requeue

abbrev pub schedule_delayed_messages : (Text → ℕ → ℕ) → Message → ℕ → Program (Unit {0})
schedule_delayed_messages = Delay.schedule_delayed

abbrev pub delay_unacknowledged_message_before_requeuing : Text → Program (Unit {0})
delay_unacknowledged_message_before_requeuing = Processing.delay_before_requeue

abbrev pub acknowledge_message : Text → Option Version → Text → Text → Program (Unit {0})
acknowledge_message = Processing.acknowledge

abbrev pub dead_letter_unacknowledged_message :
    Text → Option Version → Text → Text → Program (Unit {0})
dead_letter_unacknowledged_message = Processing.dead_letter_message
