-- ===== src/Handlers/Manager/Admin.antt =====
-- src/system/message-manager/message-manager.ts: the administrative operations, each that of a handler;
-- the log lines are left out. `fresh` is `new Message()`, `me` the value under which a lock is taken.
use redis_smq.Prelude.{Text, ℕ, Bool, Option}
use redis_smq.Message.{Message}
use redis_smq.Redis.Program.{Program}
use redis_smq.Handlers.Common.{Page}
use redis_smq.Handlers.Enqueue
use redis_smq.Handlers.Processing
use redis_smq.Handlers.Requeue
use redis_smq.Handlers.Schedule

-- The process's namespace, `fresh`, the queue and its namespace, `skip` and `take`.
abbrev pub Listing : Type 0 → Type 0
Listing A = Text → Message → Text → Option Text → ℕ → ℕ → Program (Page A)

-- The process's namespace, `fresh` and `me`, the queue and its namespace, the sequence id and the id.
abbrev pub Deletion : Type 0
Deletion = Text → Message → Text → Text → Option Text → ℕ → Text → Program (Unit {0})

-- The process's namespace, `fresh` and the time, the queue and its namespace, the sequence id and the
-- id, whether with priority, and the priority.
abbrev pub Requeuing : Type 0
Requeuing =
    Text → Message → ℕ → Text → Option Text → ℕ → Text → Bool → Option ℕ → Program (Unit {0})

abbrev pub delete_scheduled_message : Text → Text → Program (Unit {0})
delete_scheduled_message = Schedule.delete_scheduled

abbrev pub delete_dead_letter_message : Deletion
delete_dead_letter_message = Processing.delete_dead_letter_message

abbrev pub delete_acknowledged_message : Deletion
delete_acknowledged_message = Processing.delete_acknowledged_message

abbrev pub delete_pending_message : Deletion
delete_pending_message = Enqueue.delete_pending_message

abbrev pub delete_pending_message_with_priority :
    Text → Text → Text → Option Text → Text → Program (Unit {0})
delete_pending_message_with_priority = Enqueue.delete_pending_message_with_priority

abbrev pub requeue_message_from_dl_queue : Requeuing
requeue_message_from_dl_queue = Requeue.requeue_message_from_dl_queue

abbrev pub requeue_message_from_acknowledged_queue : Requeuing
requeue_message_from_acknowledged_queue = Requeue.requeue_message_from_acknowledged_queue

abbrev pub get_acknowledged_messages : Listing (ℕ × Message)
get_acknowledged_messages = Enqueue.get_acknowledged_messages

abbrev pub get_dead_lettered_messages : Listing (ℕ × Message)
get_dead_lettered_messages = Enqueue.get_dead_lettered_messages

abbrev pub get_pending_messages : Listing (ℕ × Message)
get_pending_messages = Enqueue.get_pending_messages

abbrev pub get_pending_messages_with_priority : Listing Message
get_pending_messages_with_priority = Enqueue.get_pending_messages_with_priority

abbrev pub get_scheduled_messages : Message → ℕ → ℕ → Program (Page Message)
get_scheduled_messages = Schedule.get_scheduled_messages

abbrev pub get_scheduled_messages_count : Program ℕ
get_scheduled_messages_count = Schedule.get_scheduled_messages_count
