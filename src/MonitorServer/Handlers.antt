-- ===== src/MonitorServer/Handlers.antt =====
-- The handlers under src/monitor-server/controllers: each gives what a service answers.
use redis_smq.Prelude.{Option, none, some}
use redis_smq.Redis.Program.{Program, pure, ◌>>=◌}
use redis_smq.MonitorServer.Dto.{
  Data, queues, messages, messages_by_id, GetMessagesRequest, GetScheduledMessagesRequest,
  DeleteMessageRequest, DeletePendingMessageWithPriorityRequest, DeleteScheduledMessageRequest,
  PurgeQueueRequest, RequeueMessageRequest, EmptyRequest,
}
use redis_smq.MonitorServer.Services
use redis_smq.MonitorServer.Services.{Application}

-- The data that a promise comes to.
abbrev pub answer : {A : Type 0} → (A → Data) → Program A → Program (Option Data)
answer wrap p = do a ← p; pure (some (wrap a))

-- A promise of nothing.
abbrev pub no_answer : Program (Unit {0}) → Program (Option Data)
no_answer p = do u ← p; pure none

unfoldable pub get_queues_handler : Application → EmptyRequest → Program (Option Data)
unfolding Services.get_queues
get_queues_handler app dto = answer queues (Services.get_queues app)

unfoldable pub get_scheduled_messages_handler :
    Application → GetScheduledMessagesRequest → Program (Option Data)
unfolding Services.get_scheduled_messages
get_scheduled_messages_handler app dto =
    answer messages_by_id (Services.get_scheduled_messages app dto)

unfoldable pub delete_scheduled_message_handler :
    Application → DeleteScheduledMessageRequest → Program (Option Data)
unfolding Services.delete_scheduled_message
delete_scheduled_message_handler app dto = no_answer (Services.delete_scheduled_message app dto)

unfoldable pub purge_scheduled_messages_handler : Application → EmptyRequest → Program (Option Data)
unfolding Services.purge_scheduled_messages_queue
purge_scheduled_messages_handler app dto = no_answer (Services.purge_scheduled_messages_queue app)

unfoldable pub get_pending_messages_handler :
    Application → GetMessagesRequest → Program (Option Data)
unfolding Services.get_pending_messages
get_pending_messages_handler app dto = answer messages (Services.get_pending_messages app dto)

unfoldable pub get_acknowledged_messages_handler :
    Application → GetMessagesRequest → Program (Option Data)
unfolding Services.get_acknowledged_messages
get_acknowledged_messages_handler app dto =
    answer messages (Services.get_acknowledged_messages app dto)

unfoldable pub get_pending_messages_with_priority_handler :
    Application → GetMessagesRequest → Program (Option Data)
unfolding Services.get_pending_messages_with_priority
get_pending_messages_with_priority_handler app dto =
    answer messages_by_id (Services.get_pending_messages_with_priority app dto)

unfoldable pub get_dead_lettered_messages_handler :
    Application → GetMessagesRequest → Program (Option Data)
unfolding Services.get_dead_lettered_messages
get_dead_lettered_messages_handler app dto =
    answer messages (Services.get_dead_lettered_messages app dto)

unfoldable pub delete_pending_message_handler :
    Application → DeleteMessageRequest → Program (Option Data)
unfolding Services.delete_pending_message
delete_pending_message_handler app dto = no_answer (Services.delete_pending_message app dto)

unfoldable pub delete_acknowledged_message_handler :
    Application → DeleteMessageRequest → Program (Option Data)
unfolding Services.delete_acknowledged_message
delete_acknowledged_message_handler app dto =
    no_answer (Services.delete_acknowledged_message app dto)

unfoldable pub delete_pending_message_with_priority_handler :
    Application → DeletePendingMessageWithPriorityRequest → Program (Option Data)
unfolding Services.delete_pending_message_with_priority
delete_pending_message_with_priority_handler app dto =
    no_answer (Services.delete_pending_message_with_priority app dto)

unfoldable pub delete_dead_lettered_message_handler :
    Application → DeleteMessageRequest → Program (Option Data)
unfolding Services.delete_dead_lettered_message
delete_dead_lettered_message_handler app dto =
    no_answer (Services.delete_dead_lettered_message app dto)

unfoldable pub purge_pending_messages_handler :
    Application → PurgeQueueRequest → Program (Option Data)
unfolding Services.purge_pending_queue
purge_pending_messages_handler app dto = no_answer (Services.purge_pending_queue app dto)

unfoldable pub purge_acknowledged_messages_handler :
    Application → PurgeQueueRequest → Program (Option Data)
unfolding Services.purge_acknowledged_queue
purge_acknowledged_messages_handler app dto = no_answer (Services.purge_acknowledged_queue app dto)

unfoldable pub purge_priority_messages_handler :
    Application → PurgeQueueRequest → Program (Option Data)
unfolding Services.purge_priority_queue
purge_priority_messages_handler app dto = no_answer (Services.purge_priority_queue app dto)

unfoldable pub purge_dead_lettered_messages_handler :
    Application → PurgeQueueRequest → Program (Option Data)
unfolding Services.purge_dead_letter_queue
purge_dead_lettered_messages_handler app dto = no_answer (Services.purge_dead_letter_queue app dto)

unfoldable pub requeue_dead_lettered_message_handler :
    Application → RequeueMessageRequest → Program (Option Data)
unfolding Services.requeue_dead_lettered_message
requeue_dead_lettered_message_handler app dto =
    no_answer (Services.requeue_dead_lettered_message app dto)

unfoldable pub requeue_acknowledged_message_handler :
    Application → RequeueMessageRequest → Program (Option Data)
unfolding Services.requeue_acknowledged_message
requeue_acknowledged_message_handler app dto =
    no_answer (Services.requeue_acknowledged_message app dto)
