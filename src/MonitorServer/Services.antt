-- ===== src/MonitorServer/Services.antt =====
-- src/monitor-server/services: what the services ask of the managers. The promises of the source are
-- the programs.
use redis_smq.Prelude.{Text, ℕ, Bool, true, false, Option, none, some, List}
use redis_smq.Message.{Message, MessageQueue}
use redis_smq.Redis.Program.{Program}
use redis_smq.Handlers.Common.{Page}
use redis_smq.Handlers.Manager.Admin
use redis_smq.QueueManager
use redis_smq.MonitorServer.Dto.{
  GetMessagesRequest, GetScheduledMessagesRequest, DeleteMessageRequest,
  DeletePendingMessageWithPriorityRequest, DeleteScheduledMessageRequest, PurgeQueueRequest,
  RequeueMessageRequest,
}

-- What the services are made with, and what the managers read of the process: its namespace,
-- `new Message()`, the value under which a lock is taken, and the time.
pub record Application : Type 0 where
  pub namespace : Text
  pub fresh : Message
  pub me : Text
  pub now : ℕ

-- `const { x = value } = args`
abbrev pub or_default : ℕ → Option ℕ → ℕ
or_default value none = value
or_default value (some x) = x

-- `typeof priority !== 'undefined'`
abbrev pub is_given : Option ℕ → Bool
is_given none = false
is_given (some p) = true

module _ (app : Application) where
  unfoldable pub get_scheduled_messages : GetScheduledMessagesRequest → Program (Page Message)
  get_scheduled_messages args =
      Admin.get_scheduled_messages app.fresh (or_default 0 args.skip) (or_default 1 args.take)

  abbrev pub list_with : {A : Type 0} → Admin.Listing A → GetMessagesRequest → Program (Page A)
  list_with listing args =
      listing app.namespace app.fresh args.queue_name (some args.ns) (or_default 0 args.skip)
        (or_default 1 args.take)

  unfoldable pub get_pending_messages : GetMessagesRequest → Program (Page (ℕ × Message))
  get_pending_messages = list_with Admin.get_pending_messages

  unfoldable pub get_acknowledged_messages : GetMessagesRequest → Program (Page (ℕ × Message))
  get_acknowledged_messages = list_with Admin.get_acknowledged_messages

  unfoldable pub get_pending_messages_with_priority : GetMessagesRequest → Program (Page Message)
  get_pending_messages_with_priority = list_with Admin.get_pending_messages_with_priority

  unfoldable pub get_dead_lettered_messages : GetMessagesRequest → Program (Page (ℕ × Message))
  get_dead_lettered_messages = list_with Admin.get_dead_lettered_messages

  abbrev pub delete_with : Admin.Deletion → DeleteMessageRequest → Program (Unit {0})
  delete_with deletion args =
      deletion app.namespace app.fresh app.me args.queue_name (some args.ns) args.sequence_id
        args.id

  unfoldable pub delete_pending_message : DeleteMessageRequest → Program (Unit {0})
  delete_pending_message = delete_with Admin.delete_pending_message

  unfoldable pub delete_pending_message_with_priority :
      DeletePendingMessageWithPriorityRequest → Program (Unit {0})
  delete_pending_message_with_priority args =
      Admin.delete_pending_message_with_priority app.namespace app.me args.queue_name (some args.ns)
        args.id

  unfoldable pub delete_acknowledged_message : DeleteMessageRequest → Program (Unit {0})
  delete_acknowledged_message = delete_with Admin.delete_acknowledged_message

  unfoldable pub delete_dead_lettered_message : DeleteMessageRequest → Program (Unit {0})
  delete_dead_lettered_message = delete_with Admin.delete_dead_letter_message

  unfoldable pub delete_scheduled_message : DeleteScheduledMessageRequest → Program (Unit {0})
  delete_scheduled_message args = Admin.delete_scheduled_message app.me args.id

  abbrev pub requeue_with : Admin.Requeuing → RequeueMessageRequest → Program (Unit {0})
  requeue_with requeuing args =
      requeuing app.namespace app.fresh app.now args.queue_name (some args.ns) args.sequence_id
        args.id (is_given args.priority) args.priority

  unfoldable pub requeue_dead_lettered_message : RequeueMessageRequest → Program (Unit {0})
  requeue_dead_lettered_message = requeue_with Admin.requeue_message_from_dl_queue

  unfoldable pub requeue_acknowledged_message : RequeueMessageRequest → Program (Unit {0})
  requeue_acknowledged_message = requeue_with Admin.requeue_message_from_acknowledged_queue

  unfoldable pub get_queues : Program (List MessageQueue)
  unfolding QueueManager.get_message_queues
  get_queues = QueueManager.get_message_queues

  unfoldable pub purge_acknowledged_queue : PurgeQueueRequest → Program (Unit {0})
  purge_acknowledged_queue args =
      QueueManager.purge_acknowledged_messages_queue app.namespace args.queue_name (some args.ns)

  unfoldable pub purge_dead_letter_queue : PurgeQueueRequest → Program (Unit {0})
  purge_dead_letter_queue args =
      QueueManager.purge_dead_letter_queue app.namespace args.queue_name (some args.ns)

  unfoldable pub purge_pending_queue : PurgeQueueRequest → Program (Unit {0})
  purge_pending_queue args = QueueManager.purge_queue app.namespace args.queue_name (some args.ns)

  unfoldable pub purge_priority_queue : PurgeQueueRequest → Program (Unit {0})
  purge_priority_queue args =
      QueueManager.purge_priority_queue app.namespace args.queue_name (some args.ns)

  unfoldable pub purge_scheduled_messages_queue : Program (Unit {0})
  purge_scheduled_messages_queue = QueueManager.purge_scheduled_messages_queue
