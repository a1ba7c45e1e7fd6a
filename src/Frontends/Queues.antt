-- ===== src/Frontends/Queues.antt =====
-- src/system/queue-manager/queue-manager-frontend.ts
use redis_smq.Prelude.{Text, Option, List}
use redis_smq.Message.{MessageQueue}
use redis_smq.Redis.Program.{Program}
use redis_smq.QueueManager
use redis_smq.QueueManager.{QueueMetrics}

abbrev pub purge_dead_letter_queue : Text → Text → Option Text → Program (Unit {0})
purge_dead_letter_queue = QueueManager.purge_dead_letter_queue

abbrev pub purge_acknowledged_messages_queue : Text → Text → Option Text → Program (Unit {0})
purge_acknowledged_messages_queue = QueueManager.purge_acknowledged_messages_queue

abbrev pub purge_queue : Text → Text → Option Text → Program (Unit {0})
purge_queue = QueueManager.purge_queue

abbrev pub purge_priority_queue : Text → Text → Option Text → Program (Unit {0})
purge_priority_queue = QueueManager.purge_priority_queue

abbrev pub purge_scheduled_messages_queue : Program (Unit {0})
purge_scheduled_messages_queue = QueueManager.purge_scheduled_messages_queue

abbrev pub get_queue_metrics : Text → Text → Option Text → Program QueueMetrics
get_queue_metrics = QueueManager.get_queue_metrics

abbrev pub get_message_queues : Program (List MessageQueue)
get_message_queues = QueueManager.get_message_queues
