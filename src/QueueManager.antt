-- ===== src/QueueManager.antt =====
-- src/system/queue-manager/queue-manager.ts
use redis_smq.Prelude.{Text, ℕ, Option, List, [], ◌∷◌}
use redis_smq.Errors.{Result, ok, err, syntax_error}
use redis_smq.Message.{MessageQueue}
use redis_smq.Keys.Names.{get_global_keys, get_keys, queue_keys, get_instance_keys}
use redis_smq.Redis.Value.{Value}
use redis_smq.Redis.Command.{Command}
use redis_smq.Redis.Client
use redis_smq.Redis.Client.{command, exec_multi}
use redis_smq.Redis.Program.{Program, pure, lift, ◌>>=◌}

-- The index of the queue's processing queues is that of the process's own namespace.
unfoldable pub delete_processing_queue : Text → Text → Text → Program (Unit {0})
delete_processing_queue namespace name processing_queue_name = exec_multi (
    Command.srem get_global_keys.key_index_processing_queues (Value.text processing_queue_name)
    ∷ Command.hdel (queue_keys namespace name).key_index_queue_message_processing_queues
        (Value.text processing_queue_name ∷ [])
    ∷ Command.del processing_queue_name
    ∷ [])

unfoldable pub purge_dead_letter_queue : Text → Text → Option Text → Program (Unit {0})
purge_dead_letter_queue namespace name ns =
    command (Command.del (get_keys namespace name ns).key_queue_dl)

unfoldable pub purge_acknowledged_messages_queue : Text → Text → Option Text → Program (Unit {0})
purge_acknowledged_messages_queue namespace name ns =
    command (Command.del (get_keys namespace name ns).key_queue_acknowledged_messages)

unfoldable pub purge_queue : Text → Text → Option Text → Program (Unit {0})
purge_queue namespace name ns = command (Command.del (get_keys namespace name ns).key_queue)

-- Only the sorted set is deleted, not the hash of the messages.
unfoldable pub purge_priority_queue : Text → Text → Option Text → Program (Unit {0})
purge_priority_queue namespace name ns =
    command (Command.del (get_keys namespace name ns).key_queue_priority)

-- Only the sorted set is deleted, not the hash of the messages.
unfoldable pub purge_scheduled_messages_queue : Program (Unit {0})
purge_scheduled_messages_queue = command (Command.del get_global_keys.key_queue_scheduled)

unfoldable pub get_processing_queues : Program (List Value)
get_processing_queues = Client.smembers get_global_keys.key_index_processing_queues

-- `reply.map((i) => JSON.parse(i))`
unfoldable pub parse_queues : List Value → Result (List MessageQueue)
parse_queues [] = ok []
parse_queues (Value.queue_name q ∷ vs) =
    let rest = parse_queues vs in elim rest [ err e ↦ err e | ok qs ↦ ok (q ∷ qs) ]
parse_queues (v ∷ vs) = err syntax_error

unfoldable pub get_message_queues : Program (List MessageQueue)
unfolding parse_queues
get_message_queues = do
  reply ← Client.smembers get_global_keys.key_index_queue
  lift (parse_queues reply)

pub record QueueMetrics : Type 0 where
  pub acknowledged : ℕ
  pub dead_lettered : ℕ
  pub pending : ℕ
  pub pending_with_priority : ℕ

unfoldable pub get_queue_metrics : Text → Text → Option Text → Program QueueMetrics
get_queue_metrics namespace name ns = do
  let keys = get_keys namespace name ns
  pending ← Client.llen keys.key_queue
  dead_lettered ← Client.llen keys.key_queue_dl
  acknowledged ← Client.llen keys.key_queue_acknowledged_messages
  pending_with_priority ← Client.zcard keys.key_queue_priority
  pure (record {
    acknowledged = acknowledged;
    dead_lettered = dead_lettered;
    pending = pending;
    pending_with_priority = pending_with_priority;
  })

-- The consumer is its namespace, its queue and its id.
unfoldable pub set_up_processing_queue : Text → Text → Text → Program (Unit {0})
set_up_processing_queue namespace name consumer_id =
    let processing = (get_instance_keys namespace name consumer_id).key_queue_processing in
    exec_multi (
      Command.hset (queue_keys namespace name).key_index_queue_message_processing_queues
        (Value.text processing) (Value.text consumer_id)
      ∷ Command.sadd get_global_keys.key_index_processing_queues (Value.text processing)
      ∷ [])

unfoldable pub set_up_message_queue : Text → Text → Program (Unit {0})
set_up_message_queue namespace name = command (
    Command.sadd get_global_keys.key_index_queue
      (Value.queue_name (record { name = name; ns = namespace })))
