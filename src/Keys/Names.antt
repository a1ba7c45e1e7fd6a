-- ===== src/Keys/Names.antt =====
-- src/system/common/redis-keys/redis-keys.ts: getGlobalKeys, getKeys and getInstanceKeys.
use redis_smq.Prelude.{Text, Option, [], ◌∷◌}
use redis_smq.Keys.{RedisKey, namespaced_key, global_namespace, or_namespace}

pub record GlobalKeys : Type 0 where
  pub key_index_queue : Text
  pub key_index_rates : Text
  pub key_index_processing_queues : Text
  pub key_index_heartbeats : Text
  pub key_lock_message_manager : Text
  pub key_lock_queue_manager : Text
  pub key_lock_consumer_workers_runner : Text
  pub key_lock_worker_stats : Text
  pub key_queue_delay : Text
  pub key_queue_requeue : Text
  pub key_queue_scheduled : Text
  pub key_lock_delete_acknowledged_message : Text
  pub key_lock_delete_dead_letter_message : Text
  pub key_lock_delete_scheduled_message : Text
  pub key_lock_delete_pending_message : Text
  pub key_lock_delete_pending_message_with_priority : Text
  pub key_scheduled_messages : Text

abbrev global : RedisKey → Text
global type = namespaced_key global_namespace type []

abbrev pub get_global_keys : GlobalKeys
get_global_keys = record {
  key_index_queue = global RedisKey.index_queues;
  key_index_rates = global RedisKey.index_rates;
  key_index_processing_queues = global RedisKey.index_processing_queues;
  key_index_heartbeats = global RedisKey.index_heartbeats;
  key_lock_message_manager = global RedisKey.lock_message_manager;
  key_lock_queue_manager = global RedisKey.lock_queue_manager;
  key_lock_consumer_workers_runner = global RedisKey.lock_consumer_workers_runner;
  key_lock_worker_stats = global RedisKey.lock_worker_stats;
  key_queue_delay = global RedisKey.queue_delay;
  key_queue_requeue = global RedisKey.queue_requeue;
  key_queue_scheduled = global RedisKey.queue_scheduled;
  key_lock_delete_acknowledged_message = global RedisKey.lock_delete_acknowledged_message;
  key_lock_delete_dead_letter_message = global RedisKey.lock_delete_dead_letter_message;
  key_lock_delete_scheduled_message = global RedisKey.lock_delete_scheduled_message;
  key_lock_delete_pending_message = global RedisKey.lock_delete_pending_message;
  key_lock_delete_pending_message_with_priority =
      global RedisKey.lock_delete_pending_message_with_priority;
  key_scheduled_messages = global RedisKey.scheduled_messages;
}

pub record QueueKeys : Type 0 where
  pub key_queue : Text
  pub key_queue_dl : Text
  pub key_index_queue_message_processing_queues : Text
  pub key_queue_priority : Text
  pub key_queue_acknowledged_messages : Text
  pub key_queue_unacknowledged_messages : Text
  pub key_pending_messages_with_priority : Text

-- The keys of a queue in a namespace; the global keys that `getKeys` adds are `get_global_keys`.
abbrev pub queue_keys : Text → Text → QueueKeys
queue_keys ns name = record {
  key_queue = namespaced_key ns RedisKey.queue (name ∷ []);
  key_queue_dl = namespaced_key ns RedisKey.queue_dl (name ∷ []);
  key_index_queue_message_processing_queues =
      namespaced_key ns RedisKey.index_queue_message_processing_queues (name ∷ []);
  key_queue_priority = namespaced_key ns RedisKey.queue_priority (name ∷ []);
  key_queue_acknowledged_messages =
      namespaced_key ns RedisKey.queue_acknowledged_messages (name ∷ []);
  key_queue_unacknowledged_messages =
      namespaced_key ns RedisKey.queue_unacknowledged_messages (name ∷ []);
  key_pending_messages_with_priority =
      namespaced_key ns RedisKey.pending_messages_with_priority (name ∷ []);
}

-- `getKeys(queueName, ns)` where the module variable is `namespace`.
abbrev pub get_keys : Text → Text → Option Text → QueueKeys
get_keys namespace name ns = queue_keys (or_namespace ns namespace) name

pub record InstanceKeys : Type 0 where
  pub key_queue_processing : Text
  pub key_rate_consumer_unacknowledged : Text
  pub key_heartbeat : Text
  pub key_rate_consumer_processing : Text
  pub key_rate_consumer_acknowledged : Text
  pub key_rate_producer_input : Text

-- The instance's own part of `getInstanceKeys(queueName, instanceId)`.
abbrev pub get_instance_keys : Text → Text → Text → InstanceKeys
get_instance_keys namespace name id = record {
  key_queue_processing = namespaced_key namespace RedisKey.queue_processing (name ∷ id ∷ []);
  key_rate_consumer_unacknowledged =
      namespaced_key namespace RedisKey.rate_consumer_unacknowledged (name ∷ id ∷ []);
  key_heartbeat = namespaced_key namespace RedisKey.heartbeat (name ∷ id ∷ []);
  key_rate_consumer_processing =
      namespaced_key namespace RedisKey.rate_consumer_processing (name ∷ id ∷ []);
  key_rate_consumer_acknowledged =
      namespaced_key namespace RedisKey.rate_consumer_acknowledged (name ∷ id ∷ []);
  key_rate_producer_input = namespaced_key namespace RedisKey.rate_producer_input (name ∷ id ∷ []);
}
