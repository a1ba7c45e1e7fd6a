-- ===== src/Keys/Numbers.antt =====
-- src/system/common/redis-keys/redis-keys.ts: the numbers of the types of keys.
use redis_smq.Prelude.{
  ℕ, Option, none, some, List, [], ◌∷◌, ◌≡◌, refl, ap, sym, ◌∙◌, ◌==◌, if◌then◌else◌,
}
use redis_smq.Keys.{RedisKey, number}

abbrev all_types : List RedisKey
all_types =
    RedisKey.queue ∷ RedisKey.queue_dl ∷ RedisKey.queue_delay ∷ RedisKey.queue_requeue
    ∷ RedisKey.queue_scheduled ∷ RedisKey.queue_priority ∷ RedisKey.queue_processing
    ∷ RedisKey.queue_acknowledged_messages ∷ RedisKey.queue_unacknowledged_messages
    ∷ RedisKey.index_queues ∷ RedisKey.index_processing_queues
    ∷ RedisKey.index_queue_message_processing_queues ∷ RedisKey.index_rates
    ∷ RedisKey.index_heartbeats ∷ RedisKey.lock_message_manager ∷ RedisKey.lock_queue_manager
    ∷ RedisKey.rate_producer_input ∷ RedisKey.rate_consumer_processing
    ∷ RedisKey.rate_consumer_acknowledged ∷ RedisKey.rate_consumer_unacknowledged
    ∷ RedisKey.lock_worker_stats ∷ RedisKey.lock_consumer_workers_runner
    ∷ RedisKey.lock_delete_pending_message ∷ RedisKey.lock_delete_pending_message_with_priority
    ∷ RedisKey.lock_delete_acknowledged_message ∷ RedisKey.lock_delete_dead_letter_message
    ∷ RedisKey.lock_delete_scheduled_message ∷ RedisKey.heartbeat ∷ RedisKey.scheduled_messages
    ∷ RedisKey.pending_messages_with_priority ∷ []

abbrev type_in : List RedisKey → ℕ → Option RedisKey
type_in [] n = none
type_in (t ∷ ts) n = if number t == n then some t else type_in ts n

type_in-number : (t : RedisKey) → type_in all_types (number t) ≡ some t
type_in-number RedisKey.queue = refl
type_in-number RedisKey.queue_dl = refl
type_in-number RedisKey.queue_delay = refl
type_in-number RedisKey.queue_requeue = refl
type_in-number RedisKey.queue_scheduled = refl
type_in-number RedisKey.queue_priority = refl
type_in-number RedisKey.queue_processing = refl
type_in-number RedisKey.queue_acknowledged_messages = refl
type_in-number RedisKey.queue_unacknowledged_messages = refl
type_in-number RedisKey.index_queues = refl
type_in-number RedisKey.index_processing_queues = refl
type_in-number RedisKey.index_queue_message_processing_queues = refl
type_in-number RedisKey.index_rates = refl
type_in-number RedisKey.index_heartbeats = refl
type_in-number RedisKey.lock_message_manager = refl
type_in-number RedisKey.lock_queue_manager = refl
type_in-number RedisKey.rate_producer_input = refl
type_in-number RedisKey.rate_consumer_processing = refl
type_in-number RedisKey.rate_consumer_acknowledged = refl
type_in-number RedisKey.rate_consumer_unacknowledged = refl
type_in-number RedisKey.lock_worker_stats = refl
type_in-number RedisKey.lock_consumer_workers_runner = refl
type_in-number RedisKey.lock_delete_pending_message = refl
type_in-number RedisKey.lock_delete_pending_message_with_priority = refl
type_in-number RedisKey.lock_delete_acknowledged_message = refl
type_in-number RedisKey.lock_delete_dead_letter_message = refl
type_in-number RedisKey.lock_delete_scheduled_message = refl
type_in-number RedisKey.heartbeat = refl
type_in-number RedisKey.scheduled_messages = refl
type_in-number RedisKey.pending_messages_with_priority = refl

abbrev or_queue : Option RedisKey → RedisKey
or_queue none = RedisKey.queue
or_queue (some t) = t

-- Different types have different numbers.
pub number-injective : (t t' : RedisKey) → number t ≡ number t' → t ≡ t'
number-injective t t' e =
    ap or_queue (sym (type_in-number t) ∙ ap (type_in all_types) e ∙ type_in-number t')
