-- ===== src/Keys.antt =====
-- src/system/common/redis-keys/redis-keys.ts: the names of the Redis keys. The module variable
-- `namespace` is an argument; `toLowerCase` is an argument of `validate_redis_key`.
pub mod Names
pub mod Parse
pub mod Numbers
pub mod Distinct
pub mod Extract
use redis_smq.Prelude.{
  Text, codes, text_eq, ℕ, ◌+◌, ◌/◌, ◌%◌, Bool, true, false, not, ◌&&◌, ◌||◌, Option, none, some,
  List, [], ◌∷◌, ◌++◌, leb, ◌==◌, if◌then◌else◌, length,
}
use redis_smq.Errors.{Result, ok, err, ◌>>=◌, ◌>>◌, throw_if, redis_keys_error}

-- `ERedisKey`: the enumeration starts at 58.
pub data RedisKey : Type 0 where
  queue queue_dl queue_delay queue_requeue queue_scheduled : RedisKey
  queue_priority queue_processing queue_acknowledged_messages : RedisKey
  queue_unacknowledged_messages index_queues index_processing_queues : RedisKey
  index_queue_message_processing_queues index_rates index_heartbeats : RedisKey
  lock_message_manager lock_queue_manager rate_producer_input : RedisKey
  rate_consumer_processing rate_consumer_acknowledged : RedisKey
  rate_consumer_unacknowledged lock_worker_stats lock_consumer_workers_runner : RedisKey
  lock_delete_pending_message lock_delete_pending_message_with_priority : RedisKey
  lock_delete_acknowledged_message lock_delete_dead_letter_message : RedisKey
  lock_delete_scheduled_message heartbeat scheduled_messages : RedisKey
  pending_messages_with_priority : RedisKey

abbrev pub number : RedisKey → ℕ
number queue = 58
number queue_dl = 59
number queue_delay = 60
number queue_requeue = 61
number queue_scheduled = 62
number queue_priority = 63
number queue_processing = 64
number queue_acknowledged_messages = 65
number queue_unacknowledged_messages = 66
number index_queues = 67
number index_processing_queues = 68
number index_queue_message_processing_queues = 69
number index_rates = 70
number index_heartbeats = 71
number lock_message_manager = 72
number lock_queue_manager = 73
number rate_producer_input = 74
number rate_consumer_processing = 75
number rate_consumer_acknowledged = 76
number rate_consumer_unacknowledged = 77
number lock_worker_stats = 78
number lock_consumer_workers_runner = 79
number lock_delete_pending_message = 80
number lock_delete_pending_message_with_priority = 81
number lock_delete_acknowledged_message = 82
number lock_delete_dead_letter_message = 83
number lock_delete_scheduled_message = 84
number heartbeat = 85
number scheduled_messages = 86
number pending_messages_with_priority = 87

abbrev pub bar : ℕ
bar = b'|'

-- `segments.join('|')`
unfoldable pub join_segments : List Text → Text
join_segments [] = []
join_segments (x ∷ []) = x
join_segments (x ∷ y ∷ r) = x ++ bar ∷ join_segments (y ∷ r)

-- A number of two digits as text, as `join` writes it; all of the enumeration has two digits.
unfoldable pub show_number : ℕ → Text
show_number n = (48 + n / 10) ∷ (48 + n % 10) ∷ []

abbrev pub ns_prefix : Text
ns_prefix = codes "redis-smq"

abbrev pub global_namespace : Text
global_namespace = codes "global"

-- One entry of `makeNamespacedKeys`: the key of a type and its segments in a namespace. The source
-- joins twice, first the type with its segments and then the prefix and the namespace with that.
unfoldable pub namespaced_key : Text → RedisKey → List Text → Text
unfolding join_segments show_number
namespaced_key ns type segments =
    join_segments (ns_prefix ∷ ns ∷ join_segments (show_number (number type) ∷ segments) ∷ [])

-- `ns ?? namespace`
abbrev pub or_namespace : Option Text → Text → Text
or_namespace none namespace = namespace
or_namespace (some ns) namespace = ns

abbrev is_allowed : ℕ → Bool
is_allowed c =
    (leb b'a' c && leb c b'z') || ((leb b'0' c && leb c b'9') || (c == b'_' || c == b'-'))

-- `replace(/[^a-z0-9_-]/g, '')`
unfoldable pub only_allowed : Text → Text
only_allowed [] = []
only_allowed (c ∷ s) = let rest = only_allowed s in if is_allowed c then c ∷ rest else rest

unfoldable pub validate_redis_key : (Text → Text) → Text → Result Text
unfolding only_allowed
validate_redis_key to_lower_case key = do
  throw_if (length key == 0) redis_keys_error
  let filtered = only_allowed (to_lower_case key)
  throw_if (not (length filtered == length key)) redis_keys_error
  ok filtered

-- Returns the new value of the module variable `namespace`.
unfoldable pub set_namespace : (Text → Text) → Text → Result Text
set_namespace to_lower_case ns = do
  valid ← validate_redis_key to_lower_case ns
  throw_if (text_eq valid global_namespace) redis_keys_error
  ok valid
