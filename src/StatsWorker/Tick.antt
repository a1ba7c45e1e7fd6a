-- ===== src/StatsWorker/Tick.antt =====
-- src/monitor-server/workers/stats.worker.ts: one tick. `async.eachOf` and `async.each` are taken in the
-- order of the entries; what is published is the result of the tick.
use redis_smq.Prelude.{
  Text, text_eq, ℕ, ◌+◌, Bool, true, false, Option, none, some, List, [], ◌∷◌, ◌++◌, ltb, ◌==◌,
  if◌then◌else◌,
}
use redis_smq.Message.{MessageQueue}
use redis_smq.Keys.{RedisKey, number}
use redis_smq.Keys.Names.{get_global_keys, queue_keys}
use redis_smq.Keys.Parse.{ExtractedData, extract_data, consumer, producer, nobody}
use redis_smq.Redis.Value.{Value}
use redis_smq.Redis.Command.{Command}
use redis_smq.Redis.Client
use redis_smq.Redis.Client.{command, exec_multi_numbers}
use redis_smq.Redis.Program.{Program, pure, ◌>>=◌}
use redis_smq.LockManager.{LockManager, acquire_lock, settle}
use redis_smq.Heartbeat.{ConsumerHeartbeat, get_heartbeats}
use redis_smq.QueueManager.{get_message_queues}
use redis_smq.Handlers.Schedule.{get_scheduled_messages_count}
use redis_smq.StatsWorker.{
  Stats, no_stats, StatsQueue, StatsConsumer, at_queue, at_consumer, is_queue, handle_producer_rate,
  handle_consumer_rate,
}

-- `now - timestamp > 1000`, on integers
unfoldable pub has_expired : ℕ → ℕ → Bool
has_expired now timestamp = ltb (timestamp + 1000) now

abbrev by_owner : ExtractedData → Text → Text → Text → ℕ → Stats → Stats
by_owner d ns name id rate s = elim d.owner [
  | producer ↦ handle_producer_rate ns name id rate s
  | consumer ↦ handle_consumer_rate ns name d.type id rate s
  | nobody ↦ s
]

-- `extractedData.producerId`, `extractedData.consumerId`; a key that has one has a namespace and a
-- queue.
abbrev pub handle_rate : Option ExtractedData → ℕ → Stats → Stats
handle_rate none rate s = s
handle_rate (some d) rate s = elim d.ns [
  | none ↦ s
  | some ns ↦ elim d.queue_name [
    | none ↦ s
    | some name ↦ elim d.owner_id [
      | none ↦ s
      | some [] ↦ s
      | some (c ∷ id) ↦ by_owner d ns name (c ∷ id) rate s
    ]
  ]
]

-- The entries of the hash of rates: the statistics with them, and the keys that have expired. Nothing
-- but rates is written to that hash.
unfoldable pub read_rates : ℕ → List (Value × Value) → Stats → Stats × List Value
unfolding has_expired handle_producer_rate handle_consumer_rate extract_data
read_rates now [] s = (s, [])
read_rates now ((Value.text key, Value.rate rate timestamp) ∷ es) s =
    if has_expired now timestamp
    then (let (s', expired) = read_rates now es s in (s', Value.text key ∷ expired))
    else read_rates now es (handle_rate (extract_data key) rate s)
read_rates now (e ∷ es) s = read_rates now es s

-- The answer to HDEL is not read.
abbrev pub drop_expired : Stats × List Value → Program Stats
drop_expired (s, []) = pure s
drop_expired (s, k ∷ ks) =
    settle (command (Command.hdel get_global_keys.key_index_rates (k ∷ ks))) (λ r. pure s)

unfoldable pub get_rates : ℕ → Stats → Program Stats
unfolding read_rates
get_rates now s = do
  es ← Client.hgetall get_global_keys.key_index_rates
  drop_expired (read_rates now es s)

abbrev pub size_keys : MessageQueue → List Text
size_keys q =
    let keys = queue_keys q.ns q.name in
    keys.key_queue ∷ keys.key_queue_priority ∷ keys.key_queue_dl
    ∷ keys.key_queue_acknowledged_messages ∷ []

abbrev pub size_commands : MessageQueue → List Command
size_commands q =
    let keys = queue_keys q.ns q.name in
    Command.llen keys.key_queue
    ∷ Command.zcard keys.key_queue_priority
    ∷ Command.llen keys.key_queue_dl
    ∷ Command.llen keys.key_queue_acknowledged_messages
    ∷ []

abbrev pub all_keys : List MessageQueue → List Text
all_keys [] = []
all_keys (q ∷ qs) = size_keys q ++ all_keys qs

abbrev pub all_commands : List MessageQueue → List Command
all_commands [] = []
all_commands (q ∷ qs) = size_commands q ++ all_commands qs

-- The branches over the type of a key.
abbrev pub set_size : ℕ → ℕ → StatsQueue → StatsQueue
set_size type size q =
    if type == number RedisKey.queue_dl
    then record q { dead_lettered_messages = size }
    else if type == number RedisKey.queue
    then record q { pending_messages = size }
    else if type == number RedisKey.queue_priority
    then record q { pending_messages_with_priority = size }
    else record q { acknowledged_messages = size }

abbrev pub handle_size : Option ExtractedData → ℕ → List StatsQueue → List StatsQueue
handle_size none size qs = qs
handle_size (some d) size qs = elim d.ns [
  | none ↦ qs
  | some ns ↦ elim d.queue_name [
    | none ↦ qs
    | some name ↦ at_queue ns name (set_size d.type size) qs
  ]
]

-- `handleResult`
unfoldable pub handle_result : List Text → List ℕ → List StatsQueue → List StatsQueue
unfolding at_queue extract_data
handle_result (key ∷ keys) (size ∷ sizes) qs =
    handle_result keys sizes (handle_size (extract_data key) size qs)
handle_result keys sizes qs = qs

unfoldable pub get_queue_size : List MessageQueue → Stats → Program Stats
unfolding handle_result
get_queue_size [] s = pure s
get_queue_size (q ∷ qs) s = do
  sizes ← exec_multi_numbers (all_commands (q ∷ qs))
  pure (record s { queues = handle_result (all_keys (q ∷ qs)) sizes s.queues })

abbrev add_heartbeat : ConsumerHeartbeat → Stats → Stats
add_heartbeat h s = record s {
  queues =
      at_queue h.ns h.queue_name
        (λ q. record q {
          consumers =
              at_consumer h.ns h.queue_name h.consumer_id
                (λ c. record c { resources = some h.resources }) q.consumers;
        })
        s.queues;
}

unfoldable pub add_heartbeats : List ConsumerHeartbeat → Stats → Stats
unfolding at_queue at_consumer
add_heartbeats [] s = s
add_heartbeats (h ∷ hs) s = add_heartbeats hs (add_heartbeat h s)

unfoldable pub get_consumers_heartbeats : Stats → Program Stats
unfolding get_heartbeats add_heartbeats
get_consumers_heartbeats s = do hs ← get_heartbeats; pure (add_heartbeats hs s)

-- `!consumer.rates || !consumer.resources`
abbrev pub is_incomplete : StatsConsumer → Bool
is_incomplete c = elim c.rates [
  | none ↦ true
  | some r ↦ elim c.resources [ none ↦ true | some v ↦ false ]
]

-- `delete consumers[id]`
unfoldable pub without_consumer : Text → List StatsConsumer → List StatsConsumer
without_consumer id [] = []
without_consumer id (c ∷ cs) =
    let rest = without_consumer id cs in if text_eq c.id id then cs else c ∷ rest

-- At the queue that the consumer names.
unfoldable pub delete_consumer : StatsConsumer → List StatsQueue → List StatsQueue
unfolding without_consumer
delete_consumer c [] = []
delete_consumer c (q ∷ qs) =
    let rest = delete_consumer c qs in
    if is_queue c.namespace c.queue_name q
    then record q { consumers = without_consumer c.id q.consumers } ∷ qs
    else q ∷ rest

-- `handleConsumer` for the consumers of one queue, and `handleQueue` for the queues.
unfoldable pub sanitize_consumers : List StatsConsumer → List StatsQueue → List StatsQueue
unfolding delete_consumer
sanitize_consumers [] all = all
sanitize_consumers (c ∷ cs) all =
    sanitize_consumers cs (if is_incomplete c then delete_consumer c all else all)

unfoldable pub sanitize_queues : List StatsQueue → List StatsQueue → List StatsQueue
unfolding sanitize_consumers
sanitize_queues [] all = all
sanitize_queues (q ∷ qs) all = sanitize_queues qs (sanitize_consumers q.consumers all)

unfoldable pub sanitize_data : Stats → Stats
unfolding sanitize_queues
sanitize_data s = record s { queues = sanitize_queues s.queues s.queues }

-- `run` up to the next tick: the lock is waited for, and what is published is the statistics.
unfoldable pub run : ℕ → Text → LockManager → ℕ → Program (LockManager × Stats)
unfolding acquire_lock get_scheduled_messages_count get_rates get_consumers_heartbeats
    get_message_queues get_queue_size sanitize_data
run retries me lm now = do
  locked ← acquire_lock retries me lm
  count ← get_scheduled_messages_count
  with_rates ← get_rates now (record no_stats { scheduled_messages = count })
  with_heartbeats ← get_consumers_heartbeats with_rates
  queues ← get_message_queues
  with_sizes ← get_queue_size queues with_heartbeats
  pure (locked.0, sanitize_data with_sizes)
