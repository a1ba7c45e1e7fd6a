-- ===== src/Keys/Extract.antt =====
-- src/system/common/redis-keys/redis-keys.ts: extractData gives back what the key names were made of.
use redis_smq.Prelude.{Text, Option, none, some, [], ◌∷◌, ◌≡◌, ap}
use redis_smq.Keys.{RedisKey, number}
use redis_smq.Keys.Names.{get_instance_keys, queue_keys}
use redis_smq.Keys.Parse.{
  Segments, NoBar, extract, extract_data, get_segments-namespaced_key, ExtractedData, consumer,
  nobody,
}

-- The processing queue and the heartbeat of a consumer, and the pending and dead-letter queues of a
-- message queue, are read back with the namespace, the queue and the consumer that they belong to,
-- if none of these holds the separator.
pub extract_data-keys :
    (ns name id : Text)
    → NoBar ns
    → NoBar name
    → NoBar id
    → (extract_data (get_instance_keys ns name id).key_queue_processing
        ≡ some (record {
          ns = some ns;
          type = number RedisKey.queue_processing;
          queue_name = some name;
          owner = consumer;
          owner_id = some id;
        }))
      × (extract_data (get_instance_keys ns name id).key_heartbeat
          ≡ some (record {
            ns = some ns;
            type = number RedisKey.heartbeat;
            queue_name = some name;
            owner = consumer;
            owner_id = some id;
          }))
      × (extract_data (queue_keys ns name).key_queue
          ≡ some (record {
            ns = some ns;
            type = number RedisKey.queue;
            queue_name = some name;
            owner = nobody;
            owner_id = none;
          }))
      × (extract_data (queue_keys ns name).key_queue_dl
          ≡ some (record {
            ns = some ns;
            type = number RedisKey.queue_dl;
            queue_name = some name;
            owner = nobody;
            owner_id = none;
          }))
unfolding extract_data
extract_data-keys ns name id h hn hi = (
  ap parts
      (get_segments-namespaced_key ns RedisKey.queue_processing (name ∷ id ∷ []) h (hn, (hi, tt))),
  ap parts (get_segments-namespaced_key ns RedisKey.heartbeat (name ∷ id ∷ []) h (hn, (hi, tt))),
  ap parts (get_segments-namespaced_key ns RedisKey.queue (name ∷ []) h (hn, tt)),
  ap parts (get_segments-namespaced_key ns RedisKey.queue_dl (name ∷ []) h (hn, tt)),
)
  where
    parts : Segments → Option ExtractedData
    parts s = extract s.ns s.type s.segments
