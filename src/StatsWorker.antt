-- ===== src/StatsWorker.antt =====
-- src/monitor-server/workers/stats.worker.ts: the statistics, and how they are changed. The tables of
-- queues, consumers and producers are lists of their entries, in the order in which they were added; an
-- entry of the table of queues is looked up by its namespace and its name.
pub mod Tick
pub mod Sizes
pub mod Measured
use redis_smq.Prelude.{
  Text, text_eq, ℕ, ◌+◌, Bool, true, false, ◌&&◌, Option, none, some, List, [], ◌∷◌, ltb, ◌==◌,
  if◌then◌else◌,
}
use redis_smq.Keys.{RedisKey, number}
use redis_smq.Keys.Parse.{ExtractedData, consumer, producer, nobody}
use redis_smq.Redis.Value.{Value}

-- `data.rates`
pub record Rates : Type 0 where
  pub input : ℕ
  pub processing : ℕ
  pub acknowledged : ℕ
  pub unacknowledged : ℕ

pub record ConsumerRates : Type 0 where
  pub processing : ℕ
  pub acknowledged : ℕ
  pub unacknowledged : ℕ

-- `TAggregatedStatsQueueConsumer`; the resources are the heartbeat that holds them.
pub record StatsConsumer : Type 0 where
  pub id : Text
  pub namespace : Text
  pub queue_name : Text
  pub rates : Option ConsumerRates
  pub resources : Option Value

-- `TAggregatedStatsQueueProducer`
pub record StatsProducer : Type 0 where
  pub id : Text
  pub namespace : Text
  pub queue_name : Text
  pub input : ℕ

-- `TAggregatedStatsQueue`
pub record StatsQueue : Type 0 where
  pub queue_name : Text
  pub namespace : Text
  pub dead_lettered_messages : ℕ
  pub acknowledged_messages : ℕ
  pub pending_messages : ℕ
  pub pending_messages_with_priority : ℕ
  pub consumers : List StatsConsumer
  pub producers : List StatsProducer

-- `TAggregatedStats`
pub record Stats : Type 0 where
  pub scheduled_messages : ℕ
  pub rates : Rates
  pub queues : List StatsQueue

-- What `reset` sets.
abbrev pub no_stats : Stats
no_stats = record {
  scheduled_messages = 0;
  rates = record { input = 0; processing = 0; acknowledged = 0; unacknowledged = 0 };
  queues = [];
}

abbrev pub new_queue : Text → Text → StatsQueue
new_queue ns name = record {
  queue_name = name;
  namespace = ns;
  dead_lettered_messages = 0;
  acknowledged_messages = 0;
  pending_messages = 0;
  pending_messages_with_priority = 0;
  consumers = [];
  producers = [];
}

abbrev pub is_queue : Text → Text → StatsQueue → Bool
is_queue ns name q = text_eq q.namespace ns && text_eq q.queue_name name

-- `addQueueIfNotExists`, and what the caller then does to the entry.
unfoldable pub at_queue :
    Text → Text → (StatsQueue → StatsQueue) → List StatsQueue → List StatsQueue
at_queue ns name f [] = f (new_queue ns name) ∷ []
at_queue ns name f (q ∷ qs) =
    let rest = at_queue ns name f qs in if is_queue ns name q then f q ∷ qs else q ∷ rest

-- `addConsumerIfNotExists`, and what the caller then does to the entry.
unfoldable pub at_consumer :
    Text → Text → Text → (StatsConsumer → StatsConsumer) → List StatsConsumer → List StatsConsumer
at_consumer ns name id f [] =
    f (record { id = id; namespace = ns; queue_name = name; rates = none; resources = none }) ∷ []
at_consumer ns name id f (c ∷ cs) =
    let rest = at_consumer ns name id f cs in if text_eq c.id id then f c ∷ cs else c ∷ rest

-- `addProducerIfNotExists`, and what the caller then does to the entry.
unfoldable pub at_producer :
    Text → Text → Text → (StatsProducer → StatsProducer) → List StatsProducer → List StatsProducer
at_producer ns name id f [] =
    f (record { id = id; namespace = ns; queue_name = name; input = 0 }) ∷ []
at_producer ns name id f (p ∷ ps) =
    let rest = at_producer ns name id f ps in if text_eq p.id id then f p ∷ ps else p ∷ rest

abbrev pub set_input : ℕ → StatsProducer → StatsProducer
set_input rate p = record p { input = rate }

unfoldable pub handle_producer_rate : Text → Text → Text → ℕ → Stats → Stats
unfolding at_queue at_producer
handle_producer_rate ns name id rate s = record s {
  rates = record s.rates { input = s.rates.input + rate };
  queues =
      at_queue ns name
        (λ q. record q { producers = at_producer ns name id (set_input rate) q.producers })
        s.queues;
}

-- The switch over the type of a rate, on the totals and on the consumer's own rates.
abbrev add_rate : ℕ → ℕ → Rates → Rates
add_rate type rate r =
    if type == number RedisKey.rate_consumer_processing
    then record r { processing = r.processing + rate }
    else if type == number RedisKey.rate_consumer_acknowledged
    then record r { acknowledged = r.acknowledged + rate }
    else if type == number RedisKey.rate_consumer_unacknowledged
    then record r { unacknowledged = r.unacknowledged + rate }
    else r

abbrev or_no_rates : Option ConsumerRates → ConsumerRates
or_no_rates none = record { processing = 0; acknowledged = 0; unacknowledged = 0 }
or_no_rates (some r) = r

abbrev set_rate : ℕ → ℕ → ConsumerRates → ConsumerRates
set_rate type rate r =
    if type == number RedisKey.rate_consumer_processing
    then record r { processing = rate }
    else if type == number RedisKey.rate_consumer_acknowledged
    then record r { acknowledged = rate }
    else if type == number RedisKey.rate_consumer_unacknowledged
    then record r { unacknowledged = rate }
    else r

unfoldable pub handle_consumer_rate : Text → Text → ℕ → Text → ℕ → Stats → Stats
unfolding at_queue at_consumer
handle_consumer_rate ns name type id rate s = record s {
  rates = add_rate type rate s.rates;
  queues =
      at_queue ns name
        (λ q. record q {
          consumers =
              at_consumer ns name id
                (λ c. record c { rates = some (set_rate type rate (or_no_rates c.rates)) })
                q.consumers;
        })
        s.queues;
}
