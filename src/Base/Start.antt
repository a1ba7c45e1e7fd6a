-- ===== src/Base/Start.antt =====
-- src/system/base.ts: the tasks of a start, one after the other.
use redis_smq.Prelude.{Bool, true, false, ◌&&◌, ◌≡◌, refl, arith}
use redis_smq.Errors.{Result, ok, err}
use redis_smq.PowerManager.{up}
use redis_smq.Base.{
  Instance, new_instance, Ending, finished, failed, Answers, set_up_shared_redis_client,
  set_up_message_queue, set_up_broker, set_up_message_rate, set_up_consumer_redis_client,
  set_up_heartbeat, set_up_consumer_workers, set_up_consumer_processing_queue,
  get_shared_redis_client, base_tasks_up, tasks_up,
}
use redis_smq.Base.Tasks.{in_turn, torn_down, going}

abbrev calls_back : Ending → Bool
calls_back finished = true
calls_back (failed e) = true
calls_back e = false

abbrev is_there : Result Bool → Bool
is_there (ok b) = b
is_there (err e) = false

abbrev is_done : Result (Unit {0}) → Bool
is_done (ok u) = true
is_done (err e) = false

-- Whether the answers of a start let a consumer ask for its first message: it has its own client, and
-- a broker.
abbrev pub can_ask : Bool → Answers → Bool
can_ask false a = true
can_ask true a = is_there a.shared_client && (is_done a.message_queue && is_there a.consumer_client)

abbrev pub asks : Bool → Instance → Bool
asks false i = true
asks true i = i.consumer_redis_client && i.broker

-- The first callback of a waterfall over a new instance: something of it may be there.
abbrev pub Started : Bool → Answers → Ending × Instance → Type 0
Started is_consumer a x =
    (calls_back x.0 ≡ true)
    × (torn_down is_consumer x.1 ≡ record new_instance { power_manager = going up })
    × (asks is_consumer x.1 ≡ can_ask is_consumer a)

abbrev pub starting : Instance
starting = record new_instance { power_manager = going up }

producer-Started :
    (m : Bool) (a : Answers)
    → Started false a
        (in_turn (tasks_up (record { is_consumer = false; monitor_enabled = m }) a) starting)
unfolding tasks_up base_tasks_up set_up_shared_redis_client set_up_message_queue set_up_broker
    set_up_message_rate
producer-Started m a = ground arith

abbrev answers :
    Result Bool → Result (Unit {0}) → Result Bool → Result Bool → Result (Unit {0}) → Answers
answers shared queue client beat processing = record {
  shared_client = shared;
  message_queue = queue;
  consumer_client = client;
  heartbeat_client = beat;
  processing_queue = processing;
}

abbrev ConsumerStarted : Bool → Answers → Type 0
ConsumerStarted m a =
    Started true a
      (in_turn (tasks_up (record { is_consumer = true; monitor_enabled = m }) a) starting)

-- The tasks of a consumer after those that it shares with a producer.
late-ConsumerStarted :
    (m : Bool) (client beat : Result Bool) (processing : Result (Unit {0}))
    → ConsumerStarted m (answers (ok true) (ok tt) client beat processing)
unfolding tasks_up base_tasks_up set_up_shared_redis_client set_up_message_queue set_up_broker
    set_up_message_rate set_up_consumer_redis_client set_up_heartbeat set_up_consumer_workers
    set_up_consumer_processing_queue get_shared_redis_client
late-ConsumerStarted true (err e) b p = (refl, refl, refl)
late-ConsumerStarted true (ok false) b p = (refl, refl, refl)
late-ConsumerStarted true (ok true) (err e) p = (refl, refl, refl)
late-ConsumerStarted true (ok true) (ok false) p = (refl, refl, refl)
late-ConsumerStarted true (ok true) (ok true) (err e) = (refl, refl, refl)
late-ConsumerStarted true (ok true) (ok true) (ok tt) = (refl, refl, refl)
late-ConsumerStarted false (err e) b p = (refl, refl, refl)
late-ConsumerStarted false (ok false) b p = (refl, refl, refl)
late-ConsumerStarted false (ok true) (err e) p = (refl, refl, refl)
late-ConsumerStarted false (ok true) (ok false) p = (refl, refl, refl)
late-ConsumerStarted false (ok true) (ok true) (err e) = (refl, refl, refl)
late-ConsumerStarted false (ok true) (ok true) (ok tt) = (refl, refl, refl)

all-ConsumerStarted :
    (m : Bool) (shared : Result Bool) (queue : Result (Unit {0})) (client beat : Result Bool)
    (processing : Result (Unit {0}))
    → ConsumerStarted m (answers shared queue client beat processing)
unfolding tasks_up base_tasks_up set_up_shared_redis_client set_up_message_queue
all-ConsumerStarted m (err e) q c b p = (refl, refl, refl)
all-ConsumerStarted m (ok false) q c b p = (refl, refl, refl)
all-ConsumerStarted m (ok true) (err e) c b p = (refl, refl, refl)
all-ConsumerStarted m (ok true) (ok tt) c b p = late-ConsumerStarted m c b p

pub started :
    (is_consumer m : Bool) (a : Answers)
    → Started is_consumer a
        (in_turn (tasks_up (record { is_consumer = is_consumer; monitor_enabled = m }) a) starting)
started false m a = producer-Started m a
started true m a =
    all-ConsumerStarted m a.shared_client a.message_queue a.consumer_client a.heartbeat_client
      a.processing_queue
