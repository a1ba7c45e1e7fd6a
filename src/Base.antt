-- ===== src/Base.antt =====
-- src/system/base.ts: the life cycle of a producer or a consumer, with the tasks that
-- src/system/consumer/consumer.ts adds. The objects that an instance holds are there or not; the
-- events UP and DOWN are counted; log lines are left out.
pub mod Run
pub mod Tasks
pub mod Start
pub mod Lifecycle
use redis_smq.Prelude.{
  ℕ, ◌+◌, Bool, true, false, ◌||◌, ◌&&◌, List, [], ◌∷◌, ◌++◌, if◌then◌else◌, ◌≡◌,
}
use redis_smq.Errors.{Error, Result, ok, err, panic_error, empty_callback_reply_error, ◌>>=◌}
use redis_smq.PowerManager.{
  PowerManager, new_power_manager, is_going_up, is_running, going_up, going_down, commit,
}

pub record Instance : Type 0 where
  pub power_manager : PowerManager
  -- `sharedRedisClient`, `broker`, `messageRate` of Base
  pub shared_redis_client : Bool
  pub broker : Bool
  pub message_rate : Bool
  -- `consumerRedisClient`, `heartbeat`, `consumerWorkers` of Consumer
  pub consumer_redis_client : Bool
  pub heartbeat : Bool
  pub consumer_workers : Bool
  -- how often UP and DOWN were emitted
  pub ups : ℕ
  pub downs : ℕ

abbrev pub new_instance : Instance
new_instance = record {
  power_manager = new_power_manager;
  shared_redis_client = false;
  broker = false;
  message_rate = false;
  consumer_redis_client = false;
  heartbeat = false;
  consumer_workers = false;
  ups = 0;
  downs = 0;
}

-- How a task ends: it calls back, without or with an error, it throws, or it never calls back.
pub data Ending : Type 0 where
  finished never : Ending
  failed thrown : Error → Ending

abbrev pub Task : Type 0
Task = Instance → Ending × Instance

-- `waterfall` of the package async, as it documents it: the tasks run in order, and the first one that
-- does not succeed is the last one.
pub record Waterfall : Type 0 where
  pub waterfall : List Task → Task
  pub waterfall_nil : (i : Instance) → waterfall [] i ≡ (finished, i)
  pub waterfall_finished :
      (t : Task) (ts : List Task) (i i' : Instance)
      → t i ≡ (finished, i')
      → waterfall (t ∷ ts) i ≡ waterfall ts i'
  pub waterfall_failed :
      (t : Task) (ts : List Task) (i i' : Instance) (e : Error)
      → t i ≡ (failed e, i')
      → waterfall (t ∷ ts) i ≡ (failed e, i')
  pub waterfall_thrown :
      (t : Task) (ts : List Task) (i i' : Instance) (e : Error)
      → t i ≡ (thrown e, i')
      → waterfall (t ∷ ts) i ≡ (thrown e, i')
  pub waterfall_never :
      (t : Task) (ts : List Task) (i i' : Instance)
      → t i ≡ (never, i')
      → waterfall (t ∷ ts) i ≡ (never, i')

-- What the calls of a start answer: whether a client is there, or an error.
pub record Answers : Type 0 where
  pub shared_client : Result Bool
  pub message_queue : Result (Unit {0})
  pub consumer_client : Result Bool
  pub heartbeat_client : Result Bool
  pub processing_queue : Result (Unit {0})

abbrev ending_of : Result (Unit {0}) → Ending
ending_of (ok u) = finished
ending_of (err e) = failed e

-- `if (err) cb(err); else if (!client) cb(new EmptyCallbackReplyError()); else ...`
abbrev with_client : Result Bool → (Instance → Instance) → Task
with_client (err e) set i = (failed e, i)
with_client (ok false) set i = (failed empty_callback_reply_error, i)
with_client (ok true) set i = (finished, set i)

-- `if (!this.sharedRedisClient) cb(new PanicError(...)); else ...`
abbrev needs_client : Task → Task
needs_client task i = if i.shared_redis_client then task i else (failed panic_error, i)

unfoldable pub set_up_shared_redis_client : Answers → Task
set_up_shared_redis_client a =
    with_client a.shared_client λ i. record i { shared_redis_client = true }

unfoldable pub set_up_message_queue : Answers → Task
set_up_message_queue a = needs_client λ i. (ending_of a.message_queue, i)

unfoldable pub set_up_broker : Task
set_up_broker = needs_client λ i. (finished, record i { broker = true })

unfoldable pub set_up_message_rate : Bool → Task
set_up_message_rate monitor_enabled i =
    if monitor_enabled
    then needs_client (λ j. (finished, record j { message_rate = true })) i
    else (finished, i)

-- `handleError`: the listener of ERROR.
unfoldable pub handle_error : Error → Task
unfolding is_going_up is_running
handle_error e i =
    if is_going_up i.power_manager || is_running i.power_manager then (thrown e, i) else (never, i)

-- `getSharedRedisClient`
unfoldable pub get_shared_redis_client : Task → Task
unfolding handle_error
get_shared_redis_client task i =
    if i.shared_redis_client then task i else handle_error panic_error i

unfoldable pub set_up_consumer_redis_client : Answers → Task
set_up_consumer_redis_client a =
    with_client a.consumer_client λ i. record i { consumer_redis_client = true }

unfoldable pub set_up_heartbeat : Answers → Task
set_up_heartbeat a = with_client a.heartbeat_client λ i. record i { heartbeat = true }

unfoldable pub set_up_consumer_workers : Task
unfolding get_shared_redis_client
set_up_consumer_workers =
    get_shared_redis_client λ i. (finished, record i { consumer_workers = true })

unfoldable pub set_up_consumer_processing_queue : Answers → Task
unfolding get_shared_redis_client
set_up_consumer_processing_queue a = get_shared_redis_client λ i. (ending_of a.processing_queue, i)

-- A producer, or a consumer; and `config.monitor.enabled`.
pub record Kind : Type 0 where
  pub is_consumer : Bool
  pub monitor_enabled : Bool

-- `goingUp` of Base, and of Consumer over it.
unfoldable pub base_tasks_up : Bool → Answers → List Task
unfolding set_up_shared_redis_client set_up_message_queue set_up_broker set_up_message_rate
base_tasks_up monitor_enabled a =
    set_up_shared_redis_client a
    ∷ set_up_message_queue a
    ∷ set_up_broker
    ∷ set_up_message_rate monitor_enabled
    ∷ []

unfoldable pub tasks_up : Kind → Answers → List Task
unfolding base_tasks_up set_up_consumer_redis_client set_up_heartbeat set_up_consumer_workers
    set_up_consumer_processing_queue
tasks_up k a =
    if k.is_consumer
    then base_tasks_up k.monitor_enabled a
      ++ set_up_consumer_redis_client a
        ∷ set_up_heartbeat a
        ∷ set_up_consumer_workers
        ∷ set_up_consumer_processing_queue a
        ∷ []
    else base_tasks_up k.monitor_enabled a
