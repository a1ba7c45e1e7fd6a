-- ===== src/Base/Run.antt =====
-- src/system/base.ts and src/system/consumer/consumer.ts: the tasks of a shutdown, `run` and
-- `shutdown`.
use redis_smq.Prelude.{Bool, false, ◌+◌, ◌&&◌, List, [], ◌∷◌, if◌then◌else◌}
use redis_smq.Errors.{Result, ok, err, panic_error, ◌>>=◌}
use redis_smq.PowerManager.{is_running, going_up, going_down, commit}
use redis_smq.Base.{
  Instance, Ending, finished, never, thrown, Task, Waterfall, Answers, Kind, tasks_up, handle_error,
}

-- A task that tears down what is there: `quit` or `halt` calls back, whatever it calls back with, and
-- the object is forgotten. What is not there is passed over.
abbrev pub tear_down : Bool → (Instance → Instance) → Task
tear_down there forget i = if there then (finished, forget i) else (finished, i)

unfoldable pub tear_down_broker : Task
tear_down_broker i = tear_down i.broker (λ j. record j { broker = false }) i

unfoldable pub tear_down_message_rate : Task
tear_down_message_rate i = tear_down i.message_rate (λ j. record j { message_rate = false }) i

unfoldable pub tear_down_shared_redis_client : Task
tear_down_shared_redis_client i =
    tear_down i.shared_redis_client (λ j. record j { shared_redis_client = false }) i

unfoldable pub tear_down_consumer_workers : Task
tear_down_consumer_workers i =
    tear_down i.consumer_workers (λ j. record j { consumer_workers = false }) i

unfoldable pub tear_down_heartbeat : Task
tear_down_heartbeat i = tear_down i.heartbeat (λ j. record j { heartbeat = false }) i

unfoldable pub tear_down_consumer_redis_client : Task
tear_down_consumer_redis_client i =
    tear_down i.consumer_redis_client (λ j. record j { consumer_redis_client = false }) i

-- `goingDown` of Base, and of Consumer over it.
unfoldable pub base_tasks_down : List Task
unfolding tear_down_broker tear_down_message_rate tear_down_shared_redis_client
base_tasks_down = tear_down_broker ∷ tear_down_message_rate ∷ tear_down_shared_redis_client ∷ []

unfoldable pub tasks_down : Kind → List Task
unfolding base_tasks_down tear_down_consumer_workers tear_down_heartbeat
    tear_down_consumer_redis_client
tasks_down k =
    if k.is_consumer
    then tear_down_consumer_workers ∷ tear_down_heartbeat ∷ tear_down_consumer_redis_client
      ∷ base_tasks_down
    else base_tasks_down

abbrev pub count_up : Instance → Instance
count_up i = record i { ups = i.ups + 1 }

abbrev pub count_down : Instance → Instance
count_down i = record i { downs = i.downs + 1 }

-- The last callback of the waterfall, which is given the error and does not read it.
abbrev pub end_of_tasks : (Instance → Instance) → Ending × Instance → Result Instance
end_of_tasks emit (thrown e, i) = err e
end_of_tasks emit (never, i) = ok i
end_of_tasks emit (ending, i) = do
  p ← commit i.power_manager
  ok (emit (record i { power_manager = p }))

abbrev thrown_or : Instance → Ending × Instance → Result Instance
thrown_or i (thrown e, j) = err e
thrown_or i x = ok i

-- What a consumer does at once when it is up: MESSAGE_NEXT asks for the consumer's client and for the
-- broker (`getConsumerRedisClient`, `getBroker`).
unfoldable pub message_next : Kind → Instance → Result Instance
unfolding is_running handle_error
message_next k i =
    if k.is_consumer && is_running i.power_manager
    then (if i.consumer_redis_client && i.broker
        then ok i
        else thrown_or i (handle_error panic_error i))
    else ok i

module _ (w : Waterfall) where
  -- `run`, with UP emitted and before its listeners
  unfoldable pub emit_up : Kind → Answers → Instance → Result Instance
  unfolding going_up commit tasks_up
  emit_up k a i = do
    p ← going_up i.power_manager
    end_of_tasks count_up (w.waterfall (tasks_up k a) (record i { power_manager = p }))

  unfoldable pub run : Kind → Answers → Instance → Result Instance
  unfolding emit_up message_next
  run k a i = do j ← emit_up k a i; message_next k j

  unfoldable pub shutdown : Kind → Instance → Result Instance
  unfolding going_down commit tasks_down
  shutdown k i = do
    p ← going_down i.power_manager
    end_of_tasks count_down (w.waterfall (tasks_down k) (record i { power_manager = p }))
