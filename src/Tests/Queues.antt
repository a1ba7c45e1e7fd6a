-- ===== src/Tests/Queues.antt =====
-- Examples of the queues: from the producer to where a message is settled.
use redis_smq.Prelude.{Text, none, some, [], ◌∷◌, ◌≡◌, refl, arith}
use redis_smq.Redis.Value.{Value}
use redis_smq.Redis.Keyspace.{Keyspace}
use redis_smq.Redis.Program.{done, effects, single, transaction}
use redis_smq.Redis.Requests.{requests}
use redis_smq.Redis.Command.{Command}
use redis_smq.Redis.Server.{result, content}
use redis_smq.Redis.Scripts.Moves.{IsListKey}
use redis_smq.Message.{is_schedulable}
use redis_smq.Message.Defaults.{new_message}
use redis_smq.Keys.Names.{queue_keys, get_global_keys}
use redis_smq.PowerManager.{PowerManager, up, is_up}
use redis_smq.Handlers.Delay.{schedule_delayed}
use redis_smq.Handlers.Delay.Delayed.{schedule_delayed_lem, all_delay_commands}
use redis_smq.Broker.{timeout, retry, route}
use redis_smq.Broker.Retries.{retry_lem, routed}
use redis_smq.Producer.{produce_message, proceed, prepare, at_once}
use redis_smq.Producer.Delivery.{
  produce_then_dequeue_lem, produce_then_dequeue, delivered, queue_key,
}
use redis_smq.Tests.Samples.{
  server, server-IsReliable, shop, orders, worker, names_ok, order, version, broker, with_list,
  at_key, processing, at_work, next_minute,
}

processing-IsListKey : IsListKey processing at_work
processing-IsListKey = record { no_zset = refl; no_hash = refl; no_set = refl }

retry_lem_example :
    (result server (retry broker 2000 orders processing order timeout) at_work ≡ done tt)
    × (content server (retry broker 2000 orders processing order timeout) at_work
        ≡ routed shop orders worker (route 2000 order timeout) (Value.message order) at_work)
retry_lem_example =
    retry_lem server server-IsReliable at_work broker version refl orders worker names_ok
      (Value.message order) (at_key processing (Value.message order ∷ [])) processing-IsListKey 2000
      order timeout

abbrev delay_queue : Keyspace
delay_queue = with_list get_global_keys.key_queue_delay (Value.message order ∷ [])

schedule_delayed_lem_example :
    (result server (schedule_delayed next_minute order 2000) delay_queue ≡ done tt)
    × (requests server (schedule_delayed next_minute order 2000) delay_queue
        ≡ single (Command.lrange get_global_keys.key_queue_delay 0 99)
          ∷ transaction (all_delay_commands 2000 (order ∷ []))
          ∷ [])
    × (content server (schedule_delayed next_minute order 2000) delay_queue
        ≡ effects (all_delay_commands 2000 (order ∷ [])) delay_queue)
    × ((content server (schedule_delayed next_minute order 2000) delay_queue).lists
          get_global_keys.key_queue_delay
        ≡ [])
unfolding new_message all_delay_commands
schedule_delayed_lem_example =
    schedule_delayed_lem next_minute order 2000 (order ∷ []) (omega arith, tt) server
      server-IsReliable delay_queue
      (at_key get_global_keys.key_queue_delay (Value.message order ∷ [])) (omega arith)

abbrev running : PowerManager
running = record { state = up; pending_state = none }

produce_then_dequeue_lem_example :
    (produce_message running broker orders next_minute 2000 order
      ≡ at_once (proceed broker next_minute 2000 (prepare shop orders order)))
    × (result server (produce_then_dequeue broker next_minute 5 2000 orders worker order) at_work
        ≡ done (some (Value.message (delivered shop orders 2000 order))))
    × ((content server
            (produce_then_dequeue broker next_minute 5 2000 orders worker order)
            at_work).lists
          (queue_key shop orders)
        ≡ at_work.lists (queue_key shop orders))
    × ((content server
            (produce_then_dequeue broker next_minute 5 2000 orders worker order)
            at_work).lists
          processing
        ≡ Value.message (delivered shop orders 2000 order) ∷ at_work.lists processing)
unfolding is_up is_schedulable new_message
produce_then_dequeue_lem_example =
    produce_then_dequeue_lem server server-IsReliable at_work running broker next_minute 5 2000
      orders worker order refl refl names_ok refl

abbrev dead_letters : Text
dead_letters = (queue_keys shop orders).key_queue_dl
