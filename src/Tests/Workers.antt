-- ===== src/Tests/Workers.antt =====
-- Examples of the workers.
use redis_smq.Prelude.{codes, true, some, [], ◌∷◌, ◌≡◌, ◌≤◌, refl, arith, text_eq, ◌⊎◌}
use redis_smq.Errors.{redis_client_error}
use redis_smq.Message.{Message}
use redis_smq.Message.Defaults.{new_message}
use redis_smq.Keys.{namespaced_key}
use redis_smq.Keys.Names.{get_global_keys}
use redis_smq.Redis.Value.{Value}
use redis_smq.Redis.Keyspace.{Keyspace, empty, update, find, remove_first, set_set}
use redis_smq.Redis.Scripts.Moves.{IsZsetKey}
use redis_smq.Redis.Client.{zpophgetrpush}
use redis_smq.Redis.Program.{done, failed, ◌>>◌}
use redis_smq.Redis.Server.{result, content}
use redis_smq.Handlers.Timestamp.{get_next_scheduled_timestamp}
use redis_smq.Handlers.Timestamp.Repeats.{
  schedulings, schedulings_lem, get_next_scheduled_timestamp-later,
}
use redis_smq.Workers.RequeueWorker.{on_tick}
use redis_smq.Workers.RequeueWorker.Lost.{on_tick-lost, priority_key, pending_key}
use redis_smq.Workers.GcWorker.{GcWorker}
use redis_smq.Workers.GcWorker.Foreign.{handle_processing_queue-other_namespace}
use redis_smq.Workers.GcWorker.Online.{beat_then_collect, handle_processing_queue-alive, alive}
use redis_smq.Tests.Samples.{
  differ, server, server-IsReliable, shop, orders, worker, names_ok, order, orders_queue, broker,
  with_list, at_key, processing, next_minute,
}

-- Every 1000 ms, twice.
abbrev twice : Message
twice = record order { scheduled_repeat = 2; scheduled_period = some 1000 }

schedulings_lem_example : schedulings next_minute (1 ∷ 2 ∷ 3 ∷ 4 ∷ []) twice ≡ 2
unfolding new_message
schedulings_lem_example =
    schedulings_lem next_minute (1 ∷ 2 ∷ 3 ∷ 4 ∷ []) twice refl refl
      (omega arith, (omega arith, (omega arith, (omega arith, tt))))

get_next_scheduled_timestamp-later_example :
    ((get_next_scheduled_timestamp next_minute 7 twice).1 ≡ 0)
    ⊎ (7 ≤ (get_next_scheduled_timestamp next_minute 7 twice).1)
get_next_scheduled_timestamp-later_example =
    get_next_scheduled_timestamp-later next_minute 7 twice (λ t. omega arith)

abbrev failed_order : Message
failed_order = record order { queue = some orders_queue }

abbrev requeue_queue : Keyspace
requeue_queue = with_list get_global_keys.key_queue_requeue (Value.message failed_order ∷ [])

abbrev tick_and_dequeue_lists : Keyspace
tick_and_dequeue_lists =
    content server
      (on_tick true order
        >> zpophgetrpush (priority_key orders_queue) (pending_key orders_queue) processing)
      requeue_queue

priority-IsZsetKey : IsZsetKey (priority_key orders_queue) requeue_queue
unfolding text_eq namespaced_key
priority-IsZsetKey = record { no_list = refl; no_hash = refl; no_set = refl }

on_tick-lost_example :
    (result server
        (on_tick true order
          >> zpophgetrpush (priority_key orders_queue) (pending_key orders_queue) processing)
        requeue_queue
      ≡ failed redis_client_error)
    × ((tick_and_dequeue_lists.lists
          ≡ update requeue_queue.lists get_global_keys.key_queue_requeue [])
        × (tick_and_dequeue_lists.zsets (priority_key orders_queue) ≡ []))
unfolding find
on_tick-lost_example =
    on_tick-lost server server-IsReliable requeue_queue order failed_order orders_queue refl
      (at_key get_global_keys.key_queue_requeue (Value.message failed_order ∷ []))
      priority-IsZsetKey refl refl processing

-- The garbage collector that another consumer started.
abbrev collector : GcWorker
collector = record { broker = broker; consumer_id = codes "c2" }

abbrev elsewhere : GcWorker
elsewhere = record { broker = record broker { namespace = codes "bank" }; consumer_id = codes "c2" }

abbrev one_consumer : Keyspace
one_consumer =
    set_set get_global_keys.key_index_processing_queues (Value.text processing ∷ []) empty

handle_processing_queue-alive_example :
    (result server (beat_then_collect collector order 9000 19000 shop orders worker) one_consumer
      ≡ done tt)
    × (content server (beat_then_collect collector order 9000 19000 shop orders worker) one_consumer
        ≡ alive shop orders worker 9000 one_consumer)
unfolding text_eq
handle_processing_queue-alive_example =
    handle_processing_queue-alive server server-IsReliable one_consumer collector order 9000 19000
      shop orders b'c' (codes "1") names_ok (differ (codes "c2") (codes "c1") refl) refl
      (omega arith)

handle_processing_queue-other_namespace_example :
    (result server (beat_then_collect elsewhere order 9000 9000 shop orders worker) one_consumer
      ≡ done tt)
    × ((content server
            (beat_then_collect elsewhere order 9000 9000 shop orders worker)
            one_consumer).sets
          get_global_keys.key_index_processing_queues
        ≡ remove_first
            (Value.text processing)
            (one_consumer.sets get_global_keys.key_index_processing_queues))
unfolding text_eq find
handle_processing_queue-other_namespace_example =
    handle_processing_queue-other_namespace server server-IsReliable one_consumer elsewhere order
      9000 shop orders b'c' (codes "1") names_ok (differ (codes "c2") (codes "c1") refl)
      (omega arith) (differ (codes "bank") shop refl) refl refl
