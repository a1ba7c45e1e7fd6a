-- ===== src/Tests/Schedules.antt =====
-- Examples of the delay and the schedule worker.
use redis_smq.Prelude.{
  codes, Text, text_eq, text_eq_refl, Text-discrete, ℕ_discrete, true, false, some, List, [], ◌∷◌,
  ◌++◌, ◌≡◌, refl, arith,
}
use redis_smq.Message.{Message, is_periodic, has_expired, has_retry_threshold_exceeded}
use redis_smq.Message.Defaults.{new_message}
use redis_smq.Keys.{namespaced_key}
use redis_smq.Keys.Names.{get_global_keys}
use redis_smq.Redis.Value.{Value, value_eq, Value-discrete}
use redis_smq.Redis.Keyspace.{Keyspace, empty, set_zset, set_hash, set_list, find}
use redis_smq.Redis.Program.{done}
use redis_smq.Redis.Server.{result, content}
use redis_smq.Broker.{timeout, route}
use redis_smq.Handlers.Schedule.{enqueue_scheduled_messages}
use redis_smq.Handlers.Schedule.Due.{Scheduled, times, AllStored, is_scheduled, due, later}
use redis_smq.Handlers.Schedule.Left.{for_queue, enqueue_scheduled_messages-due}
use redis_smq.MessageFlow.{Contents, held, ready, put, add_last}
use redis_smq.MessageFlow.Places.{Represents, set_list-Represents}
use redis_smq.MessageFlow.Redelivered.{redelivery, redelivered, redelivery-Represents}
use redis_smq.Tests.Samples.{
  server, server-IsReliable, orders_queue, order, next_minute, processing, names_ok,
}
use redis_smq.Tests.Flow.{shop_queue, shop_queue-IsReady, nothing, empty-Represents}

-- An order that is due, and one that is not.
abbrev due_order : Message
due_order = record order { queue = some orders_queue; delayed = true }

abbrev later_order : Message
later_order = record due_order { uuid = codes "m2" }

abbrev plan : List Scheduled
plan = (1500, due_order) ∷ (9000, later_order) ∷ []

abbrev planned : Keyspace
planned =
    set_hash get_global_keys.key_scheduled_messages
      ((Value.text due_order.uuid, Value.message due_order)
        ∷ (Value.text later_order.uuid, Value.message later_order)
        ∷ [])
      (set_zset get_global_keys.key_queue_scheduled (times plan) empty)

planned-AllStored : AllStored plan (planned.hashes get_global_keys.key_scheduled_messages)
unfolding find value_eq Value-discrete Text-discrete ℕ_discrete is_scheduled text_eq new_message
    namespaced_key
planned-AllStored = (refl, refl, (refl, refl, tt))

abbrev tick : Keyspace
tick = content server (enqueue_scheduled_messages next_minute order 2000 false) planned

enqueue_scheduled_messages-due_example :
    (result server (enqueue_scheduled_messages next_minute order 2000 false) planned ≡ done tt)
    × ((key : Text) → tick.lists key ≡ planned.lists key ++ for_queue 2000 key (due 2000 plan))
    × (tick.zsets get_global_keys.key_queue_scheduled ≡ times (later 2000 plan))
    × AllStored (later 2000 plan) (tick.hashes get_global_keys.key_scheduled_messages)
unfolding due new_message
enqueue_scheduled_messages-due_example =
    enqueue_scheduled_messages-due server server-IsReliable planned next_minute 2000 order plan
      (rw (text_eq_refl get_global_keys.key_queue_scheduled) refl) planned-AllStored
      (
        (
          orders_queue,
          record { queued = refl; no_cron = refl; no_repeat = refl; delay_served = refl },
        ),
        tt,
      )

abbrev patient_order : Message
patient_order = record order { queue = some orders_queue; retry_delay = 5000 }

abbrev in_hand : Contents
in_hand = put held (patient_order ∷ []) nothing

abbrev at_hand : Keyspace
at_hand = set_list processing (Value.message patient_order ∷ []) empty

at_hand-Represents : Represents shop_queue at_hand in_hand
at_hand-Represents =
    set_list-Represents shop_queue names_ok held (patient_order ∷ []) refl empty-Represents

redelivery-Represents_example :
    (result server (redelivery shop_queue order 1500 2000 9000 patient_order timeout) at_hand
      ≡ done tt)
    × Represents shop_queue
        (content server (redelivery shop_queue order 1500 2000 9000 patient_order timeout) at_hand)
        (add_last ready (redelivered 2000 9000 patient_order) (put held [] in_hand))
unfolding route is_periodic has_expired has_retry_threshold_exceeded new_message
redelivery-Represents_example =
    redelivery-Represents server server-IsReliable at_hand shop_queue shop_queue-IsReady in_hand
      patient_order at_hand-Represents refl refl refl refl refl (omega arith) 1500 2000 9000 timeout
      refl (omega arith) order
