-- ===== src/Tests/Flow.antt =====
-- Examples of the flow of messages through a queue.
use redis_smq.Prelude.{
  ℕ, Bool, true, Option, none, some, List, [], ◌∷◌, ◌+◌, ◌≡◌, refl, arith, map, if◌then◌else◌,
}
use redis_smq.Message.{
  Message, is_schedulable, has_expired, is_periodic, has_retry_threshold_exceeded, reset, set_queue,
  set_published_at,
}
use redis_smq.Message.Defaults.{new_message}
use redis_smq.Redis.Value.{Value}
use redis_smq.Redis.Keyspace.{Keyspace, empty, set_list}
use redis_smq.Redis.Program.{done, waiting}
use redis_smq.Redis.Server.{result, content}
use redis_smq.Broker.{timeout, ttl_expired, route}
use redis_smq.Consumer.{
  Action, acknowledge, ConsumeEvent, consumed, handle_received_message, start, on_consumed,
  on_event, on_events,
}
use redis_smq.Consumer.Cycle.{rounds}
use redis_smq.Producer.{prepare}
use redis_smq.Producer.Delivery.{delivered}
use redis_smq.MessageFlow
use redis_smq.Redis.Simulation.{steps}
use redis_smq.MessageFlow.{
  Setting, Operation, produce, take_next, unacknowledge, operations, Contents, ready, held, delayed,
  acknowledged, put, abstract_step, abstract_steps,
}
use redis_smq.MessageFlow.Places.{Represents, place_key, set_list-Represents}
use redis_smq.MessageFlow.Steps.{IsReady, encode_reply}
use redis_smq.MessageFlow.Refine.{operations-Represents}
use redis_smq.MessageFlow.Counts.{count}
use redis_smq.MessageFlow.Conserved.{operations-standing, standing, produced}
use redis_smq.MessageFlow.Drain.{rounds-settle_all, settle_all, cycle_of}
use redis_smq.Tests.Samples.{
  server, server-IsReliable, orders, worker, names_ok, order, version, broker, next_minute,
}

abbrev pub shop_queue : Setting
shop_queue = record {
  broker = broker;
  name = orders;
  id = worker;
  polls = 5;
  next_cron = next_minute;
}

pub shop_queue-IsReady : IsReady shop_queue
shop_queue-IsReady = record { version = version; connected = refl; lifo = refl; names = names_ok }

abbrev pub nothing : Contents
nothing p = []

pub empty-Represents : Represents shop_queue empty nothing
empty-Represents = record {
  lists = λ p. refl;
  is_list = record { no_zset = refl; no_hash = refl; no_set = refl };
}

abbrev sent : Message
sent = delivered broker.namespace orders 2000 order

-- An order is sent twice; one of them fails and one is consumed.
abbrev a_day : List Operation
a_day =
    produce 2000 order
    ∷ produce 2000 order
    ∷ take_next
    ∷ unacknowledge 2500 sent timeout
    ∷ take_next
    ∷ MessageFlow.acknowledge
    ∷ []

abbrev after_the_day : Contents
after_the_day = put acknowledged (sent ∷ []) (
    put held [] (
      put held (sent ∷ []) (
        put ready [] (
          put delayed (sent ∷ []) (
            put held [] (
              put held (sent ∷ []) (
                put ready (sent ∷ [])
                  (put ready (sent ∷ sent ∷ []) (put ready (sent ∷ []) nothing)))))))))

abbrev handed_out : List (Option Message)
handed_out = none ∷ none ∷ some sent ∷ none ∷ some sent ∷ none ∷ []

a_day-abstract_steps : abstract_steps shop_queue a_day nothing ≡ some (after_the_day, handed_out)
unfolding steps abstract_step is_schedulable route new_message has_expired is_periodic
    has_retry_threshold_exceeded prepare reset set_queue set_published_at
a_day-abstract_steps = refl

operations-Represents_example :
    (result server (operations shop_queue a_day) empty ≡ done (map encode_reply handed_out))
    × Represents shop_queue (content server (operations shop_queue a_day) empty) after_the_day
operations-Represents_example =
    operations-Represents server server-IsReliable empty shop_queue shop_queue-IsReady a_day nothing
      empty-Represents a_day-abstract_steps

abbrev any : Message → Bool
any m = true

operations-standing_example :
    standing any shop_queue (content server (operations shop_queue a_day) empty)
    ≡ standing any shop_queue empty + count any (produced any shop_queue a_day)
operations-standing_example =
    operations-standing any server server-IsReliable empty shop_queue shop_queue-IsReady a_day
      nothing empty-Represents a_day-abstract_steps

-- The user's function consumes every message at once.
abbrev consume_all : ℕ → Message → List (Bool × ConsumeEvent)
consume_all j m = (true, consumed) ∷ []

abbrev settled_by : ℕ → Message → Action
settled_by j m = if (has_expired 3000 m).1 then Action.unacknowledge ttl_expired else acknowledge

consume_all-settles :
    (j : ℕ) (m : Message) → handle_received_message 3000 m (consume_all j m) ≡ settled_by j m ∷ []
unfolding handle_received_message has_expired start on_consumed on_event on_events
consume_all-settles j m = ground arith

abbrev two_sent : Contents
two_sent = put ready (sent ∷ sent ∷ []) nothing

abbrev two_in_queue : Keyspace
two_in_queue =
    set_list (place_key shop_queue ready) (Value.message sent ∷ Value.message sent ∷ []) empty

two_in_queue-Represents : Represents shop_queue two_in_queue two_sent
two_in_queue-Represents =
    set_list-Represents shop_queue names_ok ready (sent ∷ sent ∷ []) refl empty-Represents

rounds-settle_all_example :
    (result server
        (rounds (cycle_of shop_queue order (λ j. 3000) consume_all) true 3 1)
        two_in_queue
      ≡ waiting)
    × Represents shop_queue
        (content server
          (rounds (cycle_of shop_queue order (λ j. 3000) consume_all) true 3 1)
          two_in_queue)
        (settle_all (λ j. 3000) settled_by 3 (sent ∷ sent ∷ []) two_sent)
    × (settle_all (λ j. 3000) settled_by 3 (sent ∷ sent ∷ []) two_sent ready ≡ [])
    × (settle_all (λ j. 3000) settled_by 3 (sent ∷ sent ∷ []) two_sent held ≡ [])
rounds-settle_all_example =
    rounds-settle_all server server-IsReliable two_in_queue shop_queue shop_queue-IsReady order
      (λ j. 3000) consume_all settled_by (sent ∷ sent ∷ []) 3 two_sent consume_all-settles
      (omega arith) two_in_queue-Represents refl refl
