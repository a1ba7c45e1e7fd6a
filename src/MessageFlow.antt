-- ===== src/MessageFlow.antt =====
-- src/system/broker.ts and src/system/producer/producer.ts: the messages of one queue, from a producer
-- through a consumer to where they are settled. The operations on Redis, and the abstract queue that
-- they implement.
pub mod Places
pub mod Steps
pub mod Refine
pub mod Counts
pub mod Conserved
pub mod Drain
pub mod Workers
pub mod Redelivered
use redis_smq.Prelude.{
  Text, ℕ, Bool, true, false, not, Option, none, some, List, [], ◌∷◌, ◌++◌, split_last, ◌==◌,
  if◌then◌else◌, map,
}
use redis_smq.Message.{Message, is_schedulable}
use redis_smq.Keys.{RedisKey, number}
use redis_smq.Redis.Value.{Value}
use redis_smq.Redis.Program.{Program, pure, ◌>>=◌, ◌>>◌}
use redis_smq.Redis.Simulation.{run_all, steps}
use redis_smq.Handlers.Dequeue.{new_dequeue_handler}
use redis_smq.Handlers.Processing.Settling.{processing_key}
use redis_smq.Broker.{
  Broker, UnacknowledgedCause, Route, dead_letter, delay_before_requeuing, requeue_at_once, route,
  retry, acknowledge_message, dequeue_message,
}
use redis_smq.Producer.{prepare, proceed}
use redis_smq.Producer.Delivery.{delivered}

-- What is done to a queue: a message is produced at a time, the consumer asks for a message, it
-- acknowledges the one that it holds, or does not, at a time and for a cause.
pub data Operation : Type 0 where
  produce : ℕ → Message → Operation
  take_next acknowledge : Operation
  unacknowledge : ℕ → Message → UnacknowledgedCause → Operation

-- The process, the queue's name, the consumer's id, and the parameters of the broker.
pub record Setting : Type 0 where
  pub broker : Broker
  pub name : Text
  pub id : Text
  pub polls : ℕ
  pub next_cron : Text → ℕ → ℕ

abbrev pub processing_of : Setting → Text
processing_of c = processing_key c.broker.namespace c.name c.id

-- An operation, and the message that the consumer receives by it.
unfoldable pub operation : Setting → Operation → Program (Option Value)
unfolding proceed prepare dequeue_message acknowledge_message retry
operation c (produce now m) = do
  proceed c.broker c.next_cron now (prepare c.broker.namespace c.name m)
  pure none
operation c take_next =
    dequeue_message c.broker c.polls
      (new_dequeue_handler c.broker.namespace c.name (processing_of c))
operation c acknowledge = do acknowledge_message c.broker c.name (processing_of c); pure none
operation c (unacknowledge now m cause) = do
  retry c.broker now c.name (processing_of c) m cause
  pure none

abbrev pub operations : Setting → List Operation → Program (List (Option Value))
operations c = run_all (operation c)

-- Where a message of the queue stands.
pub data Place : Type 0 where
  ready held acknowledged dead delayed requeued : Place

abbrev pub place_type : Place → RedisKey
place_type ready = RedisKey.queue
place_type held = RedisKey.queue_processing
place_type acknowledged = RedisKey.queue_acknowledged_messages
place_type dead = RedisKey.queue_dl
place_type delayed = RedisKey.queue_delay
place_type requeued = RedisKey.queue_requeue

abbrev pub same_place : Place → Place → Bool
same_place p q = number (place_type p) == number (place_type q)

-- The abstract queue: the messages at each place.
abbrev pub Contents : Type 0
Contents = Place → List Message

abbrev pub put : Place → List Message → Contents → Contents
put p ms q = λ r. if same_place p r then ms else q r

abbrev pub add_last : Place → Message → Contents → Contents
add_last p m q = put p (q p ++ m ∷ []) q

abbrev pub add_first : Place → Message → Contents → Contents
add_first p m q = put p (m ∷ q p) q

-- Where an unacknowledged message goes.
abbrev pub settle_by : Route → Message → Contents → Contents
settle_by (dead_letter c) m q = add_last dead m q
settle_by delay_before_requeuing m q = add_first delayed m q
settle_by requeue_at_once m q = add_first requeued m q

-- The last message that is ready becomes the one that is held.
abbrev pub hold : Option (List Message × Message) → Contents → Option (Contents × Option Message)
hold none q = none
hold (some (ms, m)) q = some (put held (m ∷ []) (put ready ms q), some m)

-- An operation on the abstract queue and the message that it hands out, or none where the operation
-- has no place: a message is asked for while another is held or while none is ready, a message is
-- settled that is not held, or the produced one is for the scheduler.
unfoldable pub abstract_step : Setting → Operation → Contents → Option (Contents × Option Message)
unfolding is_schedulable route
abstract_step c (produce now m) q =
    if is_schedulable m
    then none
    else some (add_last ready (delivered c.broker.namespace c.name now m) q, none)
abstract_step c take_next q = elim (q held) [ [] ↦ hold (split_last (q ready)) q | m ∷ ms ↦ none ]
abstract_step c acknowledge q = elim (q held) [
  | m ∷ [] ↦ some (add_last acknowledged m (put held [] q), none)
  | _ ↦ none
]
abstract_step c (unacknowledge now m cause) q = elim (q held) [
  | h ∷ [] ↦ some (settle_by (route now m cause) h (put held [] q), none)
  | _ ↦ none
]

abbrev pub abstract_steps :
    Setting → List Operation → Contents → Option (Contents × List (Option Message))
abstract_steps c = steps (abstract_step c)
