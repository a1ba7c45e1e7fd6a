-- ===== src/PriorityFlow.antt =====
-- src/system/message-manager/handlers/enqueue.handler.ts and dequeue.handler.ts with priorities: the
-- abstract queue that a queue with priorities implements. Its operations are those of MessageFlow; a
-- message is settled there as without priorities, and here only producing and taking have a place.
pub mod Stored
pub mod Steps
pub mod Refine
pub mod Order
use redis_smq.Prelude.{
  Text, ℕ, Bool, true, false, ◌&&◌, ◌||◌, Option, none, some, List, [], ◌∷◌, ◌++◌, ltb, ◌==◌,
  text_eq, if◌then◌else◌,
}
use redis_smq.Message.{Message, is_schedulable}
use redis_smq.Message.Priority.{priority_of, with_priority}
use redis_smq.Redis.Value.{Value, value_lt}
use redis_smq.Redis.Keyspace.Ids.{has_id}
use redis_smq.Redis.Simulation.{steps}
use redis_smq.Producer.Delivery.{delivered}
use redis_smq.MessageFlow.{
  Setting, Operation, produce, take_next, acknowledge, unacknowledge, operation,
}

-- The messages that wait, in the order of delivery, and those that the consumer holds.
pub record PriorityQueue : Type 0 where
  pub pending : List Message
  pub processing : List Message

-- The lower number is the higher priority; messages of one priority are in the order of their ids.
abbrev pub goes_before : Message → Message → Bool
goes_before m x =
    ltb (priority_of m) (priority_of x)
    || (priority_of m == priority_of x && value_lt (Value.text m.uuid) (Value.text x.uuid))

unfoldable pub insert_by_priority : Message → List Message → List Message
insert_by_priority m [] = m ∷ []
insert_by_priority m (x ∷ xs) =
    let rest = insert_by_priority m xs in if goes_before m x then m ∷ x ∷ xs else x ∷ rest

-- The message as it is enqueued.
abbrev pub enqueued : Setting → ℕ → Message → Message
enqueued c now m = with_priority (delivered c.broker.namespace c.name now m)

abbrev pub take_first : PriorityQueue → List Message → Option (PriorityQueue × Option Message)
take_first q [] = none
take_first q (m ∷ ms) = some (record { pending = ms; processing = q.processing ++ m ∷ [] }, some m)

-- An operation on the abstract queue and the message that it hands out, or none where the operation
-- has no place: a message is produced for the scheduler or with an id that waits already, or one is
-- asked for where none waits.
unfoldable pub abstract_step :
    Setting → Operation → PriorityQueue → Option (PriorityQueue × Option Message)
unfolding is_schedulable insert_by_priority has_id
abstract_step c (produce now m) q =
    if is_schedulable m || has_id m.uuid q.pending
    then none
    else some (record q { pending = insert_by_priority (enqueued c now m) q.pending }, none)
abstract_step c take_next q = take_first q q.pending
abstract_step c acknowledge q = none
abstract_step c (unacknowledge now m cause) q = none

abbrev pub abstract_steps :
    Setting → List Operation → PriorityQueue → Option (PriorityQueue × List (Option Message))
abstract_steps c = steps (abstract_step c)
