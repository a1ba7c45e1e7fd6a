-- ===== src/Tests/Priorities.antt =====
-- An example of a queue with priorities.
use redis_smq.Prelude.{
  codes, text_eq, Text-discrete, true, Option, none, some, List, [], ◌∷◌, ◌++◌, ◌≡◌, refl, map,
}
use redis_smq.Message.{Message, is_schedulable, reset, set_queue, set_published_at}
use redis_smq.Message.Defaults.{new_message}
use redis_smq.Redis.Keyspace.{empty}
use redis_smq.Redis.Program.{done}
use redis_smq.Redis.Server.{result, content}
use redis_smq.Redis.Simulation.{steps}
use redis_smq.Producer.{prepare}
use redis_smq.MessageFlow.{Setting, Operation, produce, take_next, operations}
use redis_smq.MessageFlow.Steps.{encode_reply}
use redis_smq.Redis.Keyspace.Ids.{has_id}
use redis_smq.PriorityFlow.{
  PriorityQueue, enqueued, abstract_step, abstract_steps, insert_by_priority,
}
use redis_smq.PriorityFlow.Steps.{Represents, IsReady}
use redis_smq.PriorityFlow.Refine.{operations-Represents_by_priority}
use redis_smq.PriorityFlow.Order.{IsSorted, operations-IsSorted, takes, all_taken}
use redis_smq.Tests.Samples.{
  server, server-IsReliable, orders, worker, names_ok, order, broker, next_minute,
}

abbrev priority_queue : Setting
priority_queue = record {
  broker = record broker { priority_queue = true };
  name = orders;
  id = worker;
  polls = 5;
  next_cron = next_minute;
}

priority_queue-IsReady : IsReady priority_queue
priority_queue-IsReady = record { priorities = refl; names = names_ok; looks = 4; looks_ok = refl }

abbrev nobody : PriorityQueue
nobody = record { pending = []; processing = [] }

empty-Represents : Represents priority_queue empty nobody
empty-Represents = record {
  ranked = refl;
  stored_ok = tt;
  held = refl;
  is_zset = record { no_list = refl; no_hash = refl; no_set = refl };
}

abbrev urgent : Message
urgent = record order { uuid = codes "m2"; priority = some 1 }

abbrev idle : Message
idle = record order { uuid = codes "m3"; priority = some 7 }

-- Three messages are produced, and one is taken.
abbrev rush : List Operation
rush = produce 2000 order ∷ produce 2001 idle ∷ produce 2002 urgent ∷ take_next ∷ []

abbrev after_the_rush : PriorityQueue
after_the_rush = record {
  pending = enqueued priority_queue 2000 order ∷ enqueued priority_queue 2001 idle ∷ [];
  processing = enqueued priority_queue 2002 urgent ∷ [];
}

abbrev in_the_rush : List (Option Message)
in_the_rush = none ∷ none ∷ none ∷ some (enqueued priority_queue 2002 urgent) ∷ []

rush-abstract_steps : abstract_steps priority_queue rush nobody ≡ some (after_the_rush, in_the_rush)
unfolding steps abstract_step is_schedulable new_message prepare reset set_queue set_published_at
    insert_by_priority has_id text_eq Text-discrete
rush-abstract_steps = refl

operations-Represents_by_priority_example :
    (result server (operations priority_queue rush) empty ≡ done (map encode_reply in_the_rush))
    × Represents priority_queue
        (content server (operations priority_queue rush) empty)
        after_the_rush
operations-Represents_by_priority_example =
    operations-Represents_by_priority server server-IsReliable empty priority_queue
      priority_queue-IsReady rush nobody empty-Represents rush-abstract_steps

operations-IsSorted_example :
    IsSorted after_the_rush.pending
    × (result server
          (operations priority_queue (rush ++ takes priority_queue after_the_rush.pending))
          empty
        ≡ done (map encode_reply (in_the_rush ++ all_taken priority_queue after_the_rush.pending)))
    × Represents priority_queue
        (content server
          (operations priority_queue (rush ++ takes priority_queue after_the_rush.pending))
          empty)
        (record { pending = []; processing = after_the_rush.processing ++ after_the_rush.pending })
operations-IsSorted_example =
    operations-IsSorted server server-IsReliable empty priority_queue priority_queue-IsReady rush
      nobody empty-Represents tt rush-abstract_steps
