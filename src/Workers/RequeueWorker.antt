-- ===== src/Workers/RequeueWorker.antt =====
-- src/system/workers/requeue.worker.ts: one tick.
pub mod Lost
use redis_smq.Prelude.{Bool, true, false, Option, none, some, List, [], ◌∷◌, ◌++◌}
use redis_smq.Errors.{Result, ok, err, panic_error, ◌>>=◌}
use redis_smq.Message.{Message, MessageQueue, incr_attempts, get_set_priority}
use redis_smq.Keys.Names.{get_global_keys, queue_keys}
use redis_smq.Redis.Value.{Value, create_from_message}
use redis_smq.Redis.Command.{Command}
use redis_smq.Redis.Client
use redis_smq.Redis.Client.{exec_multi}
use redis_smq.Redis.Program
use redis_smq.Redis.Program.{Program, pure, lift}

-- With priority the sorted set's member is the text of the message.
abbrev pub requeued : Bool → MessageQueue → Message → Result (List Command)
requeued false q m = ok (Command.lpush (queue_keys q.ns q.name).key_queue (Value.message m) ∷ [])
requeued true q m = get_set_priority none m >>= λ r.
    ok (Command.zadd (queue_keys q.ns q.name).key_queue_priority r.1 (Value.message r.0) ∷ [])

abbrev pub requeue_in : Bool → Value → Message → Option MessageQueue → Result (List Command)
requeue_in with_priority i m none = err panic_error
requeue_in with_priority i m (some q) = requeued with_priority q (incr_attempts m) >>= λ commands.
    ok (Command.lrem get_global_keys.key_queue_requeue i ∷ commands)

unfoldable pub requeue_task : Bool → Message → Value → Result (List Command)
unfolding create_from_message incr_attempts get_set_priority
requeue_task with_priority fresh i =
    create_from_message fresh (some i) false >>= λ m. requeue_in with_priority i m m.queue

unfoldable pub requeue_tasks : Bool → Message → List Value → Result (List Command)
unfolding requeue_task
requeue_tasks with_priority fresh [] = ok []
requeue_tasks with_priority fresh (i ∷ is) =
    let rest = requeue_tasks with_priority fresh is in
    requeue_task with_priority fresh i >>= λ first. rest >>= λ others. ok (first ++ others)

abbrev pub requeue_messages : Bool → Message → List Value → Program (Unit {0})
requeue_messages with_priority fresh [] = pure tt
requeue_messages with_priority fresh (i ∷ is) =
    Program.◌>>=◌ (lift (requeue_tasks with_priority fresh (i ∷ is))) exec_multi

unfoldable pub on_tick : Bool → Message → Program (Unit {0})
unfolding requeue_tasks
on_tick with_priority fresh =
    Program.◌>>=◌ (Client.lrange get_global_keys.key_queue_requeue 0 99)
      (requeue_messages with_priority fresh)
