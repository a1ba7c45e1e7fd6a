-- ===== src/Handlers/Enqueue.antt =====
-- src/system/message-manager/handlers/enqueue.handler.ts
use redis_smq.Prelude.{Text, ℕ, Bool, Option, none, some, List, [], ◌∷◌, if◌then◌else◌}
use redis_smq.Errors.{Error, Result, ok, err, panic_error}
use redis_smq.Errors
use redis_smq.Message.{Message, MessageQueue, set_published_at, get_set_priority}
use redis_smq.Keys.{or_namespace}
use redis_smq.Keys.Names.{get_global_keys, get_keys, queue_keys}
use redis_smq.Redis.Value.{Value}
use redis_smq.Redis.Command.{Command}
use redis_smq.Redis.Client.{command, exec_multi, zpushhset}
use redis_smq.Redis.Program.{Program, pure, raise, lift, ◌>>=◌}
use redis_smq.LockManager.{lock_fn, settle}
use redis_smq.Handlers.Common.{
  Page, get_paginated_list_messages, get_paginated_sorted_set_messages,
  delete_list_message_at_sequence_id,
}

unfoldable pub get_acknowledged_messages :
    Text → Message → Text → Option Text → ℕ → ℕ → Program (Page (ℕ × Message))
unfolding get_paginated_list_messages
get_acknowledged_messages namespace fresh name ns skip take =
    get_paginated_list_messages fresh (get_keys namespace name ns).key_queue_acknowledged_messages
      skip take

unfoldable pub get_dead_lettered_messages :
    Text → Message → Text → Option Text → ℕ → ℕ → Program (Page (ℕ × Message))
unfolding get_paginated_list_messages
get_dead_lettered_messages namespace fresh name ns skip take =
    get_paginated_list_messages fresh (get_keys namespace name ns).key_queue_dl skip take

unfoldable pub get_pending_messages :
    Text → Message → Text → Option Text → ℕ → ℕ → Program (Page (ℕ × Message))
unfolding get_paginated_list_messages
get_pending_messages namespace fresh name ns skip take =
    get_paginated_list_messages fresh (get_keys namespace name ns).key_queue skip take

unfoldable pub get_pending_messages_with_priority :
    Text → Message → Text → Option Text → ℕ → ℕ → Program (Page Message)
unfolding get_paginated_sorted_set_messages
get_pending_messages_with_priority namespace fresh name ns skip take =
    let keys = get_keys namespace name ns in
    get_paginated_sorted_set_messages fresh keys.key_pending_messages_with_priority
      keys.key_queue_priority skip take

-- In case the message does not exist, it was delivered or already deleted.
abbrev ignore_not_found : Result (Unit {0}) → Program (Unit {0})
ignore_not_found (ok u) = pure u
ignore_not_found (err (Errors.message_not_found_error i q n s)) = pure tt
ignore_not_found (err e) = raise e

unfoldable pub delete_pending_message :
    Text → Message → Text → Text → Option Text → ℕ → Text → Program (Unit {0})
unfolding delete_list_message_at_sequence_id
delete_pending_message namespace fresh me name ns sequence_id message_id =
    settle
      (delete_list_message_at_sequence_id fresh me get_global_keys.key_lock_delete_pending_message
        (get_keys namespace name (some (or_namespace ns namespace))).key_queue sequence_id
        message_id name (or_namespace ns namespace))
      ignore_not_found

unfoldable pub delete_pending_message_with_priority :
    Text → Text → Text → Option Text → Text → Program (Unit {0})
unfolding lock_fn
delete_pending_message_with_priority namespace me name ns message_id =
    let keys = get_keys namespace name ns in
    lock_fn me get_global_keys.key_lock_delete_pending_message_with_priority (
      exec_multi (
        Command.hdel keys.key_pending_messages_with_priority (Value.text message_id ∷ [])
        ∷ Command.zrem keys.key_queue_priority (Value.text message_id)
        ∷ []))

-- The commands that are added to a transaction, and the message as it is written.
abbrev Enqueued : Type 0
Enqueued = List Command × Message

-- `message.getSetPriority(undefined)`, and the commands that enqueueMessageWithPriorityMulti makes
-- of the message with its priority.
abbrev pub with_priority_commands : Text → Text → Message × ℕ → Enqueued
with_priority_commands ns name (m, priority) = (
  Command.hset (queue_keys ns name).key_pending_messages_with_priority (Value.text m.uuid)
        (Value.message m)
      ∷ Command.zadd (queue_keys ns name).key_queue_priority priority (Value.text m.uuid)
      ∷ [],
  m,
)

unfoldable pub enqueue_message_with_priority_multi : Text → Text → Message → Result Enqueued
unfolding get_set_priority
enqueue_message_with_priority_multi ns name m = elim (get_set_priority none m) [
  | err e ↦ err e
  | ok r ↦ ok (with_priority_commands ns name r)
]

unfoldable pub enqueue_message_with_priority : Text → Text → Message → Program (Unit {0})
unfolding get_set_priority zpushhset
enqueue_message_with_priority ns name m = do
  r ← lift (get_set_priority none m)
  zpushhset (queue_keys ns name).key_queue_priority
      (queue_keys ns name).key_pending_messages_with_priority r.1 (Value.text m.uuid)
      (Value.message r.0)

abbrev enqueue_multi_at : Bool → Message → Option MessageQueue → Result Enqueued
enqueue_multi_at with_priority m none = err panic_error
enqueue_multi_at with_priority m (some q) =
    if with_priority
    then enqueue_message_with_priority_multi q.ns q.name m
    else ok (Command.rpush (queue_keys q.ns q.name).key_queue (Value.message m) ∷ [], m)

-- `enqueue(multi, message, withPriority)`: the commands that are added to the transaction.
unfoldable pub enqueue_multi : ℕ → Message → Bool → Result Enqueued
unfolding enqueue_message_with_priority_multi set_published_at
enqueue_multi now m with_priority = enqueue_multi_at with_priority (set_published_at now m) m.queue

abbrev enqueue_at : Bool → Message → Option MessageQueue → Program (Unit {0})
enqueue_at with_priority m none = raise panic_error
enqueue_at with_priority m (some q) =
    if with_priority
    then enqueue_message_with_priority q.ns q.name m
    else command (Command.rpush (queue_keys q.ns q.name).key_queue (Value.message m))

-- `enqueue(redisClient, message, withPriority, cb)`
unfoldable pub enqueue : ℕ → Message → Bool → Program (Unit {0})
unfolding enqueue_message_with_priority set_published_at
enqueue now m with_priority = enqueue_at with_priority (set_published_at now m) m.queue
