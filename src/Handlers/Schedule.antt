-- ===== src/Handlers/Schedule.antt =====
-- src/system/message-manager/handlers/schedule.handler.ts
pub mod Due
pub mod Left
use redis_smq.Prelude.{
  Text, ℕ, Bool, true, false, Option, none, some, List, [], ◌∷◌, ◌++◌, ltb, if◌then◌else◌,
}
use redis_smq.Errors.{Error, Result, ok, err}
use redis_smq.Message.{Message, set_scheduled_at}
use redis_smq.Keys.Names.{get_global_keys}
use redis_smq.Redis.Value.{Value}
use redis_smq.Redis.Command.{Command, Reply}
use redis_smq.Redis.Client
use redis_smq.Redis.Client.{exec_multi}
use redis_smq.Redis.Program.{Program, pure, raise, send, transaction, lift, ◌>>=◌, ◌>>◌}
use redis_smq.LockManager.{lock_fn}
use redis_smq.Handlers.Common.{Page, create_all, get_paginated_sorted_set_messages}
use redis_smq.Handlers.Enqueue.{enqueue_multi}
use redis_smq.Handlers.Timestamp.{get_next_scheduled_timestamp}

unfoldable pub get_scheduled_messages_count : Program ℕ
get_scheduled_messages_count = Client.zcard get_global_keys.key_queue_scheduled

unfoldable pub get_scheduled_messages : Message → ℕ → ℕ → Program (Page Message)
unfolding get_paginated_sorted_set_messages
get_scheduled_messages fresh skip take =
    get_paginated_sorted_set_messages fresh get_global_keys.key_scheduled_messages
      get_global_keys.key_queue_scheduled skip take

-- Not checking the existence of the message.
unfoldable pub delete_scheduled : Text → Text → Program (Unit {0})
unfolding lock_fn
delete_scheduled me message_id = lock_fn me get_global_keys.key_lock_delete_scheduled_message (
    exec_multi (
      Command.hdel get_global_keys.key_scheduled_messages (Value.text message_id ∷ [])
      ∷ Command.zrem get_global_keys.key_queue_scheduled (Value.text message_id)
      ∷ []))

-- The commands that put a message under a timestamp.
abbrev pub put_scheduled : Message → ℕ → List Command
put_scheduled m timestamp =
    Command.zadd get_global_keys.key_queue_scheduled timestamp (Value.text m.uuid)
    ∷ Command.hset get_global_keys.key_scheduled_messages (Value.text m.uuid) (Value.message m)
    ∷ []

abbrev pub drop_scheduled : Message → List Command
drop_scheduled m =
    Command.zrem get_global_keys.key_queue_scheduled (Value.text m.uuid)
    ∷ Command.hdel get_global_keys.key_scheduled_messages (Value.text m.uuid ∷ [])
    ∷ []

-- The protected `scheduleMessage(multi, message, timestamp)`.
unfoldable pub schedule_message : ℕ → Message → ℕ → List Command
unfolding set_scheduled_at
schedule_message now m timestamp = put_scheduled (set_scheduled_at now m) timestamp

-- `schedule(message, multi)`: the commands that are added to the transaction.
unfoldable pub schedule_multi : (Text → ℕ → ℕ) → ℕ → Message → List Command
unfolding get_next_scheduled_timestamp schedule_message
schedule_multi next_cron now m =
    let (m', timestamp) = get_next_scheduled_timestamp next_cron now m in
    if ltb 0 timestamp then schedule_message now m' timestamp else []

-- `schedule(message, undefined, cb)`: whether the message was scheduled.
unfoldable pub schedule : (Text → ℕ → ℕ) → ℕ → Message → Program Bool
unfolding get_next_scheduled_timestamp schedule_message
schedule next_cron now m =
    let (m', timestamp) = get_next_scheduled_timestamp next_cron now m in
    if ltb 0 timestamp
    then (do exec_multi (schedule_message now m' timestamp); pure true)
    else pure false

-- The commands for one due message: it is enqueued, and scheduled again or dropped.
abbrev pub reschedule : Message × ℕ → List Command
reschedule (m, timestamp) = if ltb 0 timestamp then put_scheduled m timestamp else drop_scheduled m

unfoldable pub enqueue_scheduled : (Text → ℕ → ℕ) → ℕ → Bool → Message → Result (List Command)
unfolding enqueue_multi get_next_scheduled_timestamp
enqueue_scheduled next_cron now with_priority m = elim (enqueue_multi now m with_priority) [
  | err e ↦ err e
  | ok (commands, m') ↦ ok (commands ++ reschedule (get_next_scheduled_timestamp next_cron now m'))
]

-- `done(err)` of each task is collected: the first error is reported at the end.
abbrev pub report : Option Error → Program (Unit {0})
report none = pure tt
report (some e) = raise e

abbrev pub keep_first : Option Error → Result Reply → Option Error
keep_first (some e) answer = some e
keep_first none (ok r) = none
keep_first none (err e) = some e

-- `async.each`: the tasks are started in order. What a task throws stops the loop.
unfoldable pub enqueue_each :
    (Text → ℕ → ℕ) → ℕ → Bool → Option Error → List Message → Program (Unit {0})
unfolding enqueue_scheduled
enqueue_each next_cron now with_priority first_error [] = report first_error
enqueue_each next_cron now with_priority first_error (m ∷ ms) =
    let rest = λ (e : Option Error). enqueue_each next_cron now with_priority e ms in
    elim (enqueue_scheduled next_cron now with_priority m) [
      | err e ↦ raise e
      | ok commands ↦ send (transaction commands) (λ answer. rest (keep_first first_error answer))
    ]

abbrev pub fetch_messages : Message → List Value → Program (List Message)
fetch_messages fresh [] = pure []
fetch_messages fresh (id ∷ ids) = do
  reply ← Client.hmget get_global_keys.key_scheduled_messages (id ∷ ids)
  lift (create_all fresh reply)

unfoldable pub enqueue_scheduled_messages : (Text → ℕ → ℕ) → Message → ℕ → Bool → Program (Unit {0})
unfolding enqueue_each create_all
enqueue_scheduled_messages next_cron fresh now with_priority = do
  ids ← Client.zrangebyscore get_global_keys.key_queue_scheduled 0 now
  messages ← fetch_messages fresh ids
  enqueue_each next_cron now with_priority none messages
