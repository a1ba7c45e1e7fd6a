-- ===== src/Handlers/Requeue.antt =====
-- src/system/message-manager/handlers/requeue.handler.ts
pub mod Requeued
pub mod Prioritised
pub mod Sent
use redis_smq.Prelude.{Text, ℕ, Bool, true, false, Option, none, some, List, ◌∷◌}
use redis_smq.Errors.{Result, ok, ◌>>=◌}
use redis_smq.Message.{Message, reset, set_queue, set_priority}
use redis_smq.Keys.{or_namespace}
use redis_smq.Keys.Names.{get_keys}
use redis_smq.Redis.Value.{Value, create_from_message}
use redis_smq.Redis.Command.{Command}
use redis_smq.Redis.Client.{exec_multi}
use redis_smq.Redis.Program
use redis_smq.Redis.Program.{Program, lift}
use redis_smq.Handlers.Common.{get_list_message_at_sequence_id}
use redis_smq.Handlers.Enqueue.{enqueue_multi}

-- `if (withPriority && typeof priority !== 'undefined') message.setPriority(priority)`
abbrev with_given_priority : Bool → Option ℕ → Message → Result Message
with_given_priority true (some p) m = set_priority p m
with_given_priority true none m = ok m
with_given_priority false priority m = ok m

-- The transaction that takes `msg` out of `from` and enqueues it anew.
unfoldable pub requeue_commands :
    ℕ → Text → Text → Text → Bool → Option ℕ → Message → Result (List Command)
unfolding create_from_message set_queue set_priority enqueue_multi reset
requeue_commands now namespace queue_name from with_priority priority msg = do
  m ← create_from_message msg (some (Value.message msg)) true
  m' ← with_given_priority with_priority priority (set_queue namespace queue_name m)
  enqueued ← enqueue_multi now m' with_priority
  ok (Command.lrem from (Value.message msg) ∷ enqueued.0)

unfoldable pub requeue_list_message :
    Text → Message → ℕ → Text → Option Text → Text → ℕ → Text → Bool → Option ℕ → Program (Unit {0})
unfolding get_list_message_at_sequence_id requeue_commands
requeue_list_message namespace fresh now name ns from index message_id with_priority priority =
    Program.◌>>=◌
      (get_list_message_at_sequence_id fresh from index message_id name (or_namespace ns namespace))
      λ msg.
        Program.◌>>=◌
          (lift
            (requeue_commands now (or_namespace ns namespace) name from with_priority priority msg))
          exec_multi

unfoldable pub requeue_message_from_dl_queue :
    Text → Message → ℕ → Text → Option Text → ℕ → Text → Bool → Option ℕ → Program (Unit {0})
unfolding requeue_list_message
requeue_message_from_dl_queue namespace fresh now name ns index message_id with_priority priority =
    requeue_list_message namespace fresh now name ns (get_keys namespace name ns).key_queue_dl index
      message_id with_priority priority

unfoldable pub requeue_message_from_acknowledged_queue :
    Text → Message → ℕ → Text → Option Text → ℕ → Text → Bool → Option ℕ → Program (Unit {0})
unfolding requeue_list_message
requeue_message_from_acknowledged_queue namespace fresh now name ns index message_id with_priority
      priority =
    requeue_list_message namespace fresh now name ns
      (get_keys namespace name ns).key_queue_acknowledged_messages index message_id with_priority
      priority
