-- ===== src/Handlers/Dequeue.antt =====
-- src/system/message-manager/handlers/dequeue.handler.ts
use redis_smq.Prelude.{Text, ℕ, zero, suc, Option, none, some}
use redis_smq.Keys.Names.{queue_keys}
use redis_smq.Redis.Value.{Value}
use redis_smq.Redis.Client.{brpoplpush, zpophgetrpush}
use redis_smq.Redis.Program.{Program, pure, wait, ◌>>=◌}

pub record DequeueHandler : Type 0 where
  pub key_queue : Text
  pub key_queue_priority : Text
  pub key_pending_messages_with_priority : Text
  pub key_queue_processing : Text

-- The constructor; the keys are those of the process's own namespace.
abbrev pub new_dequeue_handler : Text → Text → Text → DequeueHandler
new_dequeue_handler namespace name key_queue_processing = record {
  key_queue = (queue_keys namespace name).key_queue;
  key_queue_priority = (queue_keys namespace name).key_queue_priority;
  key_pending_messages_with_priority =
      (queue_keys namespace name).key_pending_messages_with_priority;
  key_queue_processing = key_queue_processing;
}

-- The reply, or the next poll.
abbrev pub reply_or : Program Value → Option Value → Program Value
reply_or again none = again
reply_or again (some v) = pure v

-- Polls every second until a message is there. After `polls` more polls the call has not returned.
unfoldable pub dequeue_with_priority : ℕ → DequeueHandler → Program Value
unfolding zpophgetrpush
dequeue_with_priority zero h = wait
dequeue_with_priority (suc polls) h =
    let again = dequeue_with_priority polls h in
    zpophgetrpush h.key_queue_priority h.key_pending_messages_with_priority h.key_queue_processing
    >>= reply_or again

-- Blocks until a message is there.
unfoldable pub dequeue : DequeueHandler → Program (Option Value)
dequeue h = brpoplpush h.key_queue h.key_queue_processing
