-- ===== src/Handlers/Processing.antt =====
-- src/system/message-manager/handlers/processing.handler.ts. The causes that the methods are given
-- are not used by them.
pub mod Settling
use redis_smq.Prelude.{Text, ℕ, Option, none, some}
use redis_smq.Message.{Message}
use redis_smq.Keys.{or_namespace}
use redis_smq.Keys.Names.{get_global_keys, get_keys}
use redis_smq.Redis.Command.{Command}
use redis_smq.Redis.Client.{Version, command, lpoprpush}
use redis_smq.Redis.Program.{Program, pure, ◌>>◌}
use redis_smq.Handlers.Common.{delete_list_message_at_sequence_id}

unfoldable pub delete_dead_letter_message :
    Text → Message → Text → Text → Option Text → ℕ → Text → Program (Unit {0})
unfolding delete_list_message_at_sequence_id
delete_dead_letter_message namespace fresh me name ns index message_id =
    delete_list_message_at_sequence_id fresh me get_global_keys.key_lock_delete_dead_letter_message
      (get_keys namespace name (some (or_namespace ns namespace))).key_queue_dl index message_id
      name (or_namespace ns namespace)

unfoldable pub delete_acknowledged_message :
    Text → Message → Text → Text → Option Text → ℕ → Text → Program (Unit {0})
unfolding delete_list_message_at_sequence_id
delete_acknowledged_message namespace fresh me name ns index message_id =
    delete_list_message_at_sequence_id fresh me get_global_keys.key_lock_delete_acknowledged_message
      (get_keys namespace name (some (or_namespace ns namespace))).key_queue_acknowledged_messages
      index message_id name (or_namespace ns namespace)

unfoldable pub dead_letter_message : Text → Option Version → Text → Text → Program (Unit {0})
unfolding lpoprpush
dead_letter_message namespace version name key_queue_processing = do
  lpoprpush version key_queue_processing (get_keys namespace name none).key_queue_dl
  pure tt

unfoldable pub acknowledge : Text → Option Version → Text → Text → Program (Unit {0})
unfolding lpoprpush
acknowledge namespace version name key_queue_processing = do
  lpoprpush version key_queue_processing
      (get_keys namespace name none).key_queue_acknowledged_messages
  pure tt

unfoldable pub delay_before_requeue : Text → Program (Unit {0})
delay_before_requeue key_queue_processing =
    command (Command.rpoplpush key_queue_processing get_global_keys.key_queue_delay)

unfoldable pub requeue : Text → Program (Unit {0})
requeue key_queue_processing =
    command (Command.rpoplpush key_queue_processing get_global_keys.key_queue_requeue)
