-- ===== src/Frontends/Messages.antt =====
-- src/system/message-manager/message-manager-frontend.ts
use redis_smq.Prelude.{Text, ℕ, Option}
use redis_smq.Message.{Message}
use redis_smq.Redis.Program.{Program}
use redis_smq.Handlers.Common.{Page}
use redis_smq.Handlers.Manager.Admin
use redis_smq.Handlers.Manager.Admin.{Listing, Deletion, Requeuing}

abbrev pub delete_scheduled_message : Text → Text → Program (Unit {0})
delete_scheduled_message = Admin.delete_scheduled_message

abbrev pub delete_dead_letter_message : Deletion
delete_dead_letter_message = Admin.delete_dead_letter_message

abbrev pub delete_acknowledged_message : Deletion
delete_acknowledged_message = Admin.delete_acknowledged_message

abbrev pub delete_pending_message : Deletion
delete_pending_message = Admin.delete_pending_message

abbrev pub delete_pending_message_with_priority :
    Text → Text → Text → Option Text → Text → Program (Unit {0})
delete_pending_message_with_priority = Admin.delete_pending_message_with_priority

abbrev pub requeue_message_from_dl_queue : Requeuing
requeue_message_from_dl_queue = Admin.requeue_message_from_dl_queue

abbrev pub requeue_message_from_acknowledged_queue : Requeuing
requeue_message_from_acknowledged_queue = Admin.requeue_message_from_acknowledged_queue

abbrev pub get_acknowledged_messages : Listing (ℕ × Message)
get_acknowledged_messages = Admin.get_acknowledged_messages

abbrev pub get_dead_letter_messages : Listing (ℕ × Message)
get_dead_letter_messages = Admin.get_dead_lettered_messages

abbrev pub get_pending_messages : Listing (ℕ × Message)
get_pending_messages = Admin.get_pending_messages

abbrev pub get_pending_messages_with_priority : Listing Message
get_pending_messages_with_priority = Admin.get_pending_messages_with_priority

abbrev pub get_scheduled_messages : Message → ℕ → ℕ → Program (Page Message)
get_scheduled_messages = Admin.get_scheduled_messages
