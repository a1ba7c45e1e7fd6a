-- ===== src/Message/Priority.antt =====
-- src/system/message.ts: the priority of a message that is enqueued with one.
use redis_smq.Prelude.{ℕ, none, some, ◌≡◌, arith}
use redis_smq.Errors.{ok}
use redis_smq.Message.{Message, get_set_priority, set_priority, normal, or_else}

-- The priority of a message, or the default one.
abbrev pub priority_of : Message → ℕ
priority_of m = or_else m.priority normal

abbrev pub with_priority : Message → Message
with_priority m = record m { priority = some (priority_of m) }

pub get_set_priority_lem :
    (m : Message) → get_set_priority none m ≡ ok (with_priority m, priority_of m)
unfolding get_set_priority set_priority
get_set_priority_lem m = ground arith
