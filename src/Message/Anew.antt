-- ===== src/Message/Anew.antt =====
-- src/system/message.ts: a message as it is when it enters a queue.
use redis_smq.Prelude.{Text, ℕ, false, none, some}
use redis_smq.Message.{Message}

-- Without its history, in a queue and published at a time; all else, the uuid, the creation time and
-- the scheduling parameters included, is kept.
abbrev pub anew : ℕ → Text → Text → Message → Message
anew now ns name m = record m {
  published_at = some now;
  scheduled_at = none;
  attempts = 0;
  expired = false;
  delayed = false;
  scheduled_cron_fired = false;
  scheduled_repeat_count = 0;
  queue = some (record { name = name; ns = ns });
}
