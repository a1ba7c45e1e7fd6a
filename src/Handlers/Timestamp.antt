-- ===== src/Handlers/Timestamp.antt =====
-- src/system/message-manager/handlers/schedule.handler.ts: getNextScheduledTimestamp. cron-parser is
-- the argument `next_cron`: the next time of an expression after a time.
pub mod Repeats
use redis_smq.Prelude.{
  Text, ℕ, ◌+◌, Bool, true, not, ◌&&◌, Option, none, some, [], ◌∷◌, ltb, leb, if◌then◌else◌,
}
use redis_smq.Message.{
  Message, is_schedulable, set_message_delayed, incr_message_scheduled_repeat_count,
  reset_message_scheduled_repeat_count, set_message_scheduled_cron_fired,
}

-- A number or null as a condition: 0 and null are false.
abbrev pub amount : Option ℕ → ℕ
amount none = 0
amount (some n) = n

abbrev pub is_true : ℕ → Bool
is_true n = ltb 0 n

-- 0 for no expression; an empty text is none.
unfoldable pub cron_timestamp : (Text → ℕ → ℕ) → ℕ → Option Text → ℕ
cron_timestamp next_cron now none = 0
cron_timestamp next_cron now (some []) = 0
cron_timestamp next_cron now (some (c ∷ cron)) = next_cron (c ∷ cron) now

-- Without a period a repeated message is due at once.
unfoldable pub repeat_timestamp : ℕ → Message → ℕ
repeat_timestamp now m =
    if is_true m.scheduled_repeat && leb (m.scheduled_repeat_count + 1) m.scheduled_repeat
    then now + amount m.scheduled_period
    else 0

-- The part after the delay, for a cron and a repeat timestamp.
unfoldable pub next_of : ℕ → ℕ → Message → Message × ℕ
unfolding incr_message_scheduled_repeat_count reset_message_scheduled_repeat_count
    set_message_scheduled_cron_fired
next_of cron repeat m =
    if (is_true repeat && is_true cron) && (ltb repeat cron && m.scheduled_cron_fired)
    then (incr_message_scheduled_repeat_count m, repeat)
    else if is_true cron
    then (set_message_scheduled_cron_fired true (reset_message_scheduled_repeat_count m), cron)
    else if is_true repeat
    then (incr_message_scheduled_repeat_count m, repeat)
    else (m, 0)

-- The message as the call leaves it, and the timestamp; 0 if it is not to be scheduled again.
unfoldable pub get_next_scheduled_timestamp : (Text → ℕ → ℕ) → ℕ → Message → Message × ℕ
unfolding is_schedulable set_message_delayed cron_timestamp repeat_timestamp next_of
get_next_scheduled_timestamp next_cron now m =
    if is_schedulable m
    then (if is_true (amount m.scheduled_delay) && not m.delayed
        then (set_message_delayed true m, now + amount m.scheduled_delay)
        else next_of (cron_timestamp next_cron now m.scheduled_cron) (repeat_timestamp now m) m)
    else (m, 0)
