-- ===== src/Message.antt =====
-- src/system/message.ts: the message object. A setter returns the new object, or the error that it
-- throws. Times are in milliseconds; numbers are natural numbers (no negative, fractional or NaN
-- argument). The clock, the fresh uuid and the test of a CRON expression are arguments.
pub mod Defaults
pub mod Valid
pub mod Priority
pub mod Anew
use redis_smq.Prelude.{
  Text, ℕ, ◌+◌, Bool, true, false, not, ◌&&◌, ◌||◌, Option, none, some, List, [], ◌∷◌, ltb, leb,
  ◌==◌, if◌then◌else◌,
}
use redis_smq.Errors.{Result, ok, err, ◌>>=◌, ◌>>◌, throw_if, argument_error}

pub record MessageQueue : Type 0 where
  pub name : Text
  pub ns : Text

pub record Message : Type 0 where
  pub ttl : ℕ
  pub retry_threshold : ℕ
  pub retry_delay : ℕ
  pub consume_timeout : ℕ
  -- `unknown`: any JSON text
  pub body : Text
  pub priority : Option ℕ
  pub scheduled_cron : Option Text
  pub scheduled_delay : Option ℕ
  pub scheduled_period : Option ℕ
  pub scheduled_repeat : ℕ
  pub uuid : Text
  pub created_at : ℕ
  pub queue : Option MessageQueue
  pub published_at : Option ℕ
  pub scheduled_at : Option ℕ
  pub scheduled_cron_fired : Bool
  pub attempts : ℕ
  pub scheduled_repeat_count : ℕ
  pub delayed : Bool
  pub expired : Bool

-- `Object.values(Message.MessagePriority)`
abbrev pub priorities : List ℕ
priorities = 7 ∷ 6 ∷ 5 ∷ 4 ∷ 3 ∷ 2 ∷ 1 ∷ 0 ∷ []

abbrev pub normal : ℕ
normal = 4

abbrev includes : List ℕ → ℕ → Bool
includes [] x = false
includes (y ∷ ys) x = y == x || includes ys x

-- The system parameters, but not the uuid, the creation time and the scheduling parameters.
unfoldable pub reset : Message → Message
reset m = record m {
  published_at = none;
  scheduled_at = none;
  attempts = 0;
  expired = false;
  delayed = false;
  scheduled_cron_fired = false;
  scheduled_repeat_count = 0;
  queue = none;
}

unfoldable pub set_scheduled_at : ℕ → Message → Message
set_scheduled_at timestamp m = record m { scheduled_at = some timestamp }

unfoldable pub set_scheduled_period : ℕ → Message → Result Message
set_scheduled_period period m = do
  throw_if (ltb period 1000) argument_error
  ok (record m { scheduled_period = some period })

unfoldable pub set_scheduled_delay : ℕ → Message → Result Message
set_scheduled_delay delay m = do
  throw_if (ltb delay 1000) argument_error
  ok (record m { scheduled_delay = some delay; delayed = false })

-- `parses` is cron-parser's verdict on the expression.
unfoldable pub set_scheduled_cron : (Text → Result (Unit {0})) → Text → Message → Result Message
set_scheduled_cron parses cron m = do parses cron; ok (record m { scheduled_cron = some cron })

unfoldable pub set_scheduled_repeat : ℕ → Message → Message
set_scheduled_repeat repeat m = record m { scheduled_repeat = repeat }

unfoldable pub set_ttl : ℕ → Message → Result Message
set_ttl ttl m = do throw_if (ltb ttl 1000) argument_error; ok (record m { ttl = ttl })

unfoldable pub set_consume_timeout : ℕ → Message → Result Message
set_consume_timeout timeout m = do
  throw_if (ltb timeout 1000) argument_error
  ok (record m { consume_timeout = timeout })

unfoldable pub set_retry_threshold : ℕ → Message → Message
set_retry_threshold threshold m = record m { retry_threshold = threshold }

unfoldable pub set_retry_delay : ℕ → Message → Result Message
set_retry_delay delay m = do
  throw_if (ltb delay 1000) argument_error
  ok (record m { retry_delay = delay })

unfoldable pub set_attempts : ℕ → Message → Message
set_attempts attempts m = record m { attempts = attempts }

unfoldable pub incr_attempts : Message → Message
unfolding set_attempts
incr_attempts m = set_attempts (m.attempts + 1) m

unfoldable pub set_body : Text → Message → Message
set_body body m = record m { body = body }

unfoldable pub set_message_scheduled_repeat_count : ℕ → Message → Message
set_message_scheduled_repeat_count count m = record m { scheduled_repeat_count = count }

unfoldable pub set_message_scheduled_cron_fired : Bool → Message → Message
set_message_scheduled_cron_fired fired m = record m { scheduled_cron_fired = fired }

unfoldable pub incr_message_scheduled_repeat_count : Message → Message
incr_message_scheduled_repeat_count m = record m {
  scheduled_repeat_count = m.scheduled_repeat_count + 1;
}

unfoldable pub reset_message_scheduled_repeat_count : Message → Message
reset_message_scheduled_repeat_count m = record m { scheduled_repeat_count = 0 }

unfoldable pub set_message_delayed : Bool → Message → Message
set_message_delayed delayed m = record m { delayed = delayed }

unfoldable pub set_priority : ℕ → Message → Result Message
set_priority priority m = do
  throw_if (not (includes priorities priority)) argument_error
  ok (record m { priority = some priority })

unfoldable pub set_queue : Text → Text → Message → Message
set_queue ns name m = record m { queue = some (record { name = name; ns = ns }) }

unfoldable pub set_published_at : ℕ → Message → Message
set_published_at timestamp m = record m { published_at = some timestamp }

-- The verdict is kept in the object. `createdAt + ttl - now <= 0` on integers is `≤`.
unfoldable pub has_expired : ℕ → Message → Message × Bool
has_expired now m =
    let checked =
      if m.expired
      then m
      else if m.ttl == 0
      then m
      else record m { expired = leb (m.created_at + m.ttl) now } in
    (checked, checked.expired)

unfoldable pub has_retry_threshold_exceeded : Message → Bool
has_retry_threshold_exceeded m =
    if m.retry_threshold == 0 then false else leb m.retry_threshold (m.attempts + 1)

abbrev pub or_else : Option ℕ → ℕ → ℕ
or_else none d = d
or_else (some p) d = p

-- `msgPriority !== this.getPriority()`
abbrev differs : ℕ → Option ℕ → Bool
differs p none = true
differs p (some q) = not (p == q)

unfoldable pub get_set_priority : Option ℕ → Message → Result (Message × ℕ)
unfolding set_priority
get_set_priority priority m =
    let default_priority = or_else priority normal in
    let message_priority = or_else m.priority default_priority in
    throw_if (not (includes priorities default_priority)) argument_error
    >> (if differs message_priority m.priority then set_priority message_priority m else ok m)
    >>= λ m'. ok (m', message_priority)

abbrev is_some {ℓ} : {A : Type ℓ} → Option A → Bool
is_some none = false
is_some (some a) = true

unfoldable pub is_schedulable : Message → Bool
is_schedulable m = is_some m.scheduled_cron || is_some m.scheduled_delay || ltb 0 m.scheduled_repeat

unfoldable pub is_periodic : Message → Bool
is_periodic m = is_some m.scheduled_cron || ltb 0 m.scheduled_repeat
