-- ===== src/Message/Valid.antt =====
-- src/system/message.ts: what the setters guarantee of every message.
use redis_smq.Prelude.{List, [], ◌∷◌, Bool, true, ℕ, ◌≤◌, ◌≡◌, ◌⊎◌, Option, none, some, Text, arith}
use redis_smq.Errors.{Result, ok, err}
use redis_smq.Message.{
  reset, set_scheduled_period, set_scheduled_delay, set_ttl, set_consume_timeout, set_retry_delay,
  set_retry_threshold, set_scheduled_repeat, set_priority, set_scheduled_cron, set_body, set_queue,
  get_set_priority, has_expired, incr_attempts, set_scheduled_at, set_attempts, set_published_at,
  set_message_scheduled_repeat_count, set_message_scheduled_cron_fired, set_message_delayed,
  incr_message_scheduled_repeat_count, reset_message_scheduled_repeat_count, includes, priorities,
  Message,
}
use redis_smq.Message.Defaults.{DefaultOptions, PartialOptions, new_message, set_default_options}

-- A duration in milliseconds that is switched off, or of at least one second.
abbrev pub IsDuration : ℕ → Type 0
IsDuration n = (n ≡ 0) ⊎ (1000 ≤ n)

abbrev pub IsAtLeastSecond : Option ℕ → Type 0
IsAtLeastSecond none = Unit
IsAtLeastSecond (some n) = 1000 ≤ n

abbrev pub IsPriority : Option ℕ → Type 0
IsPriority none = Unit
IsPriority (some p) = p ≤ 7

pub record IsValid (m : Message) : Type 0 where
  pub ttl_ok : IsDuration m.ttl
  pub retry_delay_ok : IsDuration m.retry_delay
  pub consume_timeout_ok : IsDuration m.consume_timeout
  pub scheduled_delay_ok : IsAtLeastSecond m.scheduled_delay
  pub scheduled_period_ok : IsAtLeastSecond m.scheduled_period
  pub priority_ok : IsPriority m.priority

pub record HasValidDefaults (d : DefaultOptions) : Type 0 where
  pub ttl_ok : IsDuration d.ttl
  pub retry_delay_ok : IsDuration d.retry_delay
  pub consume_timeout_ok : IsDuration d.consume_timeout

-- The result, if there is one, satisfies `P`.
abbrev pub Ensures {ℓ} : {A : Type ℓ} → (A → Type 0) → Result A → Type 0
Ensures P (ok a) = P a
Ensures P (err e) = Unit

-- Whatever options are given over valid defaults: they are refused, or the new defaults are valid:
-- each duration is 0 or at least a second.
pub set_default_options-HasValidDefaults :
    (o : PartialOptions) (d : DefaultOptions)
    → HasValidDefaults d
    → Ensures HasValidDefaults (set_default_options o d)
unfolding set_default_options
set_default_options-HasValidDefaults o d h = ground arith

pub new_message-IsValid :
    (d : DefaultOptions) (now : ℕ) (uuid : Text)
    → HasValidDefaults d
    → IsValid (new_message d now uuid)
unfolding new_message
new_message-IsValid d now uuid h = ground arith

-- The calls by which a program may change a message.
pub data Edit : Type 0 where
  set_scheduled_period_to set_scheduled_delay_to set_ttl_to set_consume_timeout_to : ℕ → Edit
  set_retry_delay_to set_retry_threshold_to set_scheduled_repeat_to set_priority_to : ℕ → Edit
  set_scheduled_cron_to : Result (Unit {0}) → Text → Edit
  set_body_to : Text → Edit
  set_queue_to : Text → Text → Edit
  get_set_priority_from : Option ℕ → Edit
  check_expiry : ℕ → Edit
  reset_it increment_attempts : Edit
  set_scheduled_at_to set_attempts_to set_published_at_to set_repeat_count_to : ℕ → Edit
  set_cron_fired_to set_delayed_to : Bool → Edit
  increment_repeat_count reset_repeat_count : Edit

abbrev first_of : Result (Message × ℕ) → Result Message
first_of (ok (m, p)) = ok m
first_of (err e) = err e

unfoldable pub edit : Edit → Message → Result Message
unfolding set_scheduled_period set_scheduled_delay set_ttl set_consume_timeout set_retry_delay
    set_retry_threshold set_scheduled_repeat set_priority set_scheduled_cron set_body set_queue
    get_set_priority has_expired reset incr_attempts set_scheduled_at set_attempts set_published_at
    set_message_scheduled_repeat_count set_message_scheduled_cron_fired set_message_delayed
    incr_message_scheduled_repeat_count reset_message_scheduled_repeat_count
edit (set_scheduled_period_to n) m = set_scheduled_period n m
edit (set_scheduled_delay_to n) m = set_scheduled_delay n m
edit (set_ttl_to n) m = set_ttl n m
edit (set_consume_timeout_to n) m = set_consume_timeout n m
edit (set_retry_delay_to n) m = set_retry_delay n m
edit (set_retry_threshold_to n) m = ok (set_retry_threshold n m)
edit (set_scheduled_repeat_to n) m = ok (set_scheduled_repeat n m)
edit (set_priority_to n) m = set_priority n m
edit (set_scheduled_cron_to verdict cron) m = set_scheduled_cron (λ c. verdict) cron m
edit (set_body_to body) m = ok (set_body body m)
edit (set_queue_to ns name) m = ok (set_queue ns name m)
edit (get_set_priority_from p) m = first_of (get_set_priority p m)
edit (check_expiry now) m = ok (has_expired now m).0
edit reset_it m = ok (reset m)
edit increment_attempts m = ok (incr_attempts m)
edit (set_scheduled_at_to n) m = ok (set_scheduled_at n m)
edit (set_attempts_to n) m = ok (set_attempts n m)
edit (set_published_at_to n) m = ok (set_published_at n m)
edit (set_cron_fired_to b) m = ok (set_message_scheduled_cron_fired b m)
edit (set_delayed_to b) m = ok (set_message_delayed b m)
edit (set_repeat_count_to n) m = ok (set_message_scheduled_repeat_count n m)
edit increment_repeat_count m = ok (incr_message_scheduled_repeat_count m)
edit reset_repeat_count m = ok (reset_message_scheduled_repeat_count m)

abbrev or_same : Message → Result Message → Message
or_same m (ok m') = m'
or_same m (err x) = m

-- A call that throws leaves the message as it was.
unfoldable pub edits : List Edit → Message → Message
edits [] m = m
edits (e ∷ es) m = edits es (or_same m (edit e m))

priority_bound : (p : ℕ) → includes priorities p ≡ true → p ≤ 7
priority_bound p h = ground arith

edit-IsValid : (e : Edit) (m : Message) → IsValid m → Ensures IsValid (edit e m)
unfolding edit
edit-IsValid (set_priority_to n) m v = ground (arith, priority_bound n)
edit-IsValid (get_set_priority_from none) m v = ground arith
edit-IsValid (get_set_priority_from (some n)) m v = ground (arith, priority_bound n)
edit-IsValid _ m v = ground arith

or_same-IsValid :
    (m : Message) (r : Result Message) → IsValid m → Ensures IsValid r → IsValid (or_same m r)
or_same-IsValid m (ok m') v w = w
or_same-IsValid m (err x) v w = v

edits-IsValid : (es : List Edit) (m : Message) → IsValid m → IsValid (edits es m)
unfolding edits
edits-IsValid [] m v = v
edits-IsValid (e ∷ es) m v =
    edits-IsValid es (or_same m (edit e m)) (or_same-IsValid m (edit e m) v (edit-IsValid e m v))

-- A message made under valid defaults, after any calls of the methods, those that throw included: the
-- time to live, the retry delay and the consume timeout are 0 or at least a second, a scheduling
-- delay or period is at least a second, and a priority is at most 7.
pub new_message-edits-IsValid :
    (d : DefaultOptions) (now : ℕ) (uuid : Text) (es : List Edit)
    → HasValidDefaults d
    → IsValid (edits es (new_message d now uuid))
new_message-edits-IsValid d now uuid es h =
    edits-IsValid es (new_message d now uuid) (new_message-IsValid d now uuid h)
