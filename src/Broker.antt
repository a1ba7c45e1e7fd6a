-- ===== src/Broker.antt =====
-- src/system/broker.ts: what becomes of a message that is produced, acknowledged or not acknowledged.
-- The log lines and the causes that are only passed on are left out.
pub mod Retries
pub mod Failing
pub mod Refused
use redis_smq.Prelude.{
  Text, ℕ, Bool, true, false, not, ◌||◌, Option, none, some, if◌then◌else◌, ltb,
}
use redis_smq.Message.{Message, has_expired, has_retry_threshold_exceeded, is_periodic}
use redis_smq.Redis.Value.{Value}
use redis_smq.Redis.Client.{Version}
use redis_smq.Redis.Program.{Program, pure, ◌>>=◌}
use redis_smq.Handlers.Dequeue.{DequeueHandler}
use redis_smq.Handlers.Manager

-- `EMessageUnacknowledgedCause` of types/index.ts
pub data UnacknowledgedCause : Type 0 where
  timeout caught_error unacknowledged recovery ttl_expired : UnacknowledgedCause

-- `EMessageDeadLetterCause` of types/index.ts
pub data DeadLetterCause : Type 0 where
  message_ttl_expired retry_threshold_exceeded periodic_message : DeadLetterCause

abbrev pub is_ttl_expired : UnacknowledgedCause → Bool
is_ttl_expired ttl_expired = true
is_ttl_expired _ = false

-- Where a message goes that was not acknowledged.
pub data Route : Type 0 where
  dead_letter : DeadLetterCause → Route
  delay_before_requeuing : Route
  requeue_at_once : Route

-- The branches of `retry`.
unfoldable pub route : ℕ → Message → UnacknowledgedCause → Route
unfolding has_expired has_retry_threshold_exceeded is_periodic
route now m cause =
    if is_ttl_expired cause || (has_expired now m).1
    then dead_letter message_ttl_expired
    else if is_periodic m
    then dead_letter periodic_message
    else if not (has_retry_threshold_exceeded m)
    then (if ltb 0 m.retry_delay then delay_before_requeuing else requeue_at_once)
    else dead_letter retry_threshold_exceeded

-- The process: its namespace, the version of the server, and `config.priorityQueue === true`.
pub record Broker : Type 0 where
  pub namespace : Text
  pub version : Option Version
  pub priority_queue : Bool

unfoldable pub follow : Broker → Text → Text → Route → Program (Unit {0})
follow b name processing (dead_letter cause) =
    Manager.dead_letter_unacknowledged_message b.namespace b.version name processing
follow b name processing delay_before_requeuing =
    Manager.delay_unacknowledged_message_before_requeuing processing
follow b name processing requeue_at_once = Manager.requeue_unacknowledged_message processing

unfoldable pub retry : Broker → ℕ → Text → Text → Message → UnacknowledgedCause → Program (Unit {0})
unfolding route follow
retry b now name processing m cause = follow b name processing (route now m cause)

unfoldable pub unacknowledge_message :
    Broker → ℕ → Text → Text → Message → UnacknowledgedCause → Program (Unit {0})
unfolding retry
unacknowledge_message = retry

unfoldable pub acknowledge_message : Broker → Text → Text → Program (Unit {0})
acknowledge_message b name processing =
    Manager.acknowledge_message b.namespace b.version name processing

unfoldable pub schedule_message : (Text → ℕ → ℕ) → ℕ → Message → Program Bool
schedule_message next_cron now m = Manager.schedule_message next_cron now m

unfoldable pub enqueue_message : Broker → ℕ → Message → Program (Unit {0})
enqueue_message b now m = Manager.enqueue_message now m b.priority_queue

-- `polls` is how often the priority queue is looked at, see Handlers/Dequeue.antt.
unfoldable pub dequeue_message : Broker → ℕ → DequeueHandler → Program (Option Value)
dequeue_message b polls h =
    if b.priority_queue
    then (do v ← Manager.dequeue_message_with_priority polls h; pure (some v))
    else Manager.dequeue_message h
