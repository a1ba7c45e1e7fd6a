-- ===== src/Consumer/Settle.antt =====
-- src/system/consumer/consumer.ts: how often a consumer settles a message with the broker.
use redis_smq.Prelude.{ℕ, ◌+◌, ◌≤◌, ◌<◌, Bool, true, false, List, [], ◌∷◌, ◌≡◌, refl, length, arith}
use redis_smq.Message.{Message, has_expired}
use redis_smq.Broker.{timeout, caught_error, ttl_expired}
use redis_smq.Consumer.{
  unacknowledge, Handling, ConsumeEvent, timer_fires, consumed, consumed_with_error, throws, start,
  on_consumed, on_event, on_events, handle_received_message,
}

-- How often the user's function calls back.
abbrev pub calls_back : ConsumeEvent → ℕ
calls_back consumed = 1
calls_back consumed_with_error = 1
calls_back _ = 0

abbrev pub is_throw : ConsumeEvent → Bool
is_throw throws = true
is_throw _ = false

abbrev pub callbacks : List (Bool × ConsumeEvent) → ℕ
callbacks [] = 0
callbacks ((running, e) ∷ es) = calls_back e + callbacks es

abbrev pub NeverThrows : List (Bool × ConsumeEvent) → Type 0
NeverThrows [] = Unit
NeverThrows ((running, e) ∷ es) = (is_throw e ≡ false) × NeverThrows es

-- What a call of `handleConsume` may still do: settle once for the timer if that is armed, and once
-- for a callback unless the timer has fired.
abbrev may : Bool → ℕ
may true = 1
may false = 0

-- After the timer has fired, nothing is settled any more without a throw.
timed_out :
    (es : List (Bool × ConsumeEvent)) (h : Handling)
    → NeverThrows es
    → h.is_timeout ≡ true
    → h.armed ≡ false
    → on_events es h ≡ []
unfolding on_events on_event
timed_out [] h n t a = refl
timed_out ((running, timer_fires) ∷ es) h n t a = ground (arith, timed_out es h n.1)
timed_out ((running, throws) ∷ es) h n t a = cc n.0
timed_out ((running, consumed) ∷ es) h n t a = ground (arith, timed_out es h n.1)
timed_out ((running, consumed_with_error) ∷ es) h n t a = ground (arith, timed_out es h n.1)

-- Without a callback only an armed timer settles, and once.
no_callbacks :
    (es : List (Bool × ConsumeEvent)) (h : Handling)
    → NeverThrows es
    → callbacks es ≡ 0
    → length (on_events es h) ≤ may h.armed
unfolding on_events on_event
no_callbacks [] h n z = omega arith
no_callbacks ((running, timer_fires) ∷ es) h n z = ground (
  arith,
  no_callbacks es h n.1,
  no_callbacks es (record { armed = false; is_timeout = true }) n.1,
)
no_callbacks ((running, throws) ∷ es) h n z = absurd (cc n.0)
no_callbacks ((running, consumed) ∷ es) h n z = absurd (omega arith)
no_callbacks ((running, consumed_with_error) ∷ es) h n z = absurd (omega arith)

settles_once :
    (es : List (Bool × ConsumeEvent)) (h : Handling)
    → NeverThrows es
    → callbacks es ≤ 1
    → length (on_events es h) ≤ 1
unfolding on_events on_event on_consumed
settles_once [] h n z = omega arith
settles_once ((running, timer_fires) ∷ es) h n z =
    ground
      (arith, settles_once es h n.1, timed_out es (record { armed = false; is_timeout = true }) n.1)
settles_once ((running, throws) ∷ es) h n z = absurd (cc n.0)
settles_once ((running, consumed) ∷ es) h n z =
    ground (arith, no_callbacks es h n.1, no_callbacks es (record h { armed = false }) n.1)
settles_once ((running, consumed_with_error) ∷ es) h n z =
    ground (arith, no_callbacks es h n.1, no_callbacks es (record h { armed = false }) n.1)

-- If the user's function does not throw and calls back at most once, then whatever the order of its
-- callback and of the timer, and whether the consumer is running or not, a received message is
-- acknowledged or unacknowledged at most once; an expired message is unacknowledged exactly once.
pub handle_received_message_once :
    (now : ℕ) (m : Message) (es : List (Bool × ConsumeEvent))
    → NeverThrows es
    → callbacks es ≤ 1
    → (length (handle_received_message now m es) ≤ 1)
      × ((has_expired now m).1 ≡ true
          → handle_received_message now m es ≡ unacknowledge ttl_expired ∷ [])
unfolding handle_received_message
handle_received_message_once now m es n z =
    (ground (arith, settles_once es (start (has_expired now m).0) n z), λ e. ground arith)

-- A message with a consume timeout whose consumption throws is unacknowledged twice: the timer stays
-- armed in the handler of the exception, and fires later.
pub handle_received_message_twice :
    (now : ℕ) (m : Message)
    → (has_expired now m).1 ≡ false
    → 0 < m.consume_timeout
    → handle_received_message now m ((true, throws) ∷ (true, timer_fires) ∷ [])
      ≡ unacknowledge caught_error ∷ unacknowledge timeout ∷ []
unfolding handle_received_message on_events on_event start has_expired
handle_received_message_twice now m e t = ground arith
