-- ===== src/Consumer.antt =====
-- src/system/consumer/consumer.ts: what a consumer does with a message that it received, as actions on
-- the broker, and src/system/consumer/consumer-message-rate.ts in a child module.
pub mod Rate
pub mod Settle
pub mod Cycle
use redis_smq.Prelude.{
  ℕ, Bool, true, false, not, ◌&&◌, Option, none, some, List, [], ◌∷◌, ◌++◌, ltb, if◌then◌else◌,
}
use redis_smq.Message.{Message, has_expired}
use redis_smq.Broker.{UnacknowledgedCause, timeout, caught_error, unacknowledged, ttl_expired}

-- What the consumer asks of the broker.
pub data Action : Type 0 where
  acknowledge : Action
  unacknowledge : UnacknowledgedCause → Action

-- One call of `handleConsume`: whether its timer is armed, and its variable `isTimeout`.
pub record Handling : Type 0 where
  pub armed : Bool
  pub is_timeout : Bool

-- What may happen to it: the timer fires, the user's function calls back without or with an error,
-- it throws.
pub data ConsumeEvent : Type 0 where
  timer_fires consumed consumed_with_error throws : ConsumeEvent

-- `handleConsume` up to the call of the user's function.
unfoldable pub start : Message → Handling
start m = record { armed = ltb 0 m.consume_timeout; is_timeout = false }

-- `onConsumed`, where `running` is `powerManager.isRunning()`.
unfoldable pub on_consumed : Bool → Action → Handling → Handling × List Action
on_consumed running action h =
    if running && not h.is_timeout then (record h { armed = false }, action ∷ []) else (h, [])

unfoldable pub on_event : Bool → ConsumeEvent → Handling → Handling × List Action
unfolding on_consumed
on_event running timer_fires h =
    if h.armed
    then (record { armed = false; is_timeout = true }, unacknowledge timeout ∷ [])
    else (h, [])
on_event running consumed h = on_consumed running acknowledge h
on_event running consumed_with_error h = on_consumed running (unacknowledge unacknowledged) h
on_event running throws h = (h, unacknowledge caught_error ∷ [])

unfoldable pub on_events : List (Bool × ConsumeEvent) → Handling → List Action
unfolding on_event
on_events [] h = []
on_events ((running, e) ∷ es) h =
    let (h', actions) = on_event running e h in actions ++ on_events es h'

-- `handleReceivedMessage`: an expired message is not given to the user's function.
unfoldable pub handle_received_message : ℕ → Message → List (Bool × ConsumeEvent) → List Action
unfolding has_expired start on_events
handle_received_message now m es =
    let (m', expired) = has_expired now m in
    if expired then unacknowledge ttl_expired ∷ [] else on_events es (start m')
