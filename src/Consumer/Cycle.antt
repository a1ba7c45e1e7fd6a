-- ===== src/Consumer/Cycle.antt =====
-- src/system/consumer/consumer.ts: the cycle of a consumer, from MESSAGE_NEXT to the next MESSAGE_NEXT.
-- A message is handled to its end before the next MESSAGE_NEXT is served. The log lines and the counts
-- of the rates are left out.
use redis_smq.Prelude.{
  Text, ℕ, zero, suc, ◌+◌, Bool, false, Option, none, some, List, [], ◌∷◌, length, if◌then◌else◌,
}
use redis_smq.Errors.{empty_callback_reply_error}
use redis_smq.Message.{Message}
use redis_smq.Redis.Value.{Value, create_from_message}
use redis_smq.Redis.Program.{Program, pure, raise, wait, lift, ◌>>=◌, ◌>>◌}
use redis_smq.Handlers.Dequeue.{DequeueHandler}
use redis_smq.Broker.{Broker, dequeue_message, acknowledge_message, unacknowledge_message}
use redis_smq.Consumer.{Action, acknowledge, unacknowledge, ConsumeEvent, handle_received_message}

-- A running consumer with its broker. `clock` and `user` say, for the number of rounds that are left,
-- the time and what happens while a message is handled: what the user's function does and when the
-- timer fires.
pub record Cycle : Type 0 where
  pub broker : Broker
  pub name : Text
  pub polls : ℕ
  pub handler : DequeueHandler
  -- `new Message()`
  pub fresh : Message
  pub clock : ℕ → ℕ
  pub user : ℕ → Message → List (Bool × ConsumeEvent)

-- `broker.acknowledgeMessage(...)` and `unacknowledgeMessage`
unfoldable pub perform : Cycle → ℕ → Message → Action → Program (Unit {0})
unfolding acknowledge_message unacknowledge_message
perform c now m acknowledge = acknowledge_message c.broker c.name c.handler.key_queue_processing
perform c now m (unacknowledge cause) =
    unacknowledge_message c.broker now c.name c.handler.key_queue_processing m cause

unfoldable pub perform_all : Cycle → ℕ → Message → List Action → Program (Unit {0})
unfolding perform
perform_all c now m [] = pure tt
perform_all c now m (a ∷ rest) = do perform c now m a; perform_all c now m rest

-- The callback of `dequeueMessage`, and `Message.createFromMessage(json)`.
abbrev pub received : Cycle → Option Value → Program Message
received c none = raise empty_callback_reply_error
received c (some v) = lift (create_from_message c.fresh (some v) false)

-- The message is handled and settled; the result is how often it was, and so how often MESSAGE_NEXT
-- is emitted.
unfoldable pub handle : Cycle → ℕ → Message → Program ℕ
unfolding handle_received_message perform_all
handle c k m =
    let actions = handle_received_message (c.clock k) m (c.user k m) in
    perform_all c (c.clock k) m actions >>= λ u. pure (length actions)

-- The listener of MESSAGE_NEXT while `pending` of these events are to be served and at most the given
-- number of rounds is run: no round is left over, nothing asks for a message any more, or the next
-- message is asked for.
unfoldable pub rounds : Cycle → Bool → ℕ → ℕ → Program (Unit {0})
unfolding dequeue_message handle create_from_message
rounds c running zero pending = wait
rounds c running (suc k) zero = pure tt
rounds c running (suc k) (suc pending) =
    let again = rounds c running k in
    if running
    then (do
      v ← dequeue_message c.broker c.polls c.handler
      m ← received c v
      settled ← handle c k m
      again (pending + settled))
    else again pending
