-- ===== src/Tests/Objects.antt =====
-- Examples of the objects that live in the process: messages, power managers, consumers, counters.
use redis_smq.Prelude.{codes, ◌≤◌, true, false, none, [], ◌∷◌, ◌≡◌, refl, inl, inr, arith, length}
use redis_smq.Message.{Message, has_expired}
use redis_smq.Message.Defaults.{default_options, new_message}
use redis_smq.Message.Valid.{
  HasValidDefaults, IsValid, edits, set_priority_to, set_ttl_to, reset_it,
  new_message-edits-IsValid,
}
use redis_smq.PowerManager.{new_power_manager, up}
use redis_smq.PowerManager.Ticker.{Ticker, fire, quit}
use redis_smq.PowerManager.Lifecycle.{
  IsCoherent, commits, powers, go_up, commit_it, powers-alternate, fire-quit, ticker_calls,
  call_next_tick,
}
use redis_smq.Broker.{caught_error, timeout, ttl_expired}
use redis_smq.Consumer.{unacknowledge, consumed, timer_fires, throws, handle_received_message}
use redis_smq.Consumer.Settle.{handle_received_message_once, handle_received_message_twice}
use redis_smq.Tests.Samples.{order}

default_options-HasValidDefaults : HasValidDefaults default_options
default_options-HasValidDefaults = record {
  ttl_ok = inl refl;
  retry_delay_ok = inr (omega arith);
  consume_timeout_ok = inl refl;
}

new_message-edits-IsValid_example : IsValid (
    edits
      (set_priority_to 9 ∷ set_ttl_to 5000 ∷ reset_it ∷ [])
      (new_message default_options 7 (codes "m1")))
new_message-edits-IsValid_example =
    new_message-edits-IsValid default_options 7 (codes "m1")
      (set_priority_to 9 ∷ set_ttl_to 5000 ∷ reset_it ∷ []) default_options-HasValidDefaults

-- The second start of a manager that is up is refused, so the second commit is too.
powers-alternate_example :
    ((powers (go_up ∷ commit_it ∷ go_up ∷ commit_it ∷ []) new_power_manager).state ≡ up)
    × IsCoherent (powers (go_up ∷ commit_it ∷ go_up ∷ commit_it ∷ []) new_power_manager)
unfolding commits
powers-alternate_example = powers-alternate (go_up ∷ commit_it ∷ go_up ∷ commit_it ∷ [])

abbrev ticking : Ticker
ticking = record {
  power_manager = record { state = up; pending_state = none };
  on_next = none;
  timeout = true;
  interval = false;
  downs = 0;
}

abbrev stopped : Ticker
stopped = record ticking { power_manager = new_power_manager; downs = 1 }

-- The timeout of a ticker that was stopped while it ticked fires and runs nothing.
fire-quit_example : (fire (ticker_calls (call_next_tick ∷ []) stopped)).1 ≡ none
unfolding quit
fire-quit_example = fire-quit ticking {t' = stopped} (call_next_tick ∷ []) refl refl

abbrev timed_order : Message
timed_order = record order { consume_timeout = 3000 }

handle_received_message_once_example :
    (length (handle_received_message 2000 timed_order ((true, timer_fires) ∷ (true, consumed) ∷ []))
      ≤ 1)
    × ((has_expired 2000 timed_order).1 ≡ true
        → handle_received_message 2000 timed_order ((true, timer_fires) ∷ (true, consumed) ∷ [])
          ≡ unacknowledge ttl_expired ∷ [])
handle_received_message_once_example =
    handle_received_message_once 2000 timed_order ((true, timer_fires) ∷ (true, consumed) ∷ [])
      (refl, (refl, tt)) (omega arith)

handle_received_message_twice_example :
    handle_received_message 2000 timed_order ((true, throws) ∷ (true, timer_fires) ∷ [])
    ≡ unacknowledge caught_error ∷ unacknowledge timeout ∷ []
unfolding has_expired new_message
handle_received_message_twice_example =
    handle_received_message_twice 2000 timed_order refl (omega arith)
