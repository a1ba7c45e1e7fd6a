-- ===== src/MessageRate.antt =====
-- src/system/message-rate.ts: one tick, in which the rates of an instance are published, with
-- src/system/consumer/consumer-message-rate.ts and src/system/producer/producer-message-rate.ts.
pub mod Published
use redis_smq.Prelude.{Text, ℕ, ◌+◌, List, [], ◌∷◌}
use redis_smq.Keys.Names.{get_global_keys, get_instance_keys}
use redis_smq.Redis.Value.{Value}
use redis_smq.Redis.Client.{hmset}
use redis_smq.Redis.Program.{Program, pure, ◌>>=◌, ◌>>◌}
use redis_smq.LockManager.{settle}
use redis_smq.Consumer.Rate
use redis_smq.Consumer.Rate.{MessageRate, sum_from, fill_zero, increment_slot}

-- `publish`: the answer is not read.
unfoldable pub publish : List (Value × Value) → Program (Unit {0})
publish data' = settle (hmset get_global_keys.key_index_rates data') (λ r. pure tt)

-- `formatRateFields` of a consumer, at a time.
unfoldable pub format_rate_fields : Text → Text → Text → ℕ → MessageRate → List (Value × Value)
format_rate_fields namespace name id now r =
    let keys = get_instance_keys namespace name id in
    (Value.text keys.key_rate_consumer_processing, Value.rate r.processing_rate now)
    ∷ (Value.text keys.key_rate_consumer_acknowledged, Value.rate r.acknowledged_rate now)
    ∷ (Value.text keys.key_rate_consumer_unacknowledged, Value.rate r.unacknowledged_rate now)
    ∷ []

-- `onTick` of a consumer's rates.
unfoldable pub on_tick : Text → Text → Text → ℕ → MessageRate → Program MessageRate
unfolding publish format_rate_fields
on_tick namespace name id now r = do
  let rates = Rate.get_rate_fields r
  publish (format_rate_fields namespace name id now rates)
  pure rates

pub record ProducerMessageRate : Type 0 where
  pub input_slots : List ℕ
  pub input_rate : ℕ

-- `getRateFields` of a producer.
unfoldable pub get_input_rate : ProducerMessageRate → ProducerMessageRate
unfolding sum_from fill_zero
get_input_rate r = record {
  input_slots = fill_zero r.input_slots;
  input_rate = sum_from 0 r.input_slots;
}

-- `formatRateFields` of a producer.
unfoldable pub format_input_rate :
    Text → Text → Text → ℕ → ProducerMessageRate → List (Value × Value)
format_input_rate namespace name id now r =
    (
      Value.text (get_instance_keys namespace name id).key_rate_producer_input,
      Value.rate r.input_rate now,
    )
    ∷ []

unfoldable pub increment_input_slot : ℕ → ProducerMessageRate → ProducerMessageRate
unfolding increment_slot
increment_input_slot ms r = record r { input_slots = increment_slot ms r.input_slots }

-- `onTick` of a producer's rates.
unfoldable pub on_producer_tick :
    Text → Text → Text → ℕ → ProducerMessageRate → Program ProducerMessageRate
unfolding publish format_input_rate get_input_rate
on_producer_tick namespace name id now r = do
  let rates = get_input_rate r
  publish (format_input_rate namespace name id now rates)
  pure rates
