-- ===== src/Consumer/Rate.antt =====
-- src/system/consumer/consumer-message-rate.ts: events counted in a slot for each millisecond.
-- src/system/producer/producer-message-rate.ts has one such counter.
pub mod Counting
use redis_smq.Prelude.{
  ℕ, zero, suc, ◌+◌, ◌<◌, ◌≡◌, refl, Bool, true, ◌&&◌, not, List, [], ◌∷◌, ◌++◌, ◌==◌, length,
  arith, if◌then◌else◌, ap, ◌∙◌,
}

-- `slots[slot] += 1`; a slot out of range is not touched (`getMilliseconds()` is below 1000).
unfoldable pub increment_slot : ℕ → List ℕ → List ℕ
increment_slot i [] = []
increment_slot zero (x ∷ xs) = (x + 1) ∷ xs
increment_slot (suc i) (x ∷ xs) = x ∷ increment_slot i xs

-- `reduce((acc, cur) => acc + cur, 0)`
unfoldable pub sum_from : ℕ → List ℕ → ℕ
sum_from acc [] = acc
sum_from acc (x ∷ xs) = sum_from (acc + x) xs

-- `fill(0)`
unfoldable pub fill_zero : List ℕ → List ℕ
fill_zero [] = []
fill_zero (x ∷ xs) = 0 ∷ fill_zero xs

pub record MessageRate : Type 0 where
  pub processing_slots : List ℕ
  pub acknowledged_slots : List ℕ
  pub unacknowledged_slots : List ℕ
  pub processing_rate : ℕ
  pub acknowledged_rate : ℕ
  pub unacknowledged_rate : ℕ
  pub idle_stack : List ℕ

unfoldable pub zeros : ℕ → List ℕ
zeros zero = []
zeros (suc n) = 0 ∷ zeros n

abbrev pub new_message_rate : MessageRate
new_message_rate = record {
  processing_slots = zeros 1000;
  acknowledged_slots = zeros 1000;
  unacknowledged_slots = zeros 1000;
  processing_rate = 0;
  acknowledged_rate = 0;
  unacknowledged_rate = 0;
  idle_stack = zeros 5;
}

abbrev tail : List ℕ → List ℕ
tail [] = []
tail (x ∷ xs) = xs

-- `find((i) => i === 0) === undefined`
unfoldable pub has_no_zero : List ℕ → Bool
has_no_zero [] = true
has_no_zero (x ∷ xs) = not (x == 0) && has_no_zero xs

unfoldable pub is_idle : MessageRate → MessageRate × Bool
unfolding has_no_zero
is_idle r =
    let mark =
      if r.processing_rate == 0 && (r.acknowledged_rate == 0 && r.unacknowledged_rate == 0)
      then 1
      else 0 in
    let stack = tail (r.idle_stack ++ mark ∷ []) in
    (record r { idle_stack = stack }, has_no_zero stack)

-- The rates are in the fields of the result.
unfoldable pub get_rate_fields : MessageRate → MessageRate
unfolding sum_from fill_zero
get_rate_fields r = record r {
  processing_rate = sum_from 0 r.processing_slots;
  processing_slots = fill_zero r.processing_slots;
  acknowledged_rate = sum_from 0 r.acknowledged_slots;
  acknowledged_slots = fill_zero r.acknowledged_slots;
  unacknowledged_rate = sum_from 0 r.unacknowledged_slots;
  unacknowledged_slots = fill_zero r.unacknowledged_slots;
}

pub data Counter : Type 0 where
  processing acknowledged unacknowledged : Counter

-- incrementProcessingSlot, incrementAcknowledgedSlot and incrementUnacknowledgedSlot
unfoldable pub increment : Counter → ℕ → MessageRate → MessageRate
unfolding increment_slot
increment processing ms r = record r { processing_slots = increment_slot ms r.processing_slots }
increment acknowledged ms r = record r {
  acknowledged_slots = increment_slot ms r.acknowledged_slots;
}
increment unacknowledged ms r = record r {
  unacknowledged_slots = increment_slot ms r.unacknowledged_slots;
}
