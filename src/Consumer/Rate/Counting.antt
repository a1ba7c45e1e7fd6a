-- ===== src/Consumer/Rate/Counting.antt =====
-- src/system/consumer/consumer-message-rate.ts: the rates count the events.
use redis_smq.Prelude.{ℕ, zero, suc, ◌+◌, ◌<◌, ◌≡◌, refl, List, [], ◌∷◌, length, arith, ap, ◌∙◌}
use redis_smq.Consumer.Rate.{
  increment_slot, sum_from, fill_zero, MessageRate, zeros, new_message_rate, get_rate_fields,
  Counter, processing, acknowledged, unacknowledged, increment,
}

length-increment_slot : (i : ℕ) (xs : List ℕ) → length (increment_slot i xs) ≡ length xs
unfolding increment_slot
length-increment_slot i [] = refl
length-increment_slot zero (x ∷ xs) = refl
length-increment_slot (suc i) (x ∷ xs) = ap suc (length-increment_slot i xs)

length-fill_zero : (xs : List ℕ) → length (fill_zero xs) ≡ length xs
unfolding fill_zero
length-fill_zero [] = refl
length-fill_zero (x ∷ xs) = ap suc (length-fill_zero xs)

sum_from-suc : (acc : ℕ) (xs : List ℕ) → sum_from (acc + 1) xs ≡ sum_from acc xs + 1
unfolding sum_from
sum_from-suc acc [] = refl
sum_from-suc acc (x ∷ xs) = ap (λ n. sum_from n xs) (omega arith) ∙ sum_from-suc (acc + x) xs

sum_from-increment_slot :
    (i acc : ℕ) (xs : List ℕ)
    → i < length xs
    → sum_from acc (increment_slot i xs) ≡ sum_from acc xs + 1
unfolding sum_from increment_slot
sum_from-increment_slot i acc [] h = absurd (omega arith)
sum_from-increment_slot zero acc (x ∷ xs) h =
    ap (λ n. sum_from n xs) (omega arith) ∙ sum_from-suc (acc + x) xs
sum_from-increment_slot (suc i) acc (x ∷ xs) h =
    sum_from-increment_slot i (acc + x) xs (omega arith)

sum_from-fill_zero : (acc : ℕ) (xs : List ℕ) → sum_from acc (fill_zero xs) ≡ acc
unfolding sum_from fill_zero
sum_from-fill_zero acc [] = refl
sum_from-fill_zero acc (x ∷ xs) =
    ap (λ n. sum_from n (fill_zero xs)) (omega arith) ∙ sum_from-fill_zero acc xs

-- Each counter has a slot for each of the thousand milliseconds.
pub record HasSlots (r : MessageRate) : Type 0 where
  pub processing_ok : length r.processing_slots ≡ 1000
  pub acknowledged_ok : length r.acknowledged_slots ≡ 1000
  pub unacknowledged_ok : length r.unacknowledged_slots ≡ 1000

length-zeros : (n : ℕ) → length (zeros n) ≡ n
unfolding zeros
length-zeros zero = refl
length-zeros (suc n) = ap suc (length-zeros n)

pub new_message_rate-HasSlots : HasSlots new_message_rate
new_message_rate-HasSlots = record {
  processing_ok = length-zeros 1000;
  acknowledged_ok = length-zeros 1000;
  unacknowledged_ok = length-zeros 1000;
}

-- What happens to the counters between two ticks: events of a kind, each at its millisecond.
unfoldable pub increments : List (Counter × ℕ) → MessageRate → MessageRate
increments [] r = r
increments ((c, ms) ∷ es) r = increments es (increment c ms r)

abbrev pub IsMilliseconds : List (Counter × ℕ) → Type 0
IsMilliseconds [] = Unit
IsMilliseconds ((c, ms) ∷ es) = (ms < 1000) × IsMilliseconds es

abbrev pub same_counter : Counter → Counter → ℕ
same_counter processing processing = 1
same_counter acknowledged acknowledged = 1
same_counter unacknowledged unacknowledged = 1
same_counter _ _ = 0

abbrev pub count : Counter → List (Counter × ℕ) → ℕ
count c [] = 0
count c ((d, ms) ∷ es) = same_counter c d + count c es

abbrev pub slots : Counter → MessageRate → List ℕ
slots processing r = r.processing_slots
slots acknowledged r = r.acknowledged_slots
slots unacknowledged r = r.unacknowledged_slots

abbrev pub rate : Counter → MessageRate → ℕ
rate processing r = r.processing_rate
rate acknowledged r = r.acknowledged_rate
rate unacknowledged r = r.unacknowledged_rate

increment-HasSlots :
    (c : Counter) (ms : ℕ) (r : MessageRate) → HasSlots r → HasSlots (increment c ms r)
unfolding increment
increment-HasSlots processing ms r h = ground (arith, length-increment_slot ms r.processing_slots)
increment-HasSlots acknowledged ms r h =
    ground (arith, length-increment_slot ms r.acknowledged_slots)
increment-HasSlots unacknowledged ms r h =
    ground (arith, length-increment_slot ms r.unacknowledged_slots)

sum-increment :
    (c d : Counter) (ms : ℕ) (r : MessageRate)
    → HasSlots r
    → ms < 1000
    → sum_from 0 (slots c (increment d ms r)) ≡ same_counter c d + sum_from 0 (slots c r)
unfolding increment
sum-increment processing processing ms r h lt =
    omega (arith, sum_from-increment_slot ms 0 r.processing_slots)
sum-increment acknowledged acknowledged ms r h lt =
    omega (arith, sum_from-increment_slot ms 0 r.acknowledged_slots)
sum-increment unacknowledged unacknowledged ms r h lt =
    omega (arith, sum_from-increment_slot ms 0 r.unacknowledged_slots)
sum-increment _ _ ms r h lt = omega arith

sum-increments :
    (c : Counter) (es : List (Counter × ℕ)) (r : MessageRate)
    → HasSlots r
    → IsMilliseconds es
    → sum_from 0 (slots c (increments es r)) ≡ count c es + sum_from 0 (slots c r)
unfolding increments
sum-increments c [] r h m = omega arith
sum-increments c ((d, ms) ∷ es) r h m = omega (
  arith,
  sum-increments c es (increment d ms r) (increment-HasSlots d ms r h) m.1,
  sum-increment c d ms r h m.0,
)

rate-get_rate_fields :
    (c : Counter) (r : MessageRate) → rate c (get_rate_fields r) ≡ sum_from 0 (slots c r)
unfolding get_rate_fields
rate-get_rate_fields processing r = refl
rate-get_rate_fields acknowledged r = refl
rate-get_rate_fields unacknowledged r = refl

get_rate_fields-empty :
    (c : Counter) (r : MessageRate) → sum_from 0 (slots c (get_rate_fields r)) ≡ 0
unfolding get_rate_fields
get_rate_fields-empty processing r = sum_from-fill_zero 0 r.processing_slots
get_rate_fields-empty acknowledged r = sum_from-fill_zero 0 r.acknowledged_slots
get_rate_fields-empty unacknowledged r = sum_from-fill_zero 0 r.unacknowledged_slots

get_rate_fields-HasSlots : (r : MessageRate) → HasSlots r → HasSlots (get_rate_fields r)
unfolding get_rate_fields
get_rate_fields-HasSlots r h = ground (
  arith,
  length-fill_zero r.processing_slots,
  length-fill_zero r.acknowledged_slots,
  length-fill_zero r.unacknowledged_slots,
)

-- From one reading of the rates to the next, each rate is the number of its events between the two,
-- if the counters have a slot for each millisecond: no event is lost or counted twice.
get_rate_fields-increments :
    (c : Counter) (es : List (Counter × ℕ)) (r : MessageRate)
    → HasSlots r
    → IsMilliseconds es
    → rate c (get_rate_fields (increments es (get_rate_fields r))) ≡ count c es
get_rate_fields-increments c es r h m =
    rate-get_rate_fields c (increments es (get_rate_fields r))
    ∙ sum-increments c es (get_rate_fields r) (get_rate_fields-HasSlots r h) m
    ∙ omega (arith, get_rate_fields-empty c r)
