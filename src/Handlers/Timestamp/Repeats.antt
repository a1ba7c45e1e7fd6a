-- ===== src/Handlers/Timestamp/Repeats.antt =====
-- src/system/message-manager/handlers/schedule.handler.ts: when a message is scheduled, and how often.
use redis_smq.Prelude.{
  Text, ℕ, suc, ◌+◌, ◌-◌, ◌≤◌, ◌<◌, Bool, true, false, not, ◌&&◌, Option, none, some, List, [], ◌∷◌,
  ltb, leb, if◌then◌else◌, ◌≡◌, refl, ◌⊎◌, inl, inr, arith, length, ap, ◌∙◌,
}
use redis_smq.Message.{
  Message, is_schedulable, set_message_delayed, incr_message_scheduled_repeat_count,
}
use redis_smq.Handlers.Timestamp.{
  amount, is_true, cron_timestamp, repeat_timestamp, next_of, get_next_scheduled_timestamp,
}

cron_timestamp_later :
    (next_cron : Text → ℕ → ℕ) (now : ℕ) (c : Option Text)
    → ((t : Text) → now ≤ next_cron t now)
    → (cron_timestamp next_cron now c ≡ 0) ⊎ (now ≤ cron_timestamp next_cron now c)
unfolding cron_timestamp
cron_timestamp_later next_cron now none h = inl refl
cron_timestamp_later next_cron now (some []) h = inl refl
cron_timestamp_later next_cron now (some (x ∷ c)) h = inr (h (x ∷ c))

repeat_timestamp_later :
    (now : ℕ) (m : Message) → (repeat_timestamp now m ≡ 0) ⊎ (now ≤ repeat_timestamp now m)
unfolding repeat_timestamp
repeat_timestamp_later now m = ground arith

next_of_later :
    (now cron repeat : ℕ) (m : Message)
    → (cron ≡ 0) ⊎ (now ≤ cron)
    → (repeat ≡ 0) ⊎ (now ≤ repeat)
    → ((next_of cron repeat m).1 ≡ 0) ⊎ (now ≤ (next_of cron repeat m).1)
unfolding next_of
next_of_later now cron repeat m c r = ground arith

-- If the CRON library never answers with a time before the one it is asked about, then the timestamp
-- of a message is 0, which means that it is not scheduled, or not before the present time.
pub get_next_scheduled_timestamp-later :
    (next_cron : Text → ℕ → ℕ) (now : ℕ) (m : Message)
    → ((t : Text) → now ≤ next_cron t now)
    → ((get_next_scheduled_timestamp next_cron now m).1 ≡ 0)
      ⊎ (now ≤ (get_next_scheduled_timestamp next_cron now m).1)
unfolding get_next_scheduled_timestamp
get_next_scheduled_timestamp-later next_cron now m h = ground (
  arith,
  next_of_later now (cron_timestamp next_cron now m.scheduled_cron) (repeat_timestamp now m) m
      (cron_timestamp_later next_cron now m.scheduled_cron h) (repeat_timestamp_later now m),
)

-- How often a message is scheduled again, when it is looked at at each of some times until it is
-- dropped.
unfoldable pub schedulings : (Text → ℕ → ℕ) → List ℕ → Message → ℕ
unfolding get_next_scheduled_timestamp
schedulings next_cron [] m = 0
schedulings next_cron (now ∷ times) m =
    let rest = schedulings next_cron times (get_next_scheduled_timestamp next_cron now m).0 in
    if ltb 0 (get_next_scheduled_timestamp next_cron now m).1 then suc rest else 0

abbrev pub AllPositive : List ℕ → Type 0
AllPositive [] = Unit
AllPositive (x ∷ xs) = (0 < x) × AllPositive xs

-- Whether the delay of a message still has to be served.
abbrev pub is_delay_due : Message → Bool
is_delay_due m = is_true (amount m.scheduled_delay) && not m.delayed

repeats_left :
    (next_cron : Text → ℕ → ℕ) (now : ℕ) (m : Message)
    → m.scheduled_cron ≡ none
    → is_delay_due m ≡ false
    → 0 < now
    → m.scheduled_repeat_count < m.scheduled_repeat
    → get_next_scheduled_timestamp next_cron now m ≡ (
      record m { scheduled_repeat_count = m.scheduled_repeat_count + 1 },
      now + amount m.scheduled_period,
    )
unfolding get_next_scheduled_timestamp next_of cron_timestamp repeat_timestamp is_schedulable
    incr_message_scheduled_repeat_count
repeats_left next_cron now m c d p lt = ground arith

repeats_over :
    (next_cron : Text → ℕ → ℕ) (now : ℕ) (m : Message)
    → m.scheduled_cron ≡ none
    → is_delay_due m ≡ false
    → m.scheduled_repeat ≤ m.scheduled_repeat_count
    → (get_next_scheduled_timestamp next_cron now m).1 ≡ 0
unfolding get_next_scheduled_timestamp next_of cron_timestamp repeat_timestamp is_schedulable
repeats_over next_cron now m c d le = ground arith

ltb_cases : (a b : ℕ) → (a < b) ⊎ (b ≤ a)
ltb_cases a b = ground arith

abbrev pub smaller : ℕ → ℕ → ℕ
smaller a b = if leb a b then a else b

schedulings_step :
    (next_cron : Text → ℕ → ℕ) (now : ℕ) (times : List ℕ) (m : Message)
    → m.scheduled_cron ≡ none
    → is_delay_due m ≡ false
    → 0 < now
    → m.scheduled_repeat_count < m.scheduled_repeat
    → schedulings next_cron (now ∷ times) m
      ≡ suc (
          schedulings next_cron times
            (record m { scheduled_repeat_count = m.scheduled_repeat_count + 1 }))
unfolding schedulings
schedulings_step next_cron now times m c d p lt =
    rw (repeats_left next_cron now m c d p lt) (ground arith)

schedulings_stop :
    (next_cron : Text → ℕ → ℕ) (now : ℕ) (times : List ℕ) (m : Message)
    → (get_next_scheduled_timestamp next_cron now m).1 ≡ 0
    → schedulings next_cron (now ∷ times) m ≡ 0
unfolding schedulings
schedulings_stop next_cron now times m h = rw h refl

-- A message without a CRON expression whose delay, if it has one, is served: when it is looked at at
-- some times after 0, it is scheduled again as often as its repetitions that are left, or at each of
-- the times if they are fewer.
pub schedulings_lem :
    (next_cron : Text → ℕ → ℕ) (times : List ℕ) (m : Message)
    → m.scheduled_cron ≡ none
    → is_delay_due m ≡ false
    → AllPositive times
    → schedulings next_cron times m
      ≡ smaller (length times) (m.scheduled_repeat - m.scheduled_repeat_count)
unfolding schedulings
schedulings_lem next_cron [] m c d p = ground arith
schedulings_lem next_cron (now ∷ times) m c d p =
    elim (ltb_cases m.scheduled_repeat_count m.scheduled_repeat) [
      | inl lt ↦
          schedulings_step next_cron now times m c d p.0 lt
          ∙ ap suc (
              schedulings_lem next_cron times
                (record m { scheduled_repeat_count = m.scheduled_repeat_count + 1 }) c d p.1)
          ∙ ground arith
      | inr ge ↦
          schedulings_stop next_cron now times m (repeats_over next_cron now m c d ge)
          ∙ ground arith
    ]

delay_first :
    (next_cron : Text → ℕ → ℕ) (now : ℕ) (m : Message)
    → is_delay_due m ≡ true
    → get_next_scheduled_timestamp next_cron now m
      ≡ (record m { delayed = true }, now + amount m.scheduled_delay)
unfolding get_next_scheduled_timestamp is_schedulable set_message_delayed
delay_first next_cron now m d = ground arith

delay_then :
    (next_cron : Text → ℕ → ℕ) (now : ℕ) (times : List ℕ) (m : Message)
    → is_delay_due m ≡ true
    → schedulings next_cron (now ∷ times) m
      ≡ suc (schedulings next_cron times (record m { delayed = true }))
unfolding schedulings
delay_then next_cron now times m d = rw (delay_first next_cron now m d) (ground arith)

-- A message without a CRON expression whose delay is to be served: it is first scheduled for the time
-- after its delay, and when it is looked at at some times after that one, it is scheduled again as
-- often as its repetitions that are left, or at each of the times if they are fewer.
schedulings-delay :
    (next_cron : Text → ℕ → ℕ) (now : ℕ) (times : List ℕ) (m : Message)
    → m.scheduled_cron ≡ none
    → is_delay_due m ≡ true
    → AllPositive times
    → ((get_next_scheduled_timestamp next_cron now m).1 ≡ now + amount m.scheduled_delay)
      × (schedulings next_cron (now ∷ times) m
          ≡ suc (smaller (length times) (m.scheduled_repeat - m.scheduled_repeat_count)))
schedulings-delay next_cron now times m c d p = (
  ap (λ t. t.1) (delay_first next_cron now m d),
  delay_then next_cron now times m d
      ∙ ap suc (schedulings_lem next_cron times (record m { delayed = true }) c (ground arith) p),
)
