-- ===== src/Broker/Failing.antt =====
-- src/system/broker.ts: how often a message is tried again that fails at each delivery.
use redis_smq.Prelude.{
  ℕ, zero, suc, ◌+◌, false, not, List, refl, length, ◌&&◌, [], ◌∷◌, ◌≡◌, ltb, leb, ◌==◌,
  if◌then◌else◌, arith, ap, ◌∙◌,
}
use redis_smq.Message.{
  Message, has_expired, has_retry_threshold_exceeded, is_periodic, incr_attempts,
}
use redis_smq.Broker.{
  Route, dead_letter, delay_before_requeuing, requeue_at_once, UnacknowledgedCause,
  retry_threshold_exceeded, is_ttl_expired, route,
}

route_of_attempts :
    (n now : ℕ) (m : Message) (cause : UnacknowledgedCause)
    → is_periodic m ≡ false
    → (has_expired now m).1 ≡ false
    → is_ttl_expired cause ≡ false
    → route now (record m { attempts = n }) cause ≡ (
        if not (m.retry_threshold == 0) && leb m.retry_threshold (n + 1)
        then dead_letter retry_threshold_exceeded
        else if ltb 0 m.retry_delay
        then delay_before_requeuing
        else requeue_at_once)
unfolding route is_periodic has_expired has_retry_threshold_exceeded
route_of_attempts n now m cause p e c = ground arith

-- A delivery that fails: when, and for what cause.
abbrev pub Failure : Type 0
Failure = ℕ × UnacknowledgedCause

-- The messages that are tried again have one attempt more.
abbrev failing_by : Route → List Route → List Route
failing_by (dead_letter cause) rest = dead_letter cause ∷ []
failing_by delay_before_requeuing rest = delay_before_requeuing ∷ rest
failing_by requeue_at_once rest = requeue_at_once ∷ rest

-- Where a message goes by its failures, until it is dead-lettered.
unfoldable pub failing : List Failure → Message → List Route
unfolding route incr_attempts
failing [] m = []
failing ((now, cause) ∷ fs) m =
    let rest = failing fs (incr_attempts m) in failing_by (route now m cause) rest

-- None of the failures is by the time to live.
abbrev pub AllInTime : List Failure → Message → Type 0
AllInTime [] m = Unit
AllInTime ((now, cause) ∷ fs) m =
    ((has_expired now m).1 ≡ false) × (is_ttl_expired cause ≡ false) × AllInTime fs m

-- `n` times.
abbrev pub repeated : ℕ → Route → List Route
repeated zero r = []
repeated (suc n) r = r ∷ repeated n r

-- How a message is tried again.
abbrev pub again : Message → Route
again m = if ltb 0 m.retry_delay then delay_before_requeuing else requeue_at_once

failing_by-again : (m : Message) (rest : List Route) → failing_by (again m) rest ≡ again m ∷ rest
failing_by-again m rest = ground arith

module _ (m : Message) (plain : is_periodic m ≡ false) where
  abbrev tried : ℕ → Message
  tried n = record m { attempts = n }

  failing-step :
      (n now : ℕ) (cause : UnacknowledgedCause) (fs : List Failure)
      → AllInTime ((now, cause) ∷ fs) m
      → failing ((now, cause) ∷ fs) (tried n)
        ≡ failing_by
            (if not (m.retry_threshold == 0) && leb m.retry_threshold (n + 1)
              then dead_letter retry_threshold_exceeded
              else again m)
            (failing fs (tried (n + 1)))
  unfolding failing incr_attempts
  failing-step n now cause fs h =
      ap (λ r. failing_by r (failing fs (tried (n + 1))))
        (route_of_attempts n now m cause plain h.0 h.1)

  failing_forever :
      (n : ℕ) (fs : List Failure)
      → m.retry_threshold ≡ 0
      → AllInTime fs m
      → failing fs (tried n) ≡ repeated (length fs) (again m)
  unfolding failing
  failing_forever n [] e h = refl
  failing_forever n ((now, cause) ∷ fs) e h =
      failing-step n now cause fs h
      ∙ ap
          (λ b.
            failing_by (if b then dead_letter retry_threshold_exceeded else again m)
              (failing fs (tried (n + 1))))
          {y = false} (ground arith)
      ∙ failing_by-again m (failing fs (tried (n + 1)))
      ∙ ap (λ rs. again m ∷ rs) (failing_forever (n + 1) fs e h.2)

-- Such a message with the threshold 0 is tried again at every failure.
failing-unlimited :
    (m : Message) (fs : List Failure)
    → m.attempts ≡ 0
    → is_periodic m ≡ false
    → m.retry_threshold ≡ 0
    → AllInTime fs m
    → failing fs m ≡ repeated (length fs) (again m)
failing-unlimited m fs a p e h =
    ap (λ n. failing fs (record m { attempts = n })) a ∙ failing_forever m p 0 fs e h
