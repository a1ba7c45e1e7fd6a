-- ===== src/MessageFlow/Redelivered.antt =====
-- src/system/broker.ts with src/system/workers/delay.worker.ts and schedule.worker.ts: a message that is
-- to wait before it is tried again comes back to its queue.
use redis_smq.Prelude.{
  text_eq_refl, ℕ, ◌+◌, ◌≤◌, false, some, List, [], ◌∷◌, ◌≡◌, refl, ap, sym, ◌∙◌, arith, subst,
}
use redis_smq.Message.{Message, MessageQueue, is_periodic}
use redis_smq.Keys.Names.{get_global_keys}
use redis_smq.Redis.Value.{Value, value_eq_refl}
use redis_smq.Redis.Keyspace.{Keyspace, put_ranked, insert_ranked, put_field, find, without}
use redis_smq.Redis.Command.{effect}
use redis_smq.Redis.Program.{Program, done, exec, exec_next, effects, ◌>>◌}
use redis_smq.Redis.Server.{on_server, Server, IsReliable, result, content}
use redis_smq.Broker.{UnacknowledgedCause, delay_before_requeuing, route, retry}
use redis_smq.Broker.Retries.{routed}
use redis_smq.Handlers.Delay.{schedule_delayed}
use redis_smq.Handlers.Delay.Delayed.{
  delayed_message, delay_commands, all_delay_commands, exec-schedule_delayed,
}
use redis_smq.Handlers.Schedule.{enqueue_scheduled_messages}
use redis_smq.Handlers.Schedule.Due.{
  Scheduled, times, is_scheduled, AllStored, IsServed, published, due_commands, due, after_due,
  commands_at, exec-enqueue_scheduled_messages,
}
use redis_smq.MessageFlow.{
  Setting, processing_of, Contents, Place, ready, held, acknowledged, dead, delayed, requeued, put,
  add_last, add_first,
}
use redis_smq.MessageFlow.Places.{Represents, encode}
use redis_smq.MessageFlow.Steps.{IsReady, exec-retry, routed-Represents}
use redis_smq.MessageFlow.Workers.{
  queue_of, same-Represents, delay_commands-Represents, due_commands-Represents,
}

-- A message that is to wait does not repeat.
not_periodic :
    (at : ℕ) (m : Message) (cause : UnacknowledgedCause)
    → route at m cause ≡ delay_before_requeuing
    → is_periodic m ≡ false
unfolding route
not_periodic at m cause e = ground arith

delayed_message-IsServed :
    (now : ℕ) (m : Message) (q : MessageQueue)
    → is_periodic m ≡ false
    → m.queue ≡ some q
    → IsServed (delayed_message now m) q
unfolding is_periodic
delayed_message-IsServed now m q p e = record {
  queued = e;
  no_cron = ground arith;
  no_repeat = ground arith;
  delay_served = refl;
}

-- What the workers schedule.
abbrev entries : ℕ → Message → List Scheduled
entries now m = (now + m.retry_delay, delayed_message now m) ∷ []

entries-due :
    (now time : ℕ) (m : Message)
    → now + m.retry_delay ≤ time
    → due time (entries now m) ≡ delayed_message now m ∷ []
unfolding due
entries-due now time m h = ground arith

module _ (now : ℕ) (m : Message) (s : Keyspace) where
  entries-times :
      s.zsets get_global_keys.key_queue_scheduled ≡ []
      → (effects (delay_commands now m) s).zsets get_global_keys.key_queue_scheduled
        ≡ times (entries now m)
  unfolding effects effect put_ranked insert_ranked without
  entries-times e = simp (text_eq_refl, e)

  entries-AllStored :
      s.hashes get_global_keys.key_scheduled_messages ≡ []
      → AllStored
          (entries now m)
          ((effects (delay_commands now m) s).hashes get_global_keys.key_scheduled_messages)
  unfolding effects effect put_field without find is_scheduled
  entries-AllStored e = (simp (text_eq_refl, e, value_eq_refl), refl, tt)

-- A failed message, and later a tick of the delay worker and one of the schedule worker.
abbrev pub redelivery :
    Setting → Message → ℕ → ℕ → ℕ → Message → UnacknowledgedCause → Program (Unit {0})
redelivery c fresh at now time m cause =
    retry c.broker at c.name (processing_of c) m cause
    >> (schedule_delayed c.next_cron fresh now
        >> enqueue_scheduled_messages c.next_cron fresh time false)

-- The message as it comes back: one attempt more, its delay served, published again.
abbrev pub redelivered : ℕ → ℕ → Message → Message
redelivered now time m = published time (delayed_message now m)

module _ (c : Setting) (is_ready : IsReady c) (s : Keyspace) (q : Contents) (m : Message)
    (h : Represents c s q) (only : q held ≡ m ∷ []) (none_delayed : q delayed ≡ [])
    (no_times : s.zsets get_global_keys.key_queue_scheduled ≡ [])
    (no_messages : s.hashes get_global_keys.key_scheduled_messages ≡ [])
    (queued : m.queue ≡ some (queue_of c)) (waits : 1000 ≤ m.retry_delay) (at now time : ℕ)
    (cause : UnacknowledgedCause) (delays : route at m cause ≡ delay_before_requeuing)
    (in_time : now + m.retry_delay ≤ time) (fresh : Message) where
  abbrev failed : Keyspace
  failed = routed c.broker.namespace c.name c.id delay_before_requeuing (Value.message m) s

  abbrev waiting : Keyspace
  waiting = effects (delay_commands now m) failed

  abbrev after_failure : Contents
  after_failure = add_first delayed m (put held [] q)

  failed-Represents : Represents c failed after_failure
  failed-Represents = routed-Represents c is_ready m s q only h delay_before_requeuing

  one_delayed : after_failure delayed ≡ m ∷ []
  one_delayed = ap (λ l. m ∷ l) none_delayed

  exec-redelivery :
      exec (redelivery c fresh at now time m cause) s
      ≡ (done tt, effects (due_commands time (delayed_message now m) (queue_of c)) waiting)
  unfolding all_delay_commands after_due
  exec-redelivery =
      exec_next (retry c.broker at c.name (processing_of c) m cause) _ s (
        exec-retry c is_ready m s q only h at m cause
        ∙ ap (λ r. (done tt, routed c.broker.namespace c.name c.id r (Value.message m) s)) delays)
      ∙ exec_next (schedule_delayed c.next_cron fresh now) _ failed (
          exec-schedule_delayed c.next_cron fresh now (m ∷ []) (waits, tt) failed
            (failed-Represents.lists delayed ∙ ap encode one_delayed) (omega arith))
      ∙ exec-enqueue_scheduled_messages c.next_cron time fresh (entries now m) waiting
          (entries-times now m failed no_times) (entries-AllStored now m failed no_messages)
          (rw (entries-due now time m in_time) (
            (
              queue_of c,
              delayed_message-IsServed now m (queue_of c) (not_periodic at m cause delays) queued,
            ),
            tt,
          ))
      ∙ ap (λ ms. (done tt, after_due time ms waiting)) (entries-due now time m in_time)
      ∙ ap (λ o. (done tt, effects (commands_at time (delayed_message now m) o) waiting)) queued

  abbrev came_back : Contents
  came_back = add_last ready (redelivered now time m) (put held [] q)

  back :
      (p : Place)
      → add_last ready (redelivered now time m) (put delayed [] after_failure) p ≡ came_back p
  back ready = refl
  back held = refl
  back acknowledged = refl
  back dead = refl
  back delayed = sym none_delayed
  back requeued = refl

  redelivery-ends :
      (exec (redelivery c fresh at now time m cause) s
        ≡ (done tt, effects (due_commands time (delayed_message now m) (queue_of c)) waiting))
      × Represents c
          (effects (due_commands time (delayed_message now m) (queue_of c)) waiting)
          came_back
  redelivery-ends = (
    exec-redelivery,
    same-Represents c _ _ came_back back (
        due_commands-Represents c is_ready (delayed_message now m) time waiting _ (
          delay_commands-Represents c is_ready m now failed after_failure one_delayed
            failed-Represents)),
  )

-- For a connected process without priorities and with names that do not hold the separator, on a
-- reliable server whose database represents an abstract queue, with nothing delayed or scheduled: the
-- consumer holds a message of this queue, with a retry delay of at least a second, and its failure lets
-- it wait. Then the tick of the delay worker after that, and a tick of the schedule worker once the
-- delay is over, succeed, and bring the message back to the end of its queue with one attempt more;
-- every other message stands where it stood.
pub redelivery-Represents :
    (S : Server) (reliable : IsReliable S) (d : S.Db) (c : Setting) (is_ready : IsReady c)
    (q : Contents) (m : Message)
    → Represents c (S.view d) q
    → q held ≡ m ∷ []
    → q delayed ≡ []
    → (S.view d).zsets get_global_keys.key_queue_scheduled ≡ []
    → (S.view d).hashes get_global_keys.key_scheduled_messages ≡ []
    → m.queue ≡ some (queue_of c)
    → 1000 ≤ m.retry_delay
    → (at now time : ℕ) (cause : UnacknowledgedCause) → route at m cause ≡ delay_before_requeuing
    → now + m.retry_delay ≤ time
    → (fresh : Message)
    → (result S (redelivery c fresh at now time m cause) d ≡ done tt)
      × Represents c
          (content S (redelivery c fresh at now time m cause) d)
          (add_last ready (redelivered now time m) (put held [] q))
redelivery-Represents S reliable d c is_ready q m h only nothing no_times no_messages queued waits
      at now time cause delays in_time fresh =
    let ends =
      redelivery-ends c is_ready (S.view d) q m h only nothing no_times no_messages queued waits at
        now time cause delays in_time fresh in
    let ran = on_server S reliable _ d ends.0 in
    (
      ran.0,
      subst (λ s. Represents c s (add_last ready (redelivered now time m) (put held [] q)))
          (sym ran.1) ends.1,
    )
