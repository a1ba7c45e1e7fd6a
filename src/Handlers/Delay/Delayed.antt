-- ===== src/Handlers/Delay/Delayed.antt =====
-- src/system/message-manager/handlers/delay.handler.ts: one tick of the delay worker.
use redis_smq.Prelude.{
  Text, ℕ, zero, suc, ◌+◌, ◌≤◌, true, some, List, [], ◌∷◌, ◌++◌, ◌≡◌, refl, arith, length, ap, ◌∙◌,
  take, text_eq_refl, sym, append-nil,
}
use redis_smq.Errors.{ok}
use redis_smq.Message.{
  Message, incr_attempts, set_attempts, set_scheduled_delay, set_scheduled_at, is_schedulable,
  set_message_delayed,
}
use redis_smq.Keys.Names.{get_global_keys}
use redis_smq.Redis.Value.{Value, create_from_message}
use redis_smq.Redis.Keyspace.{Keyspace}
use redis_smq.Redis.Command.{Command, effect, reply, blocks}
use redis_smq.Redis.Program.{
  single, done, exec, effects, request_effect, request_reply, request_blocks,
}
use redis_smq.Redis.Client.Reads.{exec-lrange}
use redis_smq.Redis.Requests.{requests, sent, requests-sent, in_one_transaction}
use redis_smq.Redis.Server.{on_server, Server, IsReliable, result, content}
use redis_smq.Redis.Scripts.Moves.{remove_first_head}
use redis_smq.Handlers.Common.Pages.{texts}
use redis_smq.Handlers.Timestamp.{get_next_scheduled_timestamp}
use redis_smq.Handlers.Schedule.{schedule_multi, schedule_message, put_scheduled}
use redis_smq.Handlers.Delay.{delay_task, delay_tasks, schedule_messages, schedule_delayed}

-- The message as it is scheduled for its retry: one attempt more, and its delay served.
abbrev pub delayed_message : ℕ → Message → Message
delayed_message now m = record m {
  attempts = m.attempts + 1;
  scheduled_delay = some m.retry_delay;
  delayed = true;
  scheduled_at = some now;
}

abbrev pub delay_commands : ℕ → Message → List Command
delay_commands now m =
    Command.lrem get_global_keys.key_queue_delay (Value.message m)
    ∷ put_scheduled (delayed_message now m) (now + m.retry_delay)

unfoldable pub all_delay_commands : ℕ → List Message → List Command
all_delay_commands now [] = []
all_delay_commands now (m ∷ ms) = delay_commands now m ++ all_delay_commands now ms

abbrev pub AllHaveDelay : List Message → Type 0
AllHaveDelay [] = Unit
AllHaveDelay (m ∷ ms) = (1000 ≤ m.retry_delay) × AllHaveDelay ms

module _ (next_cron : Text → ℕ → ℕ) (fresh : Message) (now : ℕ) where
  delay_task_lem :
      (m : Message)
      → 1000 ≤ m.retry_delay
      → delay_task next_cron fresh now (Value.message m) ≡ ok (delay_commands now m)
  unfolding delay_task create_from_message incr_attempts set_attempts set_scheduled_delay
      schedule_multi get_next_scheduled_timestamp is_schedulable set_message_delayed
      schedule_message set_scheduled_at
  delay_task_lem m h = ground arith

  delay_tasks_lem :
      (ms : List Message)
      → AllHaveDelay ms
      → delay_tasks next_cron fresh now (texts ms) ≡ ok (all_delay_commands now ms)
  unfolding delay_tasks all_delay_commands
  delay_tasks_lem [] h = refl
  delay_tasks_lem (m ∷ ms) h = rw (delay_task_lem m h.0) (rw (delay_tasks_lem ms h.1) refl)

-- The delay list after the commands of its first messages.
lists-delay_commands :
    (now : ℕ) (m : Message) (vs : List Value) (s : Keyspace)
    → s.lists get_global_keys.key_queue_delay ≡ Value.message m ∷ vs
    → (effects (delay_commands now m) s).lists get_global_keys.key_queue_delay ≡ vs
unfolding effects effect
lists-delay_commands now m vs s e = simp (e, remove_first_head, text_eq_refl)

effects-append :
    (cs ds : List Command) (s : Keyspace) → effects (cs ++ ds) s ≡ effects ds (effects cs s)
unfolding effects
effects-append [] ds s = refl
effects-append (c ∷ cs) ds s = effects-append cs ds (effect c s)

lists-all_delay_commands :
    (now : ℕ) (ms : List Message) (vs : List Value) (s : Keyspace)
    → s.lists get_global_keys.key_queue_delay ≡ texts ms ++ vs
    → (effects (all_delay_commands now ms) s).lists get_global_keys.key_queue_delay ≡ vs
unfolding all_delay_commands effects
lists-all_delay_commands now [] vs s e = e
lists-all_delay_commands now (m ∷ ms) vs s e =
    ap (λ t. t.lists get_global_keys.key_queue_delay)
      (effects-append (delay_commands now m) (all_delay_commands now ms) s)
    ∙ lists-all_delay_commands now ms vs (effects (delay_commands now m) s)
        (lists-delay_commands now m (texts ms ++ vs) s e)

take-texts : (n : ℕ) (ms : List Message) → length ms ≤ n → take n (texts ms) ≡ texts ms
take-texts zero [] h = refl
take-texts (suc n) [] h = refl
take-texts zero (m ∷ ms) h = absurd (omega arith)
take-texts (suc n) (m ∷ ms) h = ap (λ t. Value.message m ∷ t) (take-texts n ms (omega arith))

exec-schedule_messages :
    (next_cron : Text → ℕ → ℕ) (fresh : Message) (now : ℕ) (ms : List Message)
    → AllHaveDelay ms
    → (s : Keyspace)
    → exec (schedule_messages next_cron fresh now (texts ms)) s
      ≡ (done tt, effects (all_delay_commands now ms) s)
unfolding exec request_effect request_reply request_blocks all_delay_commands effects
exec-schedule_messages next_cron fresh now [] d s = refl
exec-schedule_messages next_cron fresh now (m ∷ ms) d s =
    rw (delay_tasks_lem next_cron fresh now (m ∷ ms) d) refl

sent-schedule_messages :
    (next_cron : Text → ℕ → ℕ) (fresh : Message) (now : ℕ) (ms : List Message)
    → AllHaveDelay ms
    → (s : Keyspace)
    → sent (schedule_messages next_cron fresh now (texts ms)) s
      ≡ in_one_transaction (all_delay_commands now ms)
unfolding sent request_blocks request_reply all_delay_commands
sent-schedule_messages next_cron fresh now [] d s = refl
sent-schedule_messages next_cron fresh now (m ∷ ms) d s =
    rw (delay_tasks_lem next_cron fresh now (m ∷ ms) d) refl

module _ (next_cron : Text → ℕ → ℕ) (fresh : Message) (now : ℕ) (ms : List Message)
    (delays : AllHaveDelay ms) where
  pub exec-schedule_delayed :
      (s : Keyspace)
      → s.lists get_global_keys.key_queue_delay ≡ texts ms
      → length ms ≤ 100
      → exec (schedule_delayed next_cron fresh now) s
        ≡ (done tt, effects (all_delay_commands now ms) s)
  unfolding schedule_delayed exec request_effect request_reply request_blocks effect reply blocks
  exec-schedule_delayed s e h =
      exec-lrange get_global_keys.key_queue_delay s 0 99 (schedule_messages next_cron fresh now)
      ∙ ap (λ l. exec (schedule_messages next_cron fresh now l) s)
          (ap (take 100) e ∙ take-texts 100 ms h)
      ∙ exec-schedule_messages next_cron fresh now ms delays s

  sent-schedule_delayed :
      (s : Keyspace)
      → s.lists get_global_keys.key_queue_delay ≡ texts ms
      → length ms ≤ 100
      → sent (schedule_delayed next_cron fresh now) s
        ≡ single (Command.lrange get_global_keys.key_queue_delay 0 99)
          ∷ in_one_transaction (all_delay_commands now ms)
  unfolding schedule_delayed sent request_effect request_reply request_blocks effect reply blocks
  sent-schedule_delayed s e h =
      ap
        (λ l.
          single (Command.lrange get_global_keys.key_queue_delay 0 99)
          ∷ sent (schedule_messages next_cron fresh now l) s)
        (ap (take 100) e ∙ take-texts 100 ms h)
      ∙ ap (λ rs. single (Command.lrange get_global_keys.key_queue_delay 0 99) ∷ rs)
          (sent-schedule_messages next_cron fresh now ms delays s)

  -- On a reliable server, where the delay list holds at most a hundred messages and each of them has a
  -- retry delay of at least a second: a tick of the delay worker succeeds. After it has read the list
  -- it sends one transaction, or nothing if the list is empty; this puts each message under the
  -- present time and its retry delay, with one attempt more, and the delay list is empty after it.
  pub schedule_delayed_lem :
      (S : Server) (reliable : IsReliable S) (d : S.Db)
      → (S.view d).lists get_global_keys.key_queue_delay ≡ texts ms
      → length ms ≤ 100
      → (result S (schedule_delayed next_cron fresh now) d ≡ done tt)
        × (requests S (schedule_delayed next_cron fresh now) d
            ≡ single (Command.lrange get_global_keys.key_queue_delay 0 99)
              ∷ in_one_transaction (all_delay_commands now ms))
        × (content S (schedule_delayed next_cron fresh now) d
            ≡ effects (all_delay_commands now ms) (S.view d))
        × ((content S (schedule_delayed next_cron fresh now) d).lists
              get_global_keys.key_queue_delay
            ≡ [])
  schedule_delayed_lem S reliable d e h =
      let ran = on_server S reliable _ d (exec-schedule_delayed (S.view d) e h) in
      (
        ran.0,
        requests-sent S reliable (schedule_delayed next_cron fresh now) d
            ∙ sent-schedule_delayed (S.view d) e h,
        ran.1,
        ap (λ t. t.lists get_global_keys.key_queue_delay) ran.1
            ∙ lists-all_delay_commands now ms [] (S.view d) (e ∙ sym (append-nil (texts ms))),
      )
