-- ===== src/Handlers/Schedule/Due.antt =====
-- src/system/message-manager/handlers/schedule.handler.ts: one tick of the schedule worker over messages
-- that are not to be scheduled again.
use redis_smq.Prelude.{
  Text, text_eq, ℕ, Bool, true, false, ◌||◌, Option, none, some, List, [], ◌∷◌, ◌≡◌, refl, ap, sym,
  ◌∙◌, arith, Bool-cases, inl, inr, if◌then◌else◌, leb,
}
use redis_smq.Errors.{ok, err}
use redis_smq.Message.{Message, MessageQueue, is_schedulable, set_published_at}
use redis_smq.Keys.Names.{get_global_keys, queue_keys}
use redis_smq.Redis.Value.{Value}
use redis_smq.Redis.Keyspace.{Keyspace, find, find_all, scored_between}
use redis_smq.Redis.Command.{Command, effect, reply, blocks}
use redis_smq.Redis.Program.{
  done, exec_next, raise, send, transaction, lift, exec, effects, request_effect, request_reply,
  request_blocks, ◌>>=◌,
}
use redis_smq.Redis.Client.Reads.{exec-hmget}
use redis_smq.Handlers.Common.{create_all, present}
use redis_smq.Handlers.Common.Pages.{texts, create_all-texts}
use redis_smq.Handlers.Enqueue.{enqueue_multi}
use redis_smq.Handlers.Timestamp.{get_next_scheduled_timestamp}
use redis_smq.Handlers.Schedule.{
  drop_scheduled, enqueue_scheduled, enqueue_each, keep_first, fetch_messages,
  enqueue_scheduled_messages,
}

-- A message with the time for which it is scheduled.
abbrev pub Scheduled : Type 0
Scheduled = ℕ × Message

-- The sorted set of what is scheduled.
abbrev pub times : List Scheduled → List (Value × ℕ)
times [] = []
times ((t, m) ∷ es) = (Value.text m.uuid, t) ∷ times es

unfoldable pub is_scheduled : Text → List Scheduled → Bool
is_scheduled id [] = false
is_scheduled id ((t, m) ∷ es) = text_eq m.uuid id || is_scheduled id es

-- Each message is stored under its id, and no two have the same.
abbrev pub AllStored : List Scheduled → List (Value × Value) → Type 0
AllStored [] fields = Unit
AllStored ((t, m) ∷ es) fields =
    (find (Value.text m.uuid) fields ≡ some (Value.message m))
    × (is_scheduled m.uuid es ≡ false)
    × AllStored es fields

-- The messages whose time has come, and the entries whose time has not.
unfoldable pub due : ℕ → List Scheduled → List Message
due now [] = []
due now ((t, m) ∷ es) = let rest = due now es in if leb t now then m ∷ rest else rest

unfoldable pub later : ℕ → List Scheduled → List Scheduled
later now [] = []
later now ((t, m) ∷ es) = let rest = later now es in if leb t now then rest else (t, m) ∷ rest

abbrev pub ids : List Message → List Value
ids [] = []
ids (m ∷ ms) = Value.text m.uuid ∷ ids ms

-- A message that is not to be scheduled again: its delay is served, and it does not repeat.
pub record IsServed (m : Message) (q : MessageQueue) : Type 0 where
  pub queued : m.queue ≡ some q
  pub no_cron : m.scheduled_cron ≡ none
  pub no_repeat : m.scheduled_repeat ≡ 0
  pub delay_served : m.delayed ≡ true

abbrev pub AllServed : List Message → Type 0
AllServed [] = Unit
AllServed (m ∷ ms) = ((q : MessageQueue) × IsServed m q) × AllServed ms

abbrev pub published : ℕ → Message → Message
published now m = record m { published_at = some now }

-- What one transaction sends.
abbrev pub due_commands : ℕ → Message → MessageQueue → List Command
due_commands now m q =
    Command.rpush (queue_keys q.ns q.name).key_queue (Value.message (published now m))
    ∷ drop_scheduled m

abbrev pub commands_at : ℕ → Message → Option MessageQueue → List Command
commands_at now m none = []
commands_at now m (some q) = due_commands now m q

-- The database after the transactions of the messages, one after the other.
unfoldable pub after_due : ℕ → List Message → Keyspace → Keyspace
after_due now [] s = s
after_due now (m ∷ ms) s = after_due now ms (effects (commands_at now m m.queue) s)

module _ (next_cron : Text → ℕ → ℕ) (now : ℕ) where
  enqueue_scheduled_lem :
      (m : Message) (q : MessageQueue)
      → IsServed m q
      → enqueue_scheduled next_cron now false m ≡ ok (commands_at now m m.queue)
  unfolding enqueue_scheduled enqueue_multi get_next_scheduled_timestamp set_published_at
      is_schedulable
  enqueue_scheduled_lem m q h = ground arith

  scored_between-times : (es : List Scheduled) → scored_between 0 now (times es) ≡ ids (due now es)
  unfolding scored_between due
  scored_between-times [] = refl
  scored_between-times ((t, m) ∷ es) = ground (arith, scored_between-times es)

  exec-enqueue_each :
      (ms : List Message) (s : Keyspace)
      → AllServed ms
      → exec (enqueue_each next_cron now false none ms) s ≡ (done tt, after_due now ms s)
  unfolding enqueue_each exec after_due request_effect request_reply request_blocks
  exec-enqueue_each [] s h = refl
  exec-enqueue_each (m ∷ ms) s h =
      ap
        (λ r.
          exec
            (elim r [
              | err e ↦ raise e
              | ok commands ↦
                  send (transaction commands)
                    (λ answer. enqueue_each next_cron now false (keep_first none answer) ms)
            ])
            s)
        (enqueue_scheduled_lem m h.0.0 h.0.1)
      ∙ exec-enqueue_each ms (effects (commands_at now m m.queue) s) h.1

  find_all-due :
      (es : List Scheduled) (fields : List (Value × Value))
      → AllStored es fields
      → find_all (ids (due now es)) fields ≡ present (texts (due now es))
  unfolding find_all due
  find_all-due [] fields h = refl
  find_all-due ((t, m) ∷ es) fields h = elim (Bool-cases (leb t now)) [
    | inl e ↦ rw e (rw h.0 (ap (λ l. some (Value.message m) ∷ l) (find_all-due es fields h.2)))
    | inr e ↦ rw e (find_all-due es fields h.2)
  ]

  exec-fetched :
      (fresh : Message) (es : List Scheduled) (s : Keyspace)
      → AllStored es (s.hashes get_global_keys.key_scheduled_messages)
      → (ms : List Message) → due now es ≡ ms
      → AllServed ms
      → exec (fetch_messages fresh (ids ms) >>= enqueue_each next_cron now false none) s
        ≡ (done tt, after_due now ms s)
  unfolding exec
  exec-fetched fresh es s stored [] e served = exec-enqueue_each [] s tt
  exec-fetched fresh es s stored (m ∷ ms) e served =
      let fields = s.hashes get_global_keys.key_scheduled_messages in
      exec_next (fetch_messages fresh (ids (m ∷ ms))) (enqueue_each next_cron now false none) s (
        exec-hmget get_global_keys.key_scheduled_messages s (ids (m ∷ ms))
          (λ reply. lift (create_all fresh reply))
        ∙ ap (λ r. exec (lift (create_all fresh r)) s)
            (ap (λ l. find_all (ids l) fields) (sym e)
              ∙ find_all-due es fields stored
              ∙ ap (λ l. present (texts l)) e)
        ∙ ap (λ r. exec (lift r) s) (create_all-texts fresh (m ∷ ms)))
      ∙ exec-enqueue_each (m ∷ ms) s served

  pub exec-enqueue_scheduled_messages :
      (fresh : Message) (es : List Scheduled) (s : Keyspace)
      → s.zsets get_global_keys.key_queue_scheduled ≡ times es
      → AllStored es (s.hashes get_global_keys.key_scheduled_messages)
      → AllServed (due now es)
      → exec (enqueue_scheduled_messages next_cron fresh now false) s
        ≡ (done tt, after_due now (due now es) s)
  unfolding enqueue_scheduled_messages exec request_blocks request_reply request_effect blocks reply
      effect
  exec-enqueue_scheduled_messages fresh es s ranked stored served =
      ap (λ l. exec (fetch_messages fresh l >>= enqueue_each next_cron now false none) s)
        (ap (scored_between 0 now) ranked ∙ scored_between-times es)
      ∙ exec-fetched fresh es s stored (due now es) refl served
