-- ===== src/Handlers/Requeue/Prioritised.antt =====
-- src/system/message-manager/handlers/requeue.handler.ts: a message that is requeued with a priority.
use redis_smq.Prelude.{
  Text, ℕ, ◌≤◌, ◌<◌, true, Option, some, List, [], ◌∷◌, ◌≡◌, refl, ap, ◌∙◌, get_elem?, arith,
}
use redis_smq.Errors.{Result, ok, err, argument_error}
use redis_smq.Message.{Message, reset, set_queue, set_published_at, set_priority}
use redis_smq.Message.Priority.{get_set_priority_lem}
use redis_smq.Keys.{or_namespace}
use redis_smq.Keys.Names.{queue_keys}
use redis_smq.Redis.Value.{Value, create_from_message}
use redis_smq.Redis.Keyspace.{Keyspace}
use redis_smq.Redis.Command.{Command}
use redis_smq.Redis.Client.{exec_multi}
use redis_smq.Redis.Program
use redis_smq.Redis.Program.{
  Outcome, done, failed, exec, effects, request_effect, request_reply, request_blocks, lift,
}
use redis_smq.Handlers.Common.Lookup.{found}
use redis_smq.Handlers.Enqueue.{
  enqueue_multi, enqueue_message_with_priority_multi, with_priority_commands,
}
use redis_smq.Handlers.Requeue.{requeue_list_message, requeue_commands}
use redis_smq.Handlers.Requeue.Requeued.{requeued, exec-requeue_list_message}

-- The message as it is enqueued again, with its new priority.
abbrev pub prioritised : ℕ → Text → Text → ℕ → Message → Message
prioritised now ns name p m = record (requeued now ns name m) { priority = some p }

abbrev pub priority_moves : ℕ → Text → Text → Text → ℕ → Message → List Command
priority_moves now ns name from p m =
    Command.lrem from (Value.message m)
    ∷ Command.hset (queue_keys ns name).key_pending_messages_with_priority (Value.text m.uuid)
        (Value.message (prioritised now ns name p m))
    ∷ Command.zadd (queue_keys ns name).key_queue_priority p (Value.text m.uuid)
    ∷ []

set_priority_served :
    (p : ℕ) (m : Message) → p ≤ 7 → set_priority p m ≡ ok (record m { priority = some p })
unfolding set_priority
set_priority_served p m h = ground arith

set_priority_refused : (p : ℕ) (m : Message) → 7 < p → set_priority p m ≡ err argument_error
unfolding set_priority
set_priority_refused p m h = ground arith

module _ (now : ℕ) (ns name from : Text) (p : ℕ) (m : Message) where
  enqueue_multi-prioritised :
      enqueue_multi now (record (set_queue ns name (reset m)) { priority = some p }) true
      ≡ ok (
        Command.hset
              (queue_keys ns name).key_pending_messages_with_priority
              (Value.text m.uuid)
              (Value.message (prioritised now ns name p m))
            ∷ Command.zadd (queue_keys ns name).key_queue_priority p (Value.text m.uuid)
            ∷ [],
        prioritised now ns name p m,
      )
  unfolding enqueue_multi enqueue_message_with_priority_multi set_queue set_published_at reset
  enqueue_multi-prioritised =
      ap (λ r. elim r [ err e ↦ err e | ok x ↦ ok (with_priority_commands ns name x) ])
        (get_set_priority_lem (prioritised now ns name p m))

  pub requeue_commands-served :
      p ≤ 7
      → requeue_commands now ns name from true (some p) m ≡ ok (priority_moves now ns name from p m)
  unfolding requeue_commands create_from_message
  requeue_commands-served h =
      rw (set_priority_served p (set_queue ns name (reset m)) h, enqueue_multi-prioritised) refl

  pub requeue_commands-refused :
      7 < p → requeue_commands now ns name from true (some p) m ≡ err argument_error
  unfolding requeue_commands create_from_message
  requeue_commands-refused h = rw (set_priority_refused p (set_queue ns name (reset m)) h) refl

module _ (namespace : Text) (fresh : Message) (now : ℕ) (name : Text) (ns : Option Text)
    (from : Text) (i : ℕ) (message_id : Text) (s : Keyspace) (p : ℕ) (m : Message)
    (e : get_elem? (s.lists from) i ≡ some (Value.message m)) (same : m.uuid ≡ message_id) where
  exec-prioritised :
      {r : Result (List Command)}
      → requeue_commands now (or_namespace ns namespace) name from true (some p) m ≡ r
      → exec (requeue_list_message namespace fresh now name ns from i message_id true (some p)) s
        ≡ exec (Program.◌>>=◌ (lift r) exec_multi) s
  unfolding exec
  exec-prioritised f =
      exec-requeue_list_message namespace fresh now name ns from i message_id s true (some p) e
        (found fresh from i message_id name (or_namespace ns namespace) s m same)
      ∙ ap (λ r. exec (Program.◌>>=◌ (lift r) exec_multi) s) f

  pub exec-requeue_served :
      p ≤ 7
      → exec (requeue_list_message namespace fresh now name ns from i message_id true (some p)) s
        ≡ (done tt, effects (priority_moves now (or_namespace ns namespace) name from p m) s)
  unfolding exec request_effect request_reply request_blocks effects
  exec-requeue_served h =
      exec-prioritised (requeue_commands-served now (or_namespace ns namespace) name from p m h)

  pub exec-requeue_refused :
      7 < p
      → exec (requeue_list_message namespace fresh now name ns from i message_id true (some p)) s
        ≡ (failed argument_error, s)
  unfolding exec
  exec-requeue_refused h =
      exec-prioritised (requeue_commands-refused now (or_namespace ns namespace) name from p m h)
