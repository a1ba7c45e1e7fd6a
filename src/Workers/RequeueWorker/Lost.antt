-- ===== src/Workers/RequeueWorker/Lost.antt =====
-- src/system/workers/requeue.worker.ts: what becomes of a message with priority.
use redis_smq.Prelude.{
  Text, ◌+◌, true, none, some, List, [], ◌∷◌, ◌++◌, ◌≡◌, refl, arith, ap, ◌∙◌, text_eq_refl, take,
}
use redis_smq.Errors.{ok, redis_client_error, ◌>>=◌}
use redis_smq.Message.{Message, MessageQueue, incr_attempts, set_attempts}
use redis_smq.Message.Priority.{priority_of, get_set_priority_lem}
use redis_smq.Keys.Names.{get_global_keys, queue_keys}
use redis_smq.Redis.Value.{Value, value_eq_refl, create_from_message}
use redis_smq.Redis.Keyspace.{
  Keyspace, update, remove_first, find, put_ranked, insert_ranked, without,
}
use redis_smq.Redis.Command.{Command, effect}
use redis_smq.Redis.Client.{exec_multi, zpophgetrpush}
use redis_smq.Redis.Client.Reads.{exec-lrange}
use redis_smq.Redis.Client.Moves.{exec-zpophgetrpush, script_outcome}
use redis_smq.Redis.Scripts.Moves.{
  IsZsetKey, remove_first_head, take_out, pop_answer, popped, stored,
}
use redis_smq.Redis.Program
use redis_smq.Redis.Program.{
  Program, lift, Outcome, done, failed, exec, exec-bind, continue, effects, request_effect,
  request_reply, request_blocks, ◌>>◌,
}
use redis_smq.Redis.Server.{on_server, Server, IsReliable, result, content}
use redis_smq.Workers.RequeueWorker.{
  requeue_task, requeue_tasks, requeue_messages, requeued, requeue_in, on_tick,
}

-- The message as the worker writes it.
abbrev pub rewritten : Message → Message
rewritten m = record m { attempts = m.attempts + 1; priority = some (priority_of m) }

abbrev pub requeue_commands : Message → MessageQueue → List Command
requeue_commands m q =
    Command.lrem get_global_keys.key_queue_requeue (Value.message m)
    ∷ Command.zadd (queue_keys q.ns q.name).key_queue_priority (priority_of m)
        (Value.message (rewritten m))
    ∷ []

requeued_at :
    (m : Message) (q : MessageQueue)
    → requeued true q (incr_attempts m)
      ≡ ok (
          Command.zadd
            (queue_keys q.ns q.name).key_queue_priority
            (priority_of m)
            (Value.message (rewritten m))
          ∷ [])
unfolding incr_attempts set_attempts
requeued_at m q =
    ap
      (λ r. r >>= λ x.
        ok (Command.zadd (queue_keys q.ns q.name).key_queue_priority x.1 (Value.message x.0) ∷ []))
      (get_set_priority_lem (incr_attempts m))

module _ (fresh m : Message) (q : MessageQueue) (queued : m.queue ≡ some q) where
  requeue_tasks_lem : requeue_tasks true fresh (Value.message m ∷ []) ≡ ok (requeue_commands m q)
  unfolding requeue_tasks requeue_task create_from_message
  requeue_tasks_lem =
      ap (λ o. requeue_in true (Value.message m) m o >>= λ first. ok (first ++ [])) queued
      ∙ ap
          (λ r.
            (r >>= λ commands.
            ok (Command.lrem get_global_keys.key_queue_requeue (Value.message m) ∷ commands))
            >>= λ first. ok (first ++ []))
          (requeued_at m q)

  exec-on_tick :
      (s : Keyspace)
      → s.lists get_global_keys.key_queue_requeue ≡ Value.message m ∷ []
      → exec (on_tick true fresh) s ≡ (done tt, effects (requeue_commands m q) s)
  unfolding on_tick exec request_effect request_reply request_blocks effects
  exec-on_tick s only =
      exec-lrange get_global_keys.key_queue_requeue s 0 99 (requeue_messages true fresh)
      ∙ ap (λ l. exec (requeue_messages true fresh l) s) (ap (take 100) only)
      ∙ ap (λ r. exec (Program.◌>>=◌ (lift r) exec_multi) s) requeue_tasks_lem
      ∙ refl

update_nil : (f : Text → List Value) (k j : Text) → f j ≡ [] → update f k [] j ≡ []
update_nil f k j h = ground arith

-- The keys of a queue with priority.
abbrev pub priority_key : MessageQueue → Text
priority_key q = (queue_keys q.ns q.name).key_queue_priority

abbrev pub pending_key : MessageQueue → Text
pending_key q = (queue_keys q.ns q.name).key_pending_messages_with_priority

module _ (fresh m : Message) (q : MessageQueue) (s : Keyspace)
    (only : s.lists get_global_keys.key_queue_requeue ≡ Value.message m ∷ [])
    (zset : IsZsetKey (priority_key q) s) (no_pending : s.zsets (priority_key q) ≡ [])
    (by_id : find (Value.message (rewritten m)) (s.hashes (pending_key q)) ≡ none) where
  abbrev after_tick : Keyspace
  after_tick = effects (requeue_commands m q) s

  zsets-after_tick :
      after_tick.zsets (priority_key q) ≡ (Value.message (rewritten m), priority_of m) ∷ []
  unfolding effects effect put_ranked insert_ranked without
  zsets-after_tick = simp (no_pending, text_eq_refl)

  lists-after_tick : after_tick.lists get_global_keys.key_queue_requeue ≡ []
  unfolding effects effect
  lists-after_tick = simp (only, text_eq_refl, remove_first_head)

  emptied : after_tick.lists (priority_key q) ≡ []
  unfolding effects effect
  emptied =
      ap (λ l. update s.lists get_global_keys.key_queue_requeue l (priority_key q))
        (ap (remove_first (Value.message m)) only ∙ remove_first_head (Value.message m) [])
      ∙ update_nil s.lists get_global_keys.key_queue_requeue (priority_key q) zset.no_list

  after_tick-IsZsetKey : IsZsetKey (priority_key q) after_tick
  unfolding effects effect
  after_tick-IsZsetKey = record { no_list = emptied; no_hash = zset.no_hash; no_set = zset.no_set }

  after_tick-by_id : find (Value.message (rewritten m)) (after_tick.hashes (pending_key q)) ≡ none
  unfolding effects effect
  after_tick-by_id = by_id

  pop_after_tick :
      (destination : Text)
      → exec (zpophgetrpush (priority_key q) (pending_key q) destination) after_tick ≡ (
        failed redis_client_error,
        take_out (priority_key q) (pending_key q) (Value.message (rewritten m)) after_tick,
      )
  pop_after_tick destination =
      exec-zpophgetrpush (priority_key q) (pending_key q) destination after_tick
        after_tick-IsZsetKey
      ∙ ap
          (λ l. script_outcome (
            pop_answer l (stored l (after_tick.hashes (pending_key q))),
            popped (priority_key q) (pending_key q) destination l
                (stored l (after_tick.hashes (pending_key q))) after_tick,
          ))
          zsets-after_tick
      ∙ rw after_tick-by_id refl

  abbrev lost : Keyspace
  lost = take_out (priority_key q) (pending_key q) (Value.message (rewritten m)) after_tick

  lists-lost : lost.lists ≡ update s.lists get_global_keys.key_queue_requeue []
  unfolding effects effect
  lists-lost =
      ap (update s.lists get_global_keys.key_queue_requeue)
        (ap (remove_first (Value.message m)) only ∙ remove_first_head (Value.message m) [])

  zsets-lost : lost.zsets (priority_key q) ≡ []
  unfolding without
  zsets-lost = simp (zsets-after_tick, text_eq_refl, value_eq_refl)

-- On a reliable server, for a message that is the only one of the requeue list, where the sorted set
-- of its queue is empty, its key holds nothing else, and no field of the queue's hash is the text of
-- the message (the fields are ids): a tick of the requeue worker with priority empties the requeue
-- list, and when then a consumer dequeues from the queue, that fails, the sorted set is empty
-- again, and no list but the requeue list has changed: the message is lost.
pub on_tick-lost :
    (S : Server) (reliable : IsReliable S) (d : S.Db) (fresh m : Message) (q : MessageQueue)
    → m.queue ≡ some q
    → (S.view d).lists get_global_keys.key_queue_requeue ≡ Value.message m ∷ []
    → IsZsetKey (priority_key q) (S.view d)
    → (S.view d).zsets (priority_key q) ≡ []
    → find (Value.message (rewritten m)) ((S.view d).hashes (pending_key q)) ≡ none
    → (destination : Text)
    → (result S (on_tick true fresh >> zpophgetrpush (priority_key q) (pending_key q) destination) d
        ≡ failed redis_client_error)
      × (((content S
              (on_tick true fresh >> zpophgetrpush (priority_key q) (pending_key q) destination)
              d).lists
            ≡ update (S.view d).lists get_global_keys.key_queue_requeue [])
          × ((content S
                  (on_tick true fresh >> zpophgetrpush (priority_key q) (pending_key q) destination)
                  d).zsets
                (priority_key q)
              ≡ []))
on_tick-lost S reliable d fresh m q queued only zset none_pending by_id destination =
    let ran = on_server S reliable _ d (
      exec-bind (λ _. zpophgetrpush (priority_key q) (pending_key q) destination)
        (on_tick true fresh) (S.view d)
      ∙ ap (λ x. continue x (λ _. zpophgetrpush (priority_key q) (pending_key q) destination))
          (exec-on_tick fresh m q queued (S.view d) only)
      ∙ pop_after_tick fresh m q (S.view d) only zset none_pending by_id destination) in
    (
      ran.0,
      (
        ap (λ t. t.lists) ran.1 ∙ lists-lost fresh m q (S.view d) only zset none_pending by_id,
        ap (λ t. t.zsets (priority_key q)) ran.1
            ∙ zsets-lost fresh m q (S.view d) only zset none_pending by_id,
      ),
    )
