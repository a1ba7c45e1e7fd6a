-- ===== src/PriorityFlow/Steps.antt =====
-- src/system/broker.ts with priorities on Redis: one message is produced, and one is taken.
use redis_smq.Prelude.{
  Text, text_eq, text_eq_refl, text_eq_ne, ℕ, suc, true, false, none, some, List, [], ◌∷◌, ◌++◌,
  ◌≡◌, ap, sym, ◌∙◌, arith,
}
use redis_smq.Message.{Message, is_schedulable, reset, set_queue, set_published_at}
use redis_smq.Message.Priority.{priority_of, get_set_priority_lem}
use redis_smq.Keys.{RedisKey}
use redis_smq.Keys.Names.{queue_keys}
use redis_smq.Keys.Distinct.{namespaced_key-number}
use redis_smq.Redis.Value.{Value, value_eq_refl}
use redis_smq.Redis.Keyspace.{Keyspace, set_zset, set_hash, put_ranked, put_field, without}
use redis_smq.Redis.Command.{effect}
use redis_smq.Redis.Client.{zpophgetrpush, zpushhset}
use redis_smq.Redis.Client.Moves.{exec-zpophgetrpush, script_outcome}
use redis_smq.Redis.Scripts.{run_script}
use redis_smq.Redis.Scripts.Moves.{IsZsetKey, stored, popped, pop_answer}
use redis_smq.Redis.Program.{
  done, exec, exec_next, pure, request_effect, request_reply, request_blocks,
}
use redis_smq.Handlers.Dequeue.{dequeue_with_priority, reply_or, new_dequeue_handler}
use redis_smq.Handlers.Enqueue.{enqueue, enqueue_message_with_priority}
use redis_smq.Handlers.Processing.Settling.{HasNames, to_queue}
use redis_smq.Broker.{dequeue_message, enqueue_message}
use redis_smq.Producer.{prepare, proceed}
use redis_smq.MessageFlow.{Setting, processing_of, produce, take_next, operation}
use redis_smq.MessageFlow.Places.{encode, encode-append}
use redis_smq.Redis.Keyspace.Ids.{has_id}
use redis_smq.PriorityFlow.{PriorityQueue, enqueued, insert_by_priority}
use redis_smq.PriorityFlow.Stored.{
  ranks, AllStored, put_ranked-ranks, without-ranks, AllStored-without, AllStored-insert,
}

abbrev pub ids_key : Setting → Text
ids_key c = (queue_keys c.broker.namespace c.name).key_queue_priority

abbrev pub messages_key : Setting → Text
messages_key c = (queue_keys c.broker.namespace c.name).key_pending_messages_with_priority

-- A database represents an abstract queue: the sorted set holds the ids in the order of delivery, the
-- hash the messages under them, and the processing list what the consumer holds.
pub record Represents (c : Setting) (s : Keyspace) (q : PriorityQueue) : Type 0 where
  pub ranked : s.zsets (ids_key c) ≡ ranks q.pending
  pub stored_ok : AllStored q.pending (s.hashes (messages_key c))
  pub held : s.lists (processing_of c) ≡ encode q.processing
  pub is_zset : IsZsetKey (ids_key c) s

-- The process works with priorities, its names do not hold the separator, and a consumer looks for a
-- message at least once.
pub record IsReady (c : Setting) : Type 0 where
  pub priorities : c.broker.priority_queue ≡ true
  pub names : HasNames c.broker.namespace c.name c.id
  pub looks : ℕ
  pub looks_ok : c.polls ≡ suc looks

module _ (c : Setting) (is_ready : IsReady c) where
  messages-ids : text_eq (messages_key c) (ids_key c) ≡ false
  messages-ids = text_eq_ne _ _ λ e. absurd (
      omega (
        arith,
        (namespaced_key-number c.broker.namespace c.broker.namespace
            RedisKey.pending_messages_with_priority RedisKey.queue_priority (c.name ∷ [])
            (c.name ∷ []) is_ready.names.namespace_ok is_ready.names.namespace_ok
            (is_ready.names.name_ok, tt) (is_ready.names.name_ok, tt) e).1,
      ))

  processing-ids : text_eq (processing_of c) (ids_key c) ≡ false
  processing-ids =
      to_queue c.broker.namespace c.name c.id is_ready.names RedisKey.queue_priority (omega arith)

  abbrev added : Message → Keyspace → Keyspace
  added m s =
      set_hash (messages_key c)
        (put_field (Value.text m.uuid) (Value.message m) (s.hashes (messages_key c)))
        (set_zset (ids_key c) (put_ranked (Value.text m.uuid) (priority_of m) (s.zsets (ids_key c)))
          s)

  pub exec-produce :
      (now : ℕ) (m : Message) (s : Keyspace)
      → is_schedulable m ≡ false
      → exec (operation c (produce now m)) s ≡ (done none, added (enqueued c now m) s)
  unfolding operation proceed prepare reset set_queue is_schedulable enqueue_message enqueue
      enqueue_message_with_priority zpushhset exec request_effect request_reply request_blocks
      run_script effect set_published_at
  exec-produce now m s plain = simp (plain, is_ready.priorities, get_set_priority_lem)

  pub added-Represents :
      (m : Message) (s : Keyspace) (q : PriorityQueue)
      → has_id m.uuid q.pending ≡ false
      → Represents c s q
      → Represents c (added m s) (record q { pending = insert_by_priority m q.pending })
  added-Represents m s q new h = record {
    ranked = rw (text_eq_refl (ids_key c)) (
        ap (put_ranked (Value.text m.uuid) (priority_of m)) h.ranked
        ∙ put_ranked-ranks m q.pending new);
    stored_ok = rw (text_eq_refl (messages_key c)) (AllStored-insert m q.pending _ new h.stored_ok);
    held = h.held;
    is_zset = record {
      no_list = h.is_zset.no_list;
      no_hash = rw messages-ids h.is_zset.no_hash;
      no_set = h.is_zset.no_set;
    };
  }

  abbrev taken : Message → List Message → Keyspace → Keyspace
  taken m ms s =
      popped (ids_key c) (messages_key c) (processing_of c) (ranks (m ∷ ms))
        (some (Value.message m)) s

  exec-zpop :
      (m : Message) (ms : List Message) (s : Keyspace)
      → s.zsets (ids_key c) ≡ ranks (m ∷ ms)
      → stored (ranks (m ∷ ms)) (s.hashes (messages_key c)) ≡ some (Value.message m)
      → IsZsetKey (ids_key c) s
      → exec (zpophgetrpush (ids_key c) (messages_key c) (processing_of c)) s
        ≡ (done (some (Value.message m)), taken m ms s)
  exec-zpop m ms s e f k =
      exec-zpophgetrpush (ids_key c) (messages_key c) (processing_of c) s k
      ∙ ap
          (λ l. script_outcome (
            pop_answer l (stored l (s.hashes (messages_key c))),
            popped (ids_key c) (messages_key c) (processing_of c) l
                (stored l (s.hashes (messages_key c))) s,
          ))
          e
      ∙ ap
          (λ o. script_outcome (
            pop_answer (ranks (m ∷ ms)) o,
            popped (ids_key c) (messages_key c) (processing_of c) (ranks (m ∷ ms)) o s,
          ))
          f

  pub exec-take :
      (m : Message) (ms : List Message) (s : Keyspace)
      → s.zsets (ids_key c) ≡ ranks (m ∷ ms)
      → stored (ranks (m ∷ ms)) (s.hashes (messages_key c)) ≡ some (Value.message m)
      → IsZsetKey (ids_key c) s
      → exec (operation c take_next) s ≡ (done (some (Value.message m)), taken m ms s)
  unfolding operation dequeue_message dequeue_with_priority exec
  exec-take m ms s e f k =
      let handler = new_dequeue_handler c.broker.namespace c.name (processing_of c) in
      let again = dequeue_with_priority is_ready.looks handler in
      rw (is_ready.priorities, is_ready.looks_ok)
        (exec_next (dequeue_with_priority (suc is_ready.looks) handler) (λ v. pure (some v)) s
          (exec_next (zpophgetrpush (ids_key c) (messages_key c) (processing_of c)) (reply_or again)
            s (exec-zpop m ms s e f k)))

  pub taken-Represents :
      (m : Message) (ms held : List Message) (s : Keyspace)
      → Represents c s (record { pending = m ∷ ms; processing = held })
      → Represents c (taken m ms s) (record { pending = ms; processing = held ++ m ∷ [] })
  unfolding without
  taken-Represents m ms held s h = record {
    ranked = rw (text_eq_refl (ids_key c)) (
        ap (without (Value.text m.uuid)) h.ranked
        ∙ rw (value_eq_refl (Value.text m.uuid)) (without-ranks m.uuid ms h.stored_ok.1));
    stored_ok =
        rw (text_eq_refl (messages_key c))
          (AllStored-without m.uuid ms _ h.stored_ok.1 h.stored_ok.2);
    held =
        rw (text_eq_refl (processing_of c))
          (ap (λ l. l ++ Value.message m ∷ []) h.held ∙ sym (encode-append held (m ∷ [])));
    is_zset = record {
      no_list = rw processing-ids h.is_zset.no_list;
      no_hash = rw messages-ids h.is_zset.no_hash;
      no_set = h.is_zset.no_set;
    };
  }
