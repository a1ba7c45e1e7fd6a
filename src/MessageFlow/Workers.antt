-- ===== src/MessageFlow/Workers.antt =====
-- src/system/workers/delay.worker.ts and schedule.worker.ts: what their ticks do to an abstract queue.
use redis_smq.Prelude.{text_eq, text_eq_ne, ℕ, false, List, [], ◌∷◌, ◌≡◌, ◌≢◌, ap, ◌∙◌, arith}
use redis_smq.Message.{Message, MessageQueue}
use redis_smq.Keys.{global_namespace, RedisKey, number, namespaced_key}
use redis_smq.Keys.Distinct.{namespaced_key-number}
use redis_smq.Redis.Value.{Value}
use redis_smq.Redis.Keyspace.{Keyspace, set_zset, set_hash, remove_first}
use redis_smq.Redis.Command.{effect}
use redis_smq.Redis.Program.{effects}
use redis_smq.Redis.Scripts.Moves.{remove_first_head}
use redis_smq.Handlers.Delay.Delayed.{delay_commands}
use redis_smq.Handlers.Schedule.Due.{published, due_commands}
use redis_smq.MessageFlow.{Setting, processing_of, Contents, Place, ready, delayed, put, add_last}
use redis_smq.MessageFlow.Places.{Represents, encode, set_list-Represents, set_last-Represents}
use redis_smq.MessageFlow.Steps.{IsReady}

-- The queue of a setting.
abbrev pub queue_of : Setting → MessageQueue
queue_of c = record { name = c.name; ns = c.broker.namespace }

pub same-Represents :
    (c : Setting) (s : Keyspace) (q q' : Contents)
    → ((p : Place) → q p ≡ q' p)
    → Represents c s q
    → Represents c s q'
same-Represents c s q q' same h = record {
  lists = λ p. h.lists p ∙ ap encode (same p);
  is_list = h.is_list;
}

module _ (c : Setting) (is_ready : IsReady c) where
  -- The keys of the scheduler are not that of the processing queue.
  to_processing :
      (t : RedisKey)
      → number t ≢ number RedisKey.queue_processing
      → text_eq (namespaced_key global_namespace t []) (processing_of c) ≡ false
  to_processing t ne = text_eq_ne _ _ λ e.
      ne
        (namespaced_key-number global_namespace c.broker.namespace t RedisKey.queue_processing []
          (c.name ∷ c.id ∷ []) (omega arith) is_ready.names.namespace_ok tt
          (is_ready.names.name_ok, (is_ready.names.id_ok, tt)) e).1

  set_zset-Represents :
      (t : RedisKey) (zs : List (Value × ℕ)) (s : Keyspace) (q : Contents)
      → number t ≢ number RedisKey.queue_processing
      → Represents c s q
      → Represents c (set_zset (namespaced_key global_namespace t []) zs s) q
  set_zset-Represents t zs s q ne h = record {
    lists = h.lists;
    is_list = record {
      no_zset = rw (to_processing t ne) h.is_list.no_zset;
      no_hash = h.is_list.no_hash;
      no_set = h.is_list.no_set;
    };
  }

  set_hash-Represents :
      (t : RedisKey) (fs : List (Value × Value)) (s : Keyspace) (q : Contents)
      → number t ≢ number RedisKey.queue_processing
      → Represents c s q
      → Represents c (set_hash (namespaced_key global_namespace t []) fs s) q
  set_hash-Represents t fs s q ne h = record {
    lists = h.lists;
    is_list = record {
      no_zset = h.is_list.no_zset;
      no_hash = rw (to_processing t ne) h.is_list.no_hash;
      no_set = h.is_list.no_set;
    };
  }

  module _ (m : Message) (now : ℕ) (s : Keyspace) (q : Contents) where
    -- The tick of the delay worker.
    pub delay_commands-Represents :
        q delayed ≡ m ∷ []
        → Represents c s q
        → Represents c (effects (delay_commands now m) s) (put delayed [] q)
    unfolding effects effect
    delay_commands-Represents e h =
        set_hash-Represents RedisKey.scheduled_messages _ _ _ (omega arith) (
          set_zset-Represents RedisKey.queue_scheduled _ _ _ (omega arith) (
            set_list-Represents c is_ready.names delayed []
              (ap (remove_first (Value.message m)) (h.lists delayed ∙ ap encode e)
                ∙ remove_first_head (Value.message m) [])
              h))

    -- The tick of the schedule worker.
    pub due_commands-Represents :
        Represents c s q
        → Represents c
            (effects (due_commands now m (queue_of c)) s)
            (add_last ready (published now m) q)
    unfolding effects effect
    due_commands-Represents h =
        set_hash-Represents RedisKey.scheduled_messages _ _ _ (omega arith) (
          set_zset-Represents RedisKey.queue_scheduled _ _ _ (omega arith)
            (set_last-Represents c is_ready.names ready (published now m) (h.lists ready) h))
