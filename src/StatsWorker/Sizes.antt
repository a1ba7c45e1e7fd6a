-- ===== src/StatsWorker/Sizes.antt =====
-- src/monitor-server/workers/stats.worker.ts: the sizes of the queues.
use redis_smq.Prelude.{
  Text, text_eq_refl, ℕ, true, Option, none, some, List, [], ◌∷◌, ◌++◌, ◌≡◌, refl, ap, ◌∙◌, length,
  Bool-cases, inl, inr, if◌then◌else◌,
}
use redis_smq.Message.{MessageQueue}
use redis_smq.Keys.{RedisKey, number, namespaced_key}
use redis_smq.Keys.Names.{queue_keys}
use redis_smq.Keys.Parse.{
  NoBar, extract_data, extract, Segments, get_segments, get_segments-namespaced_key,
}
use redis_smq.Redis.Keyspace.{Keyspace}
use redis_smq.Redis.Command.{effect, reply}
use redis_smq.Redis.Program.{counts}
use redis_smq.StatsWorker.{StatsQueue, at_queue, is_queue, new_queue}
use redis_smq.StatsWorker.Tick.{handle_size, all_commands}

-- The entry of a queue.
unfoldable pub queue_at : Text → Text → List StatsQueue → Option StatsQueue
queue_at ns name [] = none
queue_at ns name (q ∷ qs) =
    let rest = queue_at ns name qs in if is_queue ns name q then some q else rest

-- The four lengths of a queue in a database.
abbrev pub pending : Keyspace → Text → Text → ℕ
pending s ns name = length (s.lists (queue_keys ns name).key_queue)

abbrev pub prioritized : Keyspace → Text → Text → ℕ
prioritized s ns name = length (s.zsets (queue_keys ns name).key_queue_priority)

abbrev pub dead_lettered : Keyspace → Text → Text → ℕ
dead_lettered s ns name = length (s.lists (queue_keys ns name).key_queue_dl)

abbrev pub acknowledged : Keyspace → Text → Text → ℕ
acknowledged s ns name = length (s.lists (queue_keys ns name).key_queue_acknowledged_messages)

abbrev pub sizes_of : Keyspace → MessageQueue → List ℕ
sizes_of s q =
    pending s q.ns q.name
    ∷ prioritized s q.ns q.name
    ∷ dead_lettered s q.ns q.name
    ∷ acknowledged s q.ns q.name
    ∷ []

abbrev pub all_sizes : Keyspace → List MessageQueue → List ℕ
all_sizes s [] = []
all_sizes s (q ∷ qs) = sizes_of s q ++ all_sizes s qs

pub counts_lem :
    (s : Keyspace) (qs : List MessageQueue) → counts (all_commands qs) s ≡ all_sizes s qs
unfolding counts effect reply
counts_lem s [] = refl
counts_lem s (q ∷ qs) = ap (λ t. sizes_of s q ++ t) (counts_lem s qs)

-- What the four sizes of one queue do to the entries.
abbrev pub measured : Keyspace → MessageQueue → StatsQueue → StatsQueue
measured s q e = record e {
  pending_messages = pending s q.ns q.name;
  pending_messages_with_priority = prioritized s q.ns q.name;
  dead_lettered_messages = dead_lettered s q.ns q.name;
  acknowledged_messages = acknowledged s q.ns q.name;
}

abbrev pub HasNoBars : List MessageQueue → Type 0
HasNoBars [] = Unit
HasNoBars (q ∷ qs) = NoBar q.ns × NoBar q.name × HasNoBars qs

pub is_queue-new : (ns name : Text) → is_queue ns name (new_queue ns name) ≡ true
is_queue-new ns name = simp (text_eq_refl ns, text_eq_refl name)

module _ (ns name : Text) (f g : StatsQueue → StatsQueue)
    (keeps : (e : StatsQueue) → is_queue ns name (f e) ≡ is_queue ns name e) where
  pub at_queue_twice :
      (qs : List StatsQueue)
      → at_queue ns name g (at_queue ns name f qs) ≡ at_queue ns name (λ e. g (f e)) qs
  unfolding at_queue
  at_queue_twice [] = rw (keeps (new_queue ns name) ∙ is_queue-new ns name) refl
  at_queue_twice (q ∷ qs) = elim (Bool-cases (is_queue ns name q)) [
    | inl b ↦ rw b (rw (at_queue, keeps q ∙ b) refl)
    | inr b ↦ rw b (rw (at_queue, b) (ap (λ t. q ∷ t) (at_queue_twice qs)))
  ]

-- The size at a key of a queue goes to the entry of that queue.
module _ (q : MessageQueue) (ns_ok : NoBar q.ns) (name_ok : NoBar q.name) (size : ℕ)
    (es : List StatsQueue) where
  abbrev of_segments : Segments → List StatsQueue
  of_segments s = handle_size (extract s.ns s.type s.segments) size es

  key_segments :
      (t : RedisKey)
      → of_segments (get_segments (namespaced_key q.ns t (q.name ∷ [])))
        ≡ of_segments (record { ns = some q.ns; type = some (number t); segments = q.name ∷ [] })
  key_segments t =
      ap of_segments (get_segments-namespaced_key q.ns t (q.name ∷ []) ns_ok (name_ok, tt))

  pub handle_size-queue :
      handle_size (extract_data (queue_keys q.ns q.name).key_queue) size es
      ≡ at_queue q.ns q.name (λ e. record e { pending_messages = size }) es
  unfolding extract_data
  handle_size-queue = key_segments RedisKey.queue

  pub handle_size-priority :
      handle_size (extract_data (queue_keys q.ns q.name).key_queue_priority) size es
      ≡ at_queue q.ns q.name (λ e. record e { pending_messages_with_priority = size }) es
  unfolding extract_data
  handle_size-priority = key_segments RedisKey.queue_priority

  pub handle_size-dl :
      handle_size (extract_data (queue_keys q.ns q.name).key_queue_dl) size es
      ≡ at_queue q.ns q.name (λ e. record e { dead_lettered_messages = size }) es
  unfolding extract_data
  handle_size-dl = key_segments RedisKey.queue_dl

  pub handle_size-acknowledged :
      handle_size (extract_data (queue_keys q.ns q.name).key_queue_acknowledged_messages) size es
      ≡ at_queue q.ns q.name (λ e. record e { acknowledged_messages = size }) es
  unfolding extract_data
  handle_size-acknowledged = key_segments RedisKey.queue_acknowledged_messages
