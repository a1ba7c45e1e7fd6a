-- ===== src/Workers/GcWorker/Online.antt =====
-- src/system/workers/gc.worker.ts: what a tick does with the processing queue of a consumer that has
-- written its heartbeat.
use redis_smq.Prelude.{
  Text, text_eq_refl, text_eq_ne, ℕ, Bool, true, Option, some, ◌∷◌, ◌≡◌, ◌≢◌, refl, arith, ◌≤◌, ◌+◌,
  ap, ◌∙◌, if◌then◌else◌,
}
use redis_smq.Message.{Message}
use redis_smq.Keys.Names.{get_global_keys, get_instance_keys}
use redis_smq.Keys.Extract.{extract_data-keys}
use redis_smq.Redis.Value.{Value}
use redis_smq.Redis.Keyspace.{Keyspace, find, put_field}
use redis_smq.Redis.Keyspace.Fields.{find-put_field}
use redis_smq.Redis.Command.{Command, effect, reply, blocks, value_reply}
use redis_smq.Redis.Client.{string_of}
use redis_smq.Redis.Program.{
  Program, done, exec, exec-bind, continue, request_effect, request_reply, request_blocks, ◌>>=◌,
  ◌>>◌, lift, pure,
}
use redis_smq.Redis.Server.{on_server, Server, IsReliable, result, content}
use redis_smq.Handlers.Processing.Settling.{processing_key, HasNames}
use redis_smq.Heartbeat
use redis_smq.Heartbeat.{is_alive, online_at, validate_online_timestamp}
use redis_smq.Workers.GcWorker.{
  GcWorker, owner_of, handle_owned, handle_processing_queue, handle_offline_consumer,
}

still_valid : (now at : ℕ) → now ≤ at + 10000 → validate_online_timestamp now at ≡ true
unfolding validate_online_timestamp
still_valid now at h = ground arith

abbrev pub heartbeat_key : Text → Text → Text → Text
heartbeat_key namespace name id = (get_instance_keys namespace name id).key_heartbeat

-- The database after the consumer's heartbeat.
abbrev pub alive : Text → Text → Text → ℕ → Keyspace → Keyspace
alive namespace name id at s =
    effect
      (Command.hset get_global_keys.key_index_heartbeats
        (Value.text (heartbeat_key namespace name id)) (Value.heartbeat at))
      s

exec-on_tick :
    (namespace name id : Text) (now : ℕ) (s : Keyspace)
    → exec (Heartbeat.on_tick namespace name id now) s ≡ (done tt, alive namespace name id now s)
unfolding Heartbeat.on_tick exec request_effect request_reply request_blocks blocks
exec-on_tick namespace name id now s = refl

-- The consumer writes its heartbeat at a time, and the garbage collector looks at its processing queue
-- at another one.
abbrev pub beat_then_collect : GcWorker → Message → ℕ → ℕ → Text → Text → Text → Program (Unit {0})
beat_then_collect w fresh at now ns name id =
    Heartbeat.on_tick ns name id at
    >> handle_processing_queue w fresh now (processing_key ns name id)

module _ (w : GcWorker) (fresh : Message) (at now : ℕ) (ns name : Text) (c : ℕ) (i : Text)
    (names : HasNames ns name (c ∷ i)) (other : w.consumer_id ≢ c ∷ i) where
  abbrev pub goes_on : Bool → Program (Unit {0})
  goes_on online =
      if online
      then pure tt
      else handle_offline_consumer w fresh now name (processing_key ns name (c ∷ i))

  handle_processing_queue_lem :
      handle_processing_queue w fresh now (processing_key ns name (c ∷ i))
      ≡ (is_alive w.broker.namespace now name (c ∷ i) >>= goes_on)
  unfolding handle_processing_queue
  handle_processing_queue_lem =
      ap (λ o. handle_owned w fresh now (processing_key ns name (c ∷ i)) (owner_of o))
        (extract_data-keys ns name (c ∷ i) names.namespace_ok names.name_ok names.id_ok).0
      ∙ rw (text_eq_ne w.consumer_id (c ∷ i) other) refl

  pub exec-is_alive :
      (s : Keyspace) {o : Option Value}
      → find
          (Value.text (heartbeat_key w.broker.namespace name (c ∷ i)))
          (s.hashes get_global_keys.key_index_heartbeats)
        ≡ o
      → exec (handle_processing_queue w fresh now (processing_key ns name (c ∷ i))) s
        ≡ exec (lift (online_at now (string_of (value_reply o))) >>= goes_on) s
  unfolding is_alive exec request_effect request_reply request_blocks effect reply blocks
  exec-is_alive s e =
      ap (λ p. exec p s) handle_processing_queue_lem
      ∙ ap (λ o. exec (lift (online_at now (string_of (value_reply o))) >>= goes_on) s) e

  pub exec-at_work :
      (s : Keyspace)
      → exec (beat_then_collect w fresh at now ns name (c ∷ i)) s
        ≡ exec
            (handle_processing_queue w fresh now (processing_key ns name (c ∷ i)))
            (alive ns name (c ∷ i) at s)
  exec-at_work s =
      exec-bind (λ _. handle_processing_queue w fresh now (processing_key ns name (c ∷ i)))
        (Heartbeat.on_tick ns name (c ∷ i) at) s
      ∙ ap
          (λ x.
            continue x (λ _. handle_processing_queue w fresh now (processing_key ns name (c ∷ i))))
          (exec-on_tick ns name (c ∷ i) at s)

  module _ (s : Keyspace) where
    pub written :
        (alive ns name (c ∷ i) at s).hashes get_global_keys.key_index_heartbeats
        ≡ put_field
            (Value.text (heartbeat_key ns name (c ∷ i)))
            (Value.heartbeat at)
            (s.hashes get_global_keys.key_index_heartbeats)
    unfolding effect
    written = simp (text_eq_refl)

    found_same :
        w.broker.namespace ≡ ns
        → find
            (Value.text (heartbeat_key w.broker.namespace name (c ∷ i)))
            ((alive ns name (c ∷ i) at s).hashes get_global_keys.key_index_heartbeats)
          ≡ some (Value.heartbeat at)
    found_same same =
        ap (find (Value.text (heartbeat_key w.broker.namespace name (c ∷ i)))) written
        ∙ ap
            (λ n. find (Value.text (heartbeat_key n name (c ∷ i))) (
              put_field (Value.text (heartbeat_key ns name (c ∷ i))) (Value.heartbeat at)
                (s.hashes get_global_keys.key_index_heartbeats)))
            same
        ∙ find-put_field _ _ _

    exec-same_namespace :
        w.broker.namespace ≡ ns
        → now ≤ at + 10000
        → exec (beat_then_collect w fresh at now ns name (c ∷ i)) s
          ≡ (done tt, alive ns name (c ∷ i) at s)
    unfolding exec
    exec-same_namespace same recent =
        exec-at_work s
        ∙ exec-is_alive (alive ns name (c ∷ i) at s) (found_same same)
        ∙ ap (λ b. exec (goes_on b) (alive ns name (c ∷ i) at s)) (still_valid now at recent)

-- A consumer of the garbage collector's own namespace, but not the one that started it, whose names
-- do not hold the separator and whose id is not empty, writes its heartbeat; at most ten seconds later
-- the garbage collector looks at its processing queue on a reliable server: it succeeds, and nothing
-- has changed but the heartbeat.
pub handle_processing_queue-alive :
    (S : Server) (reliable : IsReliable S) (d : S.Db) (w : GcWorker) (fresh : Message) (at now : ℕ)
    (ns name : Text) (c : ℕ) (i : Text)
    → HasNames ns name (c ∷ i)
    → w.consumer_id ≢ c ∷ i
    → w.broker.namespace ≡ ns
    → now ≤ at + 10000
    → (result S (beat_then_collect w fresh at now ns name (c ∷ i)) d ≡ done tt)
      × (content S (beat_then_collect w fresh at now ns name (c ∷ i)) d
          ≡ alive ns name (c ∷ i) at (S.view d))
handle_processing_queue-alive S reliable d w fresh at now ns name c i names other same recent =
    on_server S reliable _ d
      (exec-same_namespace w fresh at now ns name c i names other (S.view d) same recent)
