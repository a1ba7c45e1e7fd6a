-- ===== src/Workers/GcWorker/Foreign.antt =====
-- src/system/workers/gc.worker.ts: what a tick does with the processing queue of a consumer of another
-- namespace.
use redis_smq.Prelude.{Text, text_eq_refl, ℕ, none, List, [], ◌∷◌, ◌≡◌, ◌≢◌, arith, ap, ◌∙◌, sym}
use redis_smq.Message.{Message}
use redis_smq.Keys.{RedisKey}
use redis_smq.Keys.Names.{get_global_keys, queue_keys}
use redis_smq.Keys.Parse.{NoBar}
use redis_smq.Keys.Distinct.{namespaced_key-number}
use redis_smq.Redis.Value.{Value}
use redis_smq.Redis.Keyspace.{Keyspace, slice, find, remove_first}
use redis_smq.Redis.Keyspace.Fields.{find-put_field_ne}
use redis_smq.Redis.Command.{Command, effect}
use redis_smq.Redis.Client.Reads.{exec-lrange}
use redis_smq.Redis.Program.{done, exec, effects, request_effect, request_reply, request_blocks}
use redis_smq.Redis.Server.{on_server, Server, IsReliable, result, content}
use redis_smq.Handlers.Processing.Settling.{to_global, processing_key, HasNames}
use redis_smq.QueueManager.{delete_processing_queue}
use redis_smq.Workers.GcWorker.{
  GcWorker, handle_offline_consumer, collect, destroy_processing_queue,
}
use redis_smq.Workers.GcWorker.Online.{
  beat_then_collect, heartbeat_key, alive, written, exec-at_work, exec-is_alive,
}

module _ (w : GcWorker) (fresh : Message) (now : ℕ) (ns name : Text) (c : ℕ) (i : Text)
    (names : HasNames ns name (c ∷ i)) (other : w.consumer_id ≢ c ∷ i) where
  heartbeat-ne :
      NoBar w.broker.namespace
      → w.broker.namespace ≢ ns
      → Value.text (heartbeat_key ns name (c ∷ i))
        ≢ Value.text (heartbeat_key w.broker.namespace name (c ∷ i))
  heartbeat-ne bar ne e = ne (
      sym
        (namespaced_key-number ns w.broker.namespace RedisKey.heartbeat RedisKey.heartbeat
          (name ∷ (c ∷ i) ∷ []) (name ∷ (c ∷ i) ∷ []) names.namespace_ok bar
          (names.name_ok, (names.id_ok, tt)) (names.name_ok, (names.id_ok, tt)) (cc e)).0)

  module _ (s : Keyspace) where
    module _ (bar : NoBar w.broker.namespace) (differs : w.broker.namespace ≢ ns)
        (unknown : find
            (Value.text (heartbeat_key w.broker.namespace name (c ∷ i)))
            (s.hashes get_global_keys.key_index_heartbeats)
          ≡ none)
        (idle : s.lists (processing_key ns name (c ∷ i)) ≡ []) where
      not_found :
          find
            (Value.text (heartbeat_key w.broker.namespace name (c ∷ i)))
            ((alive ns name (c ∷ i) now s).hashes get_global_keys.key_index_heartbeats)
          ≡ none
      not_found =
          ap (find (Value.text (heartbeat_key w.broker.namespace name (c ∷ i))))
            (written w fresh now now ns name c i names other s)
          ∙ find-put_field_ne _ _ _ _ (heartbeat-ne bar differs)
          ∙ unknown

      abbrev removals : List Command
      removals =
          Command.srem get_global_keys.key_index_processing_queues
            (Value.text (processing_key ns name (c ∷ i)))
          ∷ Command.hdel
              (queue_keys w.broker.namespace name).key_index_queue_message_processing_queues
              (Value.text (processing_key ns name (c ∷ i)) ∷ [])
          ∷ Command.del (processing_key ns name (c ∷ i))
          ∷ []

      still_idle :
          slice 0 0 ((alive ns name (c ∷ i) now s).lists (processing_key ns name (c ∷ i))) ≡ []
      unfolding effect
      still_idle = ap (slice 0 0) idle

      exec-offline :
          exec
            (handle_offline_consumer w fresh now name (processing_key ns name (c ∷ i)))
            (alive ns name (c ∷ i) now s)
          ≡ (done tt, effects removals (alive ns name (c ∷ i) now s))
      unfolding handle_offline_consumer destroy_processing_queue delete_processing_queue exec
          request_effect request_reply request_blocks effects
      exec-offline =
          exec-lrange (processing_key ns name (c ∷ i)) (alive ns name (c ∷ i) now s) 0 0
            (collect w fresh now name (processing_key ns name (c ∷ i)))
          ∙ ap
              (λ l.
                exec (collect w fresh now name (processing_key ns name (c ∷ i)) l)
                  (alive ns name (c ∷ i) now s))
              (still_idle)

      exec-other_namespace :
          exec (beat_then_collect w fresh now now ns name (c ∷ i)) s
          ≡ (done tt, effects removals (alive ns name (c ∷ i) now s))
      unfolding exec
      exec-other_namespace =
          exec-at_work w fresh now now ns name c i names other s
          ∙ exec-is_alive w fresh now now ns name c i names other (alive ns name (c ∷ i) now s)
              not_found
          ∙ exec-offline

      unlisted :
          (effects removals (alive ns name (c ∷ i) now s)).sets
            get_global_keys.key_index_processing_queues
          ≡ remove_first
              (Value.text (processing_key ns name (c ∷ i)))
              (s.sets get_global_keys.key_index_processing_queues)
      unfolding effects effect
      unlisted = simp (
        to_global ns name (c ∷ i) names RedisKey.index_processing_queues (omega arith),
        text_eq_refl,
      )

-- A consumer of another namespace than that of the garbage collector, with names that do not hold
-- the separator, writes its heartbeat, and its processing queue is empty; nobody of its name and id
-- has a heartbeat in the namespace of the garbage collector. Then the garbage collector looks at
-- its processing queue, on a reliable server: it succeeds, and takes the queue of the consumer that
-- is at work out of the index of the processing queues.
pub handle_processing_queue-other_namespace :
    (S : Server) (reliable : IsReliable S) (d : S.Db) (w : GcWorker) (fresh : Message) (now : ℕ)
    (ns name : Text) (c : ℕ) (i : Text)
    → HasNames ns name (c ∷ i)
    → w.consumer_id ≢ c ∷ i
    → NoBar w.broker.namespace
    → w.broker.namespace ≢ ns
    → find
        (Value.text (heartbeat_key w.broker.namespace name (c ∷ i)))
        ((S.view d).hashes get_global_keys.key_index_heartbeats)
      ≡ none
    → (S.view d).lists (processing_key ns name (c ∷ i)) ≡ []
    → (result S (beat_then_collect w fresh now now ns name (c ∷ i)) d ≡ done tt)
      × ((content S (beat_then_collect w fresh now now ns name (c ∷ i)) d).sets
            get_global_keys.key_index_processing_queues
          ≡ remove_first
              (Value.text (processing_key ns name (c ∷ i)))
              ((S.view d).sets get_global_keys.key_index_processing_queues))
handle_processing_queue-other_namespace S reliable d w fresh now ns name c i names other bar differs
      unknown idle =
    let ran = on_server S reliable _ d (
      exec-other_namespace w fresh now ns name c i names other (S.view d) bar differs unknown
        idle) in
    (
      ran.0,
      ap (λ t. t.sets get_global_keys.key_index_processing_queues) ran.1
          ∙ unlisted w fresh now ns name c i names other (S.view d) bar differs unknown idle,
    )
