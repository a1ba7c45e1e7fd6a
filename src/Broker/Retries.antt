-- ===== src/Broker/Retries.antt =====
-- src/system/broker.ts: where the messages go that are settled.
use redis_smq.Prelude.{Text, ℕ, some, [], ◌∷◌, ◌≡◌}
use redis_smq.Message.{Message}
use redis_smq.Keys.Names.{queue_keys, get_global_keys}
use redis_smq.Redis.Value.{Value}
use redis_smq.Redis.Keyspace.{Keyspace}
use redis_smq.Redis.Client.{Version}
use redis_smq.Redis.Program.{done, exec}
use redis_smq.Redis.Server.{on_server, Server, IsReliable, result, content}
use redis_smq.Redis.Scripts.Moves.{IsListKey}
use redis_smq.Handlers.Processing.Settling.{
  HasNames, processing_key, moved_to_end, moved_to_head, exec-acknowledge, exec-dead_letter_message,
  exec-delay_before_requeue, exec-requeue,
}
use redis_smq.Broker.{
  Broker, Route, dead_letter, delay_before_requeuing, requeue_at_once, UnacknowledgedCause, route,
  follow, retry, acknowledge_message,
}

-- The database after the only message of a processing queue has gone where a route says: to the end
-- of the queue's dead-letter list, or to the head of the delay or the requeue list.
abbrev pub routed : Text → Text → Text → Route → Value → Keyspace → Keyspace
routed namespace name id (dead_letter c) v s =
    moved_to_end (processing_key namespace name id) (queue_keys namespace name).key_queue_dl v s
routed namespace name id delay_before_requeuing v s =
    moved_to_head (processing_key namespace name id) get_global_keys.key_queue_delay v s
routed namespace name id requeue_at_once v s =
    moved_to_head (processing_key namespace name id) get_global_keys.key_queue_requeue v s

module _ (s : Keyspace) (b : Broker) (version : Version) (connected : b.version ≡ some version)
    (name id : Text) (names : HasNames b.namespace name id) (v : Value)
    (only : s.lists (processing_key b.namespace name id) ≡ v ∷ [])
    (is_list : IsListKey (processing_key b.namespace name id) s) where
  pub exec-follow :
      (r : Route)
      → exec (follow b name (processing_key b.namespace name id) r) s
        ≡ (done tt, routed b.namespace name id r v s)
  unfolding follow
  exec-follow (dead_letter c) =
      rw connected (exec-dead_letter_message b.namespace name id names s v only version is_list)
  exec-follow delay_before_requeuing = exec-delay_before_requeue b.namespace name id names s v only
  exec-follow requeue_at_once = exec-requeue b.namespace name id names s v only

  pub exec-acknowledge_message :
      exec (acknowledge_message b name (processing_key b.namespace name id)) s ≡ (
        done tt,
        moved_to_end
            (processing_key b.namespace name id)
            (queue_keys b.namespace name).key_queue_acknowledged_messages
            v
            s,
      )
  unfolding acknowledge_message
  exec-acknowledge_message =
      rw connected (exec-acknowledge b.namespace name id names s v only version is_list)

module _ (S : Server) (reliable : IsReliable S) (d : S.Db) (b : Broker) (version : Version)
    (connected : b.version ≡ some version) (name id : Text) (names : HasNames b.namespace name id)
    (v : Value) (only : (S.view d).lists (processing_key b.namespace name id) ≡ v ∷ [])
    (is_list : IsListKey (processing_key b.namespace name id) (S.view d)) where
  -- On a reliable server of a known version, for names that do not hold the separator, and where the
  -- consumer's processing queue is a list of one message: `retry` succeeds, and the only change is
  -- that the message leaves the processing queue for the queue that the route of the decision says.
  pub retry_lem :
      (now : ℕ) (m : Message) (cause : UnacknowledgedCause)
      → (result S (retry b now name (processing_key b.namespace name id) m cause) d ≡ done tt)
        × (content S (retry b now name (processing_key b.namespace name id) m cause) d
            ≡ routed b.namespace name id (route now m cause) v (S.view d))
  unfolding retry
  retry_lem now m cause =
      on_server S reliable _ d (
        exec-follow (S.view d) b version connected name id names v only is_list (route now m cause))

  -- Under the same conditions `acknowledgeMessage` succeeds, and the only change is that the message
  -- leaves the processing queue for the end of the queue's list of acknowledged messages.
  acknowledge_message_lem :
      (result S (acknowledge_message b name (processing_key b.namespace name id)) d ≡ done tt)
      × (content S (acknowledge_message b name (processing_key b.namespace name id)) d
          ≡ moved_to_end
              (processing_key b.namespace name id)
              (queue_keys b.namespace name).key_queue_acknowledged_messages
              v
              (S.view d))
  acknowledge_message_lem =
      on_server S reliable _ d
        (exec-acknowledge_message (S.view d) b version connected name id names v only is_list)
