-- ===== src/Handlers/Processing/Settling.antt =====
-- src/system/message-manager/handlers/processing.handler.ts: where the message in the processing queue
-- goes.
use redis_smq.Prelude.{
  Text, text_eq, text_eq_ne, false, some, List, [], ◌∷◌, ◌++◌, ◌≡◌, ◌≢◌, ap, ◌∙◌, arith,
}
use redis_smq.Keys.{global_namespace, RedisKey, number, namespaced_key}
use redis_smq.Keys.Names.{queue_keys, get_instance_keys, get_global_keys}
use redis_smq.Keys.Parse.{NoBar, AllNoBar}
use redis_smq.Keys.Distinct.{namespaced_key-number}
use redis_smq.Redis.Value.{Value}
use redis_smq.Redis.Keyspace.{Keyspace, set_list}
use redis_smq.Redis.Command.{Command, effect, reply, blocks}
use redis_smq.Redis.Scripts.Moves.{IsListKey}
use redis_smq.Redis.Client.{Version, lpoprpush, command}
use redis_smq.Redis.Client.Moves.{exec-lpoprpush}
use redis_smq.Redis.Program.{
  done, exec, exec-bind, continue, request_effect, request_reply, request_blocks, pure, ◌>>◌,
}
use redis_smq.Handlers.Processing.{acknowledge, dead_letter_message, delay_before_requeue, requeue}

-- The names of a consumer do not hold the separator.
pub record HasNames (namespace name id : Text) : Type 0 where
  pub namespace_ok : NoBar namespace
  pub name_ok : NoBar name
  pub id_ok : NoBar id

abbrev pub processing_key : Text → Text → Text → Text
processing_key namespace name id = (get_instance_keys namespace name id).key_queue_processing

module _ (namespace name id : Text) (names : HasNames namespace name id) where
  processing-ne :
      (ns : Text) (t : RedisKey) (segments : List Text)
      → NoBar ns
      → AllNoBar segments
      → number RedisKey.queue_processing ≢ number t
      → text_eq (processing_key namespace name id) (namespaced_key ns t segments) ≡ false
  processing-ne ns t segments h hs ne = text_eq_ne _ _ λ e.
      ne
        (namespaced_key-number namespace ns RedisKey.queue_processing t (name ∷ id ∷ []) segments
          names.namespace_ok h (names.name_ok, (names.id_ok, tt)) hs e).1

  pub to_queue :
      (t : RedisKey)
      → number RedisKey.queue_processing ≢ number t
      → text_eq (processing_key namespace name id) (namespaced_key namespace t (name ∷ [])) ≡ false
  to_queue t ne = processing-ne namespace t (name ∷ []) names.namespace_ok (names.name_ok, tt) ne

  pub to_global :
      (t : RedisKey)
      → number RedisKey.queue_processing ≢ number t
      → text_eq (processing_key namespace name id) (namespaced_key global_namespace t []) ≡ false
  to_global t ne = processing-ne global_namespace t [] (omega arith) tt ne

-- The only message of the list `from` goes to the end, or to the head, of another list.
abbrev pub moved_to_end : Text → Text → Value → Keyspace → Keyspace
moved_to_end from to v s = set_list to (s.lists to ++ v ∷ []) (set_list from [] s)

abbrev pub moved_to_head : Text → Text → Value → Keyspace → Keyspace
moved_to_head from to v s = set_list to (v ∷ s.lists to) (set_list from [] s)

module _ (a b : Text) (s : Keyspace) (v : Value) (only : s.lists a ≡ v ∷ [])
    (ne : text_eq a b ≡ false) where
  exec_move_first :
      (version : Version)
      → IsListKey a s
      → exec (lpoprpush (some version) a b >> pure tt) s ≡ (done tt, moved_to_end a b v s)
  unfolding exec
  exec_move_first version k =
      exec-bind (λ _. pure tt) (lpoprpush (some version) a b) s
      ∙ ap (λ t. continue t (λ _. pure tt)) (exec-lpoprpush version a b s k)
      ∙ simp (only, ne)

  exec_move_last : exec (command (Command.rpoplpush a b)) s ≡ (done tt, moved_to_head a b v s)
  unfolding exec request_effect request_reply request_blocks effect reply blocks
  exec_move_last = simp (only, ne)

module _ (namespace name id : Text) (names : HasNames namespace name id) (s : Keyspace) (v : Value)
    (only : s.lists (processing_key namespace name id) ≡ v ∷ []) where
  pub exec-acknowledge :
      (version : Version)
      → IsListKey (processing_key namespace name id) s
      → exec (acknowledge namespace (some version) name (processing_key namespace name id)) s ≡ (
        done tt,
        moved_to_end
            (processing_key namespace name id)
            (queue_keys namespace name).key_queue_acknowledged_messages
            v
            s,
      )
  unfolding acknowledge
  exec-acknowledge version k =
      exec_move_first _ _ s v only
        (to_queue namespace name id names RedisKey.queue_acknowledged_messages (omega arith))
        version k

  pub exec-dead_letter_message :
      (version : Version)
      → IsListKey (processing_key namespace name id) s
      → exec
          (dead_letter_message namespace (some version) name (processing_key namespace name id))
          s
        ≡ (
          done tt,
          moved_to_end
              (processing_key namespace name id)
              (queue_keys namespace name).key_queue_dl
              v
              s,
        )
  unfolding dead_letter_message
  exec-dead_letter_message version k =
      exec_move_first _ _ s v only
        (to_queue namespace name id names RedisKey.queue_dl (omega arith)) version k

  pub exec-delay_before_requeue :
      exec (delay_before_requeue (processing_key namespace name id)) s ≡ (
        done tt,
        moved_to_head (processing_key namespace name id) get_global_keys.key_queue_delay v s,
      )
  unfolding delay_before_requeue
  exec-delay_before_requeue =
      exec_move_last _ _ s v only
        (to_global namespace name id names RedisKey.queue_delay (omega arith))

  pub exec-requeue : exec (requeue (processing_key namespace name id)) s ≡ (
    done tt,
    moved_to_head (processing_key namespace name id) get_global_keys.key_queue_requeue v s,
  )
  unfolding requeue
  exec-requeue =
      exec_move_last _ _ s v only
        (to_global namespace name id names RedisKey.queue_requeue (omega arith))
