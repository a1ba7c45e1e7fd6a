-- ===== src/Handlers/Requeue/Requeued.antt =====
-- src/system/message-manager/handlers/requeue.handler.ts: a message that is asked for by its place and
-- its id.
use redis_smq.Prelude.{
  Text, ℕ, Bool, false, Option, none, some, List, [], ◌∷◌, ◌≡◌, refl, ap, ◌∙◌, get_elem?,
}
use redis_smq.Errors.{Result, ok, message_not_found_error}
use redis_smq.Message.{Message, reset, set_queue, set_published_at}
use redis_smq.Message.Anew.{anew}
use redis_smq.Keys.{or_namespace}
use redis_smq.Keys.Names.{queue_keys}
use redis_smq.Redis.Value.{Value, create_from_message}
use redis_smq.Redis.Keyspace.{Keyspace}
use redis_smq.Redis.Command.{Command}
use redis_smq.Redis.Client.{exec_multi}
use redis_smq.Redis.Program
use redis_smq.Redis.Program.{
  Program, Outcome, done, failed, exec, exec-bind, continue, effects, request_effect, request_reply,
  request_blocks, lift,
}
use redis_smq.Redis.Server.{on_server, Server, IsReliable, result, content}
use redis_smq.Handlers.Common.Lookup.{
  at_index, IsElsewhere, exec-get_list_message, found, elsewhere,
}
use redis_smq.Handlers.Common.{get_list_message_at_sequence_id, message_of_reply}
use redis_smq.Handlers.Enqueue.{enqueue_multi}
use redis_smq.Handlers.Requeue.{requeue_list_message, requeue_commands}

-- The message as it is enqueued again.
abbrev pub requeued : ℕ → Text → Text → Message → Message
requeued now ns name m = anew now ns name m

abbrev pub moves : ℕ → Text → Text → Text → Message → List Command
moves now ns name from m =
    Command.lrem from (Value.message m)
    ∷ Command.rpush (queue_keys ns name).key_queue (Value.message (requeued now ns name m))
    ∷ []

pub requeue_commands_lem :
    (now : ℕ) (ns name from : Text) (m : Message)
    → requeue_commands now ns name from false none m ≡ ok (moves now ns name from m)
unfolding requeue_commands create_from_message enqueue_multi reset set_queue set_published_at
requeue_commands_lem now ns name from m = refl

module _ (namespace : Text) (fresh : Message) (now : ℕ) (name : Text) (ns : Option Text)
    (from : Text) (i : ℕ) (message_id : Text) (s : Keyspace) where
  abbrev then_requeue : Bool → Option ℕ → Message → Program (Unit {0})
  then_requeue with_priority priority m =
      Program.◌>>=◌
        (lift (requeue_commands now (or_namespace ns namespace) name from with_priority priority m))
        exec_multi

  pub exec-requeue_list_message :
      (with_priority : Bool) (priority : Option ℕ) {o : Option Value} {r : Result Message}
      → get_elem? (s.lists from) i ≡ o
      → message_of_reply fresh
          (at_index o)
          message_id
          (message_not_found_error message_id name (or_namespace ns namespace) i)
        ≡ r
      → exec
          (requeue_list_message namespace fresh now name ns from i message_id with_priority
            priority)
          s
        ≡ continue (exec (lift r) s) (then_requeue with_priority priority)
  unfolding requeue_list_message
  exec-requeue_list_message with_priority priority e f =
      exec-bind (then_requeue with_priority priority)
        (get_list_message_at_sequence_id fresh from i message_id name (or_namespace ns namespace)) s
      ∙ ap (λ x. continue x (then_requeue with_priority priority))
          (exec-get_list_message fresh from i message_id name (or_namespace ns namespace) s e f)

  pub exec-found :
      (m : Message)
      → get_elem? (s.lists from) i ≡ some (Value.message m)
      → m.uuid ≡ message_id
      → exec (requeue_list_message namespace fresh now name ns from i message_id false none) s
        ≡ (done tt, effects (moves now (or_namespace ns namespace) name from m) s)
  unfolding exec request_effect request_reply request_blocks effects
  exec-found m e same =
      exec-requeue_list_message false none e
        (found fresh from i message_id name (or_namespace ns namespace) s m same)
      ∙ ap (λ r. exec (Program.◌>>=◌ (lift r) exec_multi) s)
          (requeue_commands_lem now (or_namespace ns namespace) name from m)

  exec-elsewhere :
      (with_priority : Bool) (priority : Option ℕ) (o : Option Value)
      → get_elem? (s.lists from) i ≡ o
      → IsElsewhere o message_id
      → exec
          (requeue_list_message namespace fresh now name ns from i message_id with_priority
            priority)
          s
        ≡ (failed (message_not_found_error message_id name (or_namespace ns namespace) i), s)
  unfolding exec
  exec-elsewhere with_priority priority o e h =
      exec-requeue_list_message with_priority priority e
        (elsewhere fresh from i message_id name (or_namespace ns namespace) s o h)

-- On a reliable server, where nothing stands at the given index of a list, or a message with another
-- id: requeuing fails with the error that the message is not found, and changes nothing, with
-- priority or without.
requeue_list_message-elsewhere :
    (S : Server) (reliable : IsReliable S) (d : S.Db) (namespace : Text) (fresh : Message) (now : ℕ)
    (name : Text) (ns : Option Text) (from : Text) (i : ℕ) (message_id : Text)
    (with_priority : Bool) (priority : Option ℕ) (o : Option Value)
    → get_elem? ((S.view d).lists from) i ≡ o
    → IsElsewhere o message_id
    → (result S
          (requeue_list_message namespace fresh now name ns from i message_id with_priority
            priority)
          d
        ≡ failed (message_not_found_error message_id name (or_namespace ns namespace) i))
      × (content S
            (requeue_list_message namespace fresh now name ns from i message_id with_priority
              priority)
            d
          ≡ S.view d)
requeue_list_message-elsewhere S reliable d namespace fresh now name ns from i message_id
      with_priority priority o e h =
    on_server S reliable _ d (
      exec-elsewhere namespace fresh now name ns from i message_id (S.view d) with_priority priority
        o e h)
