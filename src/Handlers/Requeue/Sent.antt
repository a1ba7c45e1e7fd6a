-- ===== src/Handlers/Requeue/Sent.antt =====
-- src/system/message-manager/handlers/requeue.handler.ts: the requests by which a message is requeued.
use redis_smq.Prelude.{Text, ℕ, Bool, Option, some, List, [], ◌∷◌, ◌≡◌, refl, ap, ◌∙◌, get_elem?}
use redis_smq.Errors.{Result, ok, err, message_not_found_error}
use redis_smq.Message.{Message}
use redis_smq.Keys.{or_namespace}
use redis_smq.Redis.Value.{Value}
use redis_smq.Redis.Keyspace.{Keyspace}
use redis_smq.Redis.Command.{Command, reply, effect, blocks}
use redis_smq.Redis.Client.{exec_multi}
use redis_smq.Redis.Program
use redis_smq.Redis.Program.{
  Program, Request, single, transaction, lift, request_effect, request_reply, request_blocks,
}
use redis_smq.Redis.Requests.{sent}
use redis_smq.Handlers.Common.{get_list_message_at_sequence_id, message_of_reply}
use redis_smq.Handlers.Common.Lookup.{at_index, slice_one, found}
use redis_smq.Handlers.Requeue.{requeue_list_message, requeue_commands}

-- One transaction, if there are commands for it.
abbrev pub transaction_of : Result (List Command) → List Request
transaction_of (ok cs) = transaction cs ∷ []
transaction_of (err e) = []

sent-exec_multi :
    (r : Result (List Command)) (s : Keyspace)
    → sent (Program.◌>>=◌ (lift r) exec_multi) s ≡ transaction_of r
unfolding sent request_blocks request_reply
sent-exec_multi (ok cs) s = refl
sent-exec_multi (err e) s = refl

module _ (namespace : Text) (fresh : Message) (now : ℕ) (name : Text) (ns : Option Text)
    (from : Text) (i : ℕ) (message_id : Text) (s : Keyspace) (m : Message)
    (e : get_elem? (s.lists from) i ≡ some (Value.message m)) (same : m.uuid ≡ message_id)
    (with_priority : Bool) (priority : Option ℕ) where
  abbrev commands : Message → Result (List Command)
  commands = requeue_commands now (or_namespace ns namespace) name from with_priority priority

  abbrev after_reply : List Value → List Request
  after_reply l =
      single (Command.lrange from i i)
      ∷ sent
          (Program.◌>>=◌
            (lift (
              message_of_reply fresh l message_id
                (message_not_found_error message_id name (or_namespace ns namespace) i)))
            (λ msg. Program.◌>>=◌ (lift (commands msg)) exec_multi))
          s

  pub sent-requeue_list_message :
      {r : Result (List Command)}
      → commands m ≡ r
      → sent
          (requeue_list_message namespace fresh now name ns from i message_id with_priority
            priority)
          s
        ≡ single (Command.lrange from i i) ∷ transaction_of r
  unfolding requeue_list_message get_list_message_at_sequence_id sent request_effect request_reply
      request_blocks reply effect blocks
  sent-requeue_list_message {r} f =
      ap after_reply (slice_one i (s.lists from) ∙ ap at_index e)
      ∙ ap
          (λ o.
            single (Command.lrange from i i)
            ∷ sent (Program.◌>>=◌ (lift o) (λ msg. Program.◌>>=◌ (lift (commands msg)) exec_multi))
                s)
          (found fresh from i message_id name (or_namespace ns namespace) s m same)
      ∙ ap (λ rs. single (Command.lrange from i i) ∷ rs)
          (sent-exec_multi (commands m) s ∙ ap transaction_of f)
