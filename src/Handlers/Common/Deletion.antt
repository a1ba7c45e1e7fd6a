-- ===== src/Handlers/Common/Deletion.antt =====
-- src/system/message-manager/common.ts: deleteListMessageAtSequenceId, under its lock.
use redis_smq.Prelude.{Text, text_eq_refl, ℕ, Option, none, some, ◌≡◌, ap, ◌∙◌, get_elem?}
use redis_smq.Errors.{ok, err, Result, message_not_found_error}
use redis_smq.Message.{Message}
use redis_smq.Redis.Value.{Value}
use redis_smq.Redis.Keyspace.{Keyspace, set_list, set_lock, remove_first}
use redis_smq.Redis.Command.{Command, effect, reply, blocks}
use redis_smq.Redis.Client.{command}
use redis_smq.Redis.Program.{
  Program, done, failed, exec, exec-bind, continue, request_effect, request_reply, request_blocks,
  lift, ◌>>=◌,
}
use redis_smq.Redis.Server.{Server, IsReliable, result, content}
use redis_smq.LockManager.Leases.{lock_fn-free}
use redis_smq.Handlers.Common.{
  get_list_message_at_sequence_id, delete_list_message_at_sequence_id, message_of_reply,
}
use redis_smq.Handlers.Common.Lookup.{
  at_index, IsElsewhere, exec-get_list_message, found, elsewhere,
}

module _ (fresh : Message) (from : Text) (i : ℕ) (message_id name ns : Text) (s : Keyspace) where
  abbrev remove : Message → Program (Unit {0})
  remove m = command (Command.lrem from (Value.message m))

  abbrev look_up_then_remove : Program (Unit {0})
  look_up_then_remove = get_list_message_at_sequence_id fresh from i message_id name ns >>= remove

  exec-remove :
      {o : Option Value} {r : Result Message}
      → get_elem? (s.lists from) i ≡ o
      → message_of_reply fresh
          (at_index o)
          message_id
          (message_not_found_error message_id name ns i)
        ≡ r
      → exec look_up_then_remove s ≡ continue (exec (lift r) s) remove
  exec-remove e f =
      exec-bind remove (get_list_message_at_sequence_id fresh from i message_id name ns) s
      ∙ ap (λ x. continue x remove) (exec-get_list_message fresh from i message_id name ns s e f)

  exec-remove_found :
      (m : Message)
      → get_elem? (s.lists from) i ≡ some (Value.message m)
      → m.uuid ≡ message_id
      → exec look_up_then_remove s
        ≡ (done tt, set_list from (remove_first (Value.message m) (s.lists from)) s)
  unfolding exec request_effect request_reply request_blocks effect reply blocks
  exec-remove_found m e same = exec-remove e (found fresh from i message_id name ns s m same)

  exec-remove_elsewhere :
      (o : Option Value)
      → get_elem? (s.lists from) i ≡ o
      → IsElsewhere o message_id
      → exec look_up_then_remove s ≡ (failed (message_not_found_error message_id name ns i), s)
  unfolding exec
  exec-remove_elsewhere o e h = exec-remove e (elsewhere fresh from i message_id name ns s o h)

module _ (S : Server) (reliable : IsReliable S) (d : S.Db) (fresh : Message)
    (me lock_key from : Text) (i : ℕ) (message_id name ns : Text)
    (free : (S.view d).locks lock_key ≡ none) where
  -- On a reliable server, where nobody holds the lock: a message that stands in the list at the given
  -- index and has the given id is deleted. The deletion succeeds, the first such message is out of the
  -- list, and the lock is free again.
  pub delete_list_message-found :
      (m : Message)
      → get_elem? ((S.view d).lists from) i ≡ some (Value.message m)
      → m.uuid ≡ message_id
      → (result S (delete_list_message_at_sequence_id fresh me lock_key from i message_id name ns) d
          ≡ done tt)
        × (content S
              (delete_list_message_at_sequence_id fresh me lock_key from i message_id name ns)
              d
            ≡ set_lock lock_key none (
                set_list from
                  (remove_first (Value.message m) ((S.view d).lists from))
                  (set_lock lock_key (some me) (S.view d))))
  unfolding delete_list_message_at_sequence_id
  delete_list_message-found m e same =
      lock_fn-free S reliable d me lock_key
        (look_up_then_remove fresh from i message_id name ns (S.view d)) _ (ok tt) free
        (exec-remove_found fresh from i message_id name ns (set_lock lock_key (some me) (S.view d))
          m e same)
        (simp (text_eq_refl))

  -- On a reliable server, where nobody holds the lock, and where nothing stands in the list at the
  -- given index, or a message with another id: the deletion fails with the error that the message is
  -- not found, nothing is deleted, and the lock is free again.
  pub delete_list_message-elsewhere :
      (o : Option Value)
      → get_elem? ((S.view d).lists from) i ≡ o
      → IsElsewhere o message_id
      → (result S (delete_list_message_at_sequence_id fresh me lock_key from i message_id name ns) d
          ≡ failed (message_not_found_error message_id name ns i))
        × (content S
              (delete_list_message_at_sequence_id fresh me lock_key from i message_id name ns)
              d
            ≡ set_lock lock_key none (set_lock lock_key (some me) (S.view d)))
  unfolding delete_list_message_at_sequence_id
  delete_list_message-elsewhere o e h =
      lock_fn-free S reliable d me lock_key
        (look_up_then_remove fresh from i message_id name ns (S.view d)) _
        (err (message_not_found_error message_id name ns i)) free
        (exec-remove_elsewhere fresh from i message_id name ns
          (set_lock lock_key (some me) (S.view d)) o e h)
        (simp (text_eq_refl))
