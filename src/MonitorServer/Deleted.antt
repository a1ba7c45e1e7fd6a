-- ===== src/MonitorServer/Deleted.antt =====
-- src/monitor-server: the requests that delete an acknowledged or a dead-lettered message.
use redis_smq.Prelude.{◌++◌, Text, none, some, ◌≡◌, refl, get_elem?, Option}
use redis_smq.Message.{Message}
use redis_smq.Errors.{Error}
use redis_smq.Keys.Names.{QueueKeys, queue_keys, get_global_keys}
use redis_smq.Redis.Value.{Value}
use redis_smq.Redis.Keyspace.{Keyspace, set_list, set_lock, remove_first}
use redis_smq.Redis.Program.{Program, done, failed}
use redis_smq.Redis.Server.{Server, IsReliable, result, content}
use redis_smq.Handlers.Common.{delete_list_message_at_sequence_id}
use redis_smq.Handlers.Common.Lookup.{IsElsewhere}
use redis_smq.Handlers.Common.Deletion.{delete_list_message-found, delete_list_message-elsewhere}
use redis_smq.Handlers.Processing.{delete_acknowledged_message, delete_dead_letter_message}
use redis_smq.MonitorServer.Dto.{Classes, DeleteMessageRequest, valid}
use redis_smq.MonitorServer.Services
use redis_smq.MonitorServer.Services.{Application}
use redis_smq.MonitorServer.Handlers
use redis_smq.MonitorServer.Routing.{Action, Context, serve}
use redis_smq.MonitorServer.Controllers.Messages
use redis_smq.MonitorServer.Expected.{Judged, no_content, internal_error}
use redis_smq.MonitorServer.Answers.{serve-done, serve-failed}

-- The two lists of messages that are done with.
pub data Settled : Type 0 where
  acknowledged dead_lettered : Settled

abbrev pub delete_action : Settled → Classes → Action
delete_action acknowledged classes = Messages.delete_acknowledged_message classes
delete_action dead_lettered classes = Messages.delete_dead_lettered_message classes

abbrev pub list_key : Settled → QueueKeys → Text
list_key acknowledged keys = keys.key_queue_acknowledged_messages
list_key dead_lettered keys = keys.key_queue_dl

abbrev pub lock_key : Settled → Text
lock_key acknowledged = get_global_keys.key_lock_delete_acknowledged_message
lock_key dead_lettered = get_global_keys.key_lock_delete_dead_letter_message

-- The list that a request is for.
abbrev pub list_for : Settled → DeleteMessageRequest → Text
list_for w dto = list_key w (queue_keys dto.ns dto.queue_name)

abbrev deletion : Settled → Application → DeleteMessageRequest → Program (Unit {0})
deletion w app dto =
    delete_list_message_at_sequence_id app.fresh app.me (lock_key w) (list_for w dto)
      dto.sequence_id dto.id dto.queue_name dto.ns

module _ (S : Server) (reliable : IsReliable S) (d : S.Db) (classes : Classes) (app : Application)
    (ctx : Context) (dto : DeleteMessageRequest)
    (is_valid : Judged classes.delete_message_request (ctx.params ++ ctx.query) (valid dto))
    {s : Keyspace} where
  serve-deletion_done :
      (w : Settled)
      → (result S (deletion w app dto) d ≡ done tt) × (content S (deletion w app dto) d ≡ s)
      → Judged classes.no_content_response no_content (valid no_content)
      → (result S (serve (delete_action w classes) app ctx) d ≡ done no_content)
        × (content S (serve (delete_action w classes) app ctx) d ≡ s)
  unfolding Handlers.delete_acknowledged_message_handler
      Handlers.delete_dead_lettered_message_handler Services.delete_acknowledged_message
      Services.delete_dead_lettered_message delete_acknowledged_message delete_dead_letter_message
  serve-deletion_done acknowledged h v =
      serve-done S reliable d (λ u. none) _ (Messages.delete_acknowledged_message classes) app ctx
        is_valid refl tt h v
  serve-deletion_done dead_lettered h v =
      serve-done S reliable d (λ u. none) _ (Messages.delete_dead_lettered_message classes) app ctx
        is_valid refl tt h v

  serve-deletion_fails :
      (w : Settled) {e : Error}
      → (result S (deletion w app dto) d ≡ failed e) × (content S (deletion w app dto) d ≡ s)
      → (result S (serve (delete_action w classes) app ctx) d ≡ done internal_error)
        × (content S (serve (delete_action w classes) app ctx) d ≡ s)
  unfolding Handlers.delete_acknowledged_message_handler
      Handlers.delete_dead_lettered_message_handler Services.delete_acknowledged_message
      Services.delete_dead_lettered_message delete_acknowledged_message delete_dead_letter_message
  serve-deletion_fails acknowledged h =
      serve-failed S reliable d (λ u. none) _ (Messages.delete_acknowledged_message classes) app ctx
        is_valid refl h
  serve-deletion_fails dead_lettered h =
      serve-failed S reliable d (λ u. none) _ (Messages.delete_dead_lettered_message classes) app
        ctx is_valid refl h

module _ (S : Server) (reliable : IsReliable S) (d : S.Db) (w : Settled) (classes : Classes)
    (app : Application) (ctx : Context) (dto : DeleteMessageRequest)
    (is_valid : Judged classes.delete_message_request (ctx.params ++ ctx.query) (valid dto))
    (free : (S.view d).locks (lock_key w) ≡ none) where
  -- On a reliable server, where nobody holds the lock: a valid request to delete the acknowledged or
  -- dead-lettered message that stands at the given index of its queue's list and has the given id is
  -- answered with status 204 and no body, provided that the validation takes this response; the
  -- first such message is out of the list, and the lock is free again.
  pub delete_request-found :
      (m : Message)
      → get_elem? ((S.view d).lists (list_for w dto)) dto.sequence_id ≡ some (Value.message m)
      → m.uuid ≡ dto.id
      → Judged classes.no_content_response no_content (valid no_content)
      → (result S (serve (delete_action w classes) app ctx) d ≡ done no_content)
        × (content S (serve (delete_action w classes) app ctx) d
            ≡ set_lock (lock_key w) none (
                set_list
                  (list_for w dto)
                  (remove_first (Value.message m) ((S.view d).lists (list_for w dto)))
                  (set_lock (lock_key w) (some app.me) (S.view d))))
  delete_request-found m e same v =
      serve-deletion_done S reliable d classes app ctx dto is_valid w
        (delete_list_message-found S reliable d app.fresh app.me (lock_key w) (list_for w dto)
          dto.sequence_id dto.id dto.queue_name dto.ns free m e same)
        v

  -- On a reliable server, where nobody holds the lock, and nothing stands at the given index of the
  -- queue's list, or a message with another id: a valid request to delete an acknowledged or
  -- dead-lettered message is answered with status 500 and the text of any internal error; nothing is
  -- deleted, and the lock is free again.
  pub delete_request-elsewhere :
      (o : Option Value)
      → get_elem? ((S.view d).lists (list_for w dto)) dto.sequence_id ≡ o
      → IsElsewhere o dto.id
      → (result S (serve (delete_action w classes) app ctx) d ≡ done internal_error)
        × (content S (serve (delete_action w classes) app ctx) d
            ≡ set_lock (lock_key w) none (set_lock (lock_key w) (some app.me) (S.view d)))
  delete_request-elsewhere o e h =
      serve-deletion_fails S reliable d classes app ctx dto is_valid w (
        delete_list_message-elsewhere S reliable d app.fresh app.me (lock_key w) (list_for w dto)
          dto.sequence_id dto.id dto.queue_name dto.ns free o e h)
