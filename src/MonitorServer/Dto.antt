-- ===== src/MonitorServer/Dto.antt =====
-- src/monitor-server/utils/validate-dto.ts, and the classes of the requests and of the responses
-- under src/monitor-server/controllers. What class-transformer and class-validator do by the
-- decorators of a class is a parameter. `skip`, `take` and the other integers are natural numbers.
use redis_smq.Prelude.{Text, ℕ, Option, List, [], ◌∷◌, ◌==◌, if◌then◌else◌}
use redis_smq.Message.{Message, MessageQueue}
use redis_smq.Handlers.Common.{Page}

pub record GetMessagesRequest : Type 0 where
  pub ns : Text
  pub queue_name : Text
  pub skip : Option ℕ
  pub take : Option ℕ

pub record GetScheduledMessagesRequest : Type 0 where
  pub skip : Option ℕ
  pub take : Option ℕ

pub record DeleteMessageRequest : Type 0 where
  pub ns : Text
  pub queue_name : Text
  pub id : Text
  pub sequence_id : ℕ

pub record DeletePendingMessageWithPriorityRequest : Type 0 where
  pub ns : Text
  pub queue_name : Text
  pub id : Text

pub record DeleteScheduledMessageRequest : Type 0 where
  pub id : Text

pub record PurgeQueueRequest : Type 0 where
  pub ns : Text
  pub queue_name : Text

pub record RequeueMessageRequest : Type 0 where
  pub ns : Text
  pub queue_name : Text
  pub id : Text
  pub sequence_id : ℕ
  pub priority : Option ℕ

-- `GetQueuesRequestDTO` and `PurgeScheduledMessagesRequestDTO`
pub data EmptyRequest : Type 0 where
  empty_request : EmptyRequest

-- What a handler answers: the queues, a page of a list, or a page of a sorted set.
pub data Data : Type 0 where
  queues : List MessageQueue → Data
  messages : Page (ℕ × Message) → Data
  messages_by_id : Page Message → Data

-- An error of class-validator, of which nothing is read, by some text.
pub data ValidationError : Type 0 where
  refused : Text → ValidationError

-- `IResponseBody`: the data, or the error (`IResponseBodyError`) by its code, its message and its
-- details, which are the validation error.
pub data Body : Type 0 where
  data_body : Data → Body
  error_body : ℕ → Text → Option ValidationError → Body

pub record Response : Type 0 where
  pub status : ℕ
  pub body : Option Body

-- The fields of a request by their names.
abbrev pub Plain : Type 0
Plain = List (Text × Text)

-- A class, by what the packages do with it: `plainToClass`, the number of the keys of an object, and
-- the errors that `validate` finds.
pub record ClassConstructor (P D : Type 0) : Type 0 where
  pub plain_to_class : P → D
  pub key_count : D → ℕ
  pub validate : D → List ValidationError

-- A value, or the validation error that is thrown.
pub data Validated (A : Type 0) : Type 0 where
  valid : A → Validated A
  invalid : ValidationError → Validated A

abbrev pub first_error : {D : Type 0} → D → List ValidationError → Validated D
first_error object [] = valid object
first_error object (e ∷ es) = invalid e

unfoldable pub validate_dto : {P D : Type 0} → ClassConstructor P D → P → Validated D
validate_dto dto plain =
    let object = dto.plain_to_class plain in
    if dto.key_count object == 0 then valid object else first_error object (dto.validate object)

-- The classes of the requests and of the responses, as the packages read them.
pub record Classes : Type 0 where
  pub get_messages_request : ClassConstructor Plain GetMessagesRequest
  pub get_scheduled_messages_request : ClassConstructor Plain GetScheduledMessagesRequest
  pub delete_message_request : ClassConstructor Plain DeleteMessageRequest
  pub delete_pending_message_with_priority_request :
      ClassConstructor Plain DeletePendingMessageWithPriorityRequest
  pub delete_scheduled_message_request : ClassConstructor Plain DeleteScheduledMessageRequest
  pub purge_queue_request : ClassConstructor Plain PurgeQueueRequest
  pub requeue_message_request : ClassConstructor Plain RequeueMessageRequest
  pub empty_request : ClassConstructor Plain EmptyRequest
  pub get_queues_response : ClassConstructor Response Response
  pub get_messages_response : ClassConstructor Response Response
  pub get_messages_by_id_response : ClassConstructor Response Response
  pub no_content_response : ClassConstructor Response Response
