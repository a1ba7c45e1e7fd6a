-- ===== src/MonitorServer/Controllers/Messages.antt =====
-- src/monitor-server/controllers/messages/index.ts
use redis_smq.Prelude.{codes, [], ◌∷◌}
use redis_smq.MonitorServer.Dto.{
  Classes, GetMessagesRequest, DeleteMessageRequest, DeletePendingMessageWithPriorityRequest,
  PurgeQueueRequest, RequeueMessageRequest,
}
use redis_smq.MonitorServer.Routing.{Payload, get, post, delete, Action, Controller}
use redis_smq.MonitorServer.Handlers.{
  get_pending_messages_handler, get_acknowledged_messages_handler,
  get_pending_messages_with_priority_handler, get_dead_lettered_messages_handler,
  delete_pending_message_handler, delete_acknowledged_message_handler,
  delete_pending_message_with_priority_handler, delete_dead_lettered_message_handler,
  purge_pending_messages_handler, purge_acknowledged_messages_handler,
  purge_priority_messages_handler, purge_dead_lettered_messages_handler,
  requeue_dead_lettered_message_handler, requeue_acknowledged_message_handler,
}

abbrev pub get_pending_messages : Classes → Action
get_pending_messages classes = record {
  Dto = GetMessagesRequest;
  path = codes "/pending-messages";
  method = get;
  payload = Payload.path ∷ Payload.query ∷ [];
  handler = get_pending_messages_handler;
  request_dto = classes.get_messages_request;
  response_dto = classes.get_messages_response;
}

abbrev pub get_acknowledged_messages : Classes → Action
get_acknowledged_messages classes = record {
  Dto = GetMessagesRequest;
  path = codes "/acknowledged-messages";
  method = get;
  payload = Payload.path ∷ Payload.query ∷ [];
  handler = get_acknowledged_messages_handler;
  request_dto = classes.get_messages_request;
  response_dto = classes.get_messages_response;
}

abbrev pub get_pending_messages_with_priority : Classes → Action
get_pending_messages_with_priority classes = record {
  Dto = GetMessagesRequest;
  path = codes "/pending-messages-with-priority";
  method = get;
  payload = Payload.path ∷ Payload.query ∷ [];
  handler = get_pending_messages_with_priority_handler;
  request_dto = classes.get_messages_request;
  response_dto = classes.get_messages_by_id_response;
}

abbrev pub get_dead_lettered_messages : Classes → Action
get_dead_lettered_messages classes = record {
  Dto = GetMessagesRequest;
  path = codes "/dead-lettered-messages";
  method = get;
  payload = Payload.path ∷ Payload.query ∷ [];
  handler = get_dead_lettered_messages_handler;
  request_dto = classes.get_messages_request;
  response_dto = classes.get_messages_response;
}

abbrev pub delete_pending_message : Classes → Action
delete_pending_message classes = record {
  Dto = DeleteMessageRequest;
  path = codes "/pending-messages/:id";
  method = delete;
  payload = Payload.path ∷ Payload.query ∷ [];
  handler = delete_pending_message_handler;
  request_dto = classes.delete_message_request;
  response_dto = classes.no_content_response;
}

abbrev pub delete_acknowledged_message : Classes → Action
delete_acknowledged_message classes = record {
  Dto = DeleteMessageRequest;
  path = codes "/acknowledged-messages/:id";
  method = delete;
  payload = Payload.path ∷ Payload.query ∷ [];
  handler = delete_acknowledged_message_handler;
  request_dto = classes.delete_message_request;
  response_dto = classes.no_content_response;
}

abbrev pub delete_pending_message_with_priority : Classes → Action
delete_pending_message_with_priority classes = record {
  Dto = DeletePendingMessageWithPriorityRequest;
  path = codes "/pending-messages-with-priority/:id";
  method = delete;
  payload = Payload.path ∷ Payload.query ∷ [];
  handler = delete_pending_message_with_priority_handler;
  request_dto = classes.delete_pending_message_with_priority_request;
  response_dto = classes.no_content_response;
}

abbrev pub delete_dead_lettered_message : Classes → Action
delete_dead_lettered_message classes = record {
  Dto = DeleteMessageRequest;
  path = codes "/dead-lettered-messages/:id";
  method = delete;
  payload = Payload.path ∷ Payload.query ∷ [];
  handler = delete_dead_lettered_message_handler;
  request_dto = classes.delete_message_request;
  response_dto = classes.no_content_response;
}

abbrev pub purge_pending_messages : Classes → Action
purge_pending_messages classes = record {
  Dto = PurgeQueueRequest;
  path = codes "/pending-messages";
  method = delete;
  payload = Payload.path ∷ Payload.query ∷ [];
  handler = purge_pending_messages_handler;
  request_dto = classes.purge_queue_request;
  response_dto = classes.no_content_response;
}

abbrev pub purge_acknowledged_messages : Classes → Action
purge_acknowledged_messages classes = record {
  Dto = PurgeQueueRequest;
  path = codes "/acknowledged-messages";
  method = delete;
  payload = Payload.path ∷ Payload.query ∷ [];
  handler = purge_acknowledged_messages_handler;
  request_dto = classes.purge_queue_request;
  response_dto = classes.no_content_response;
}

abbrev pub purge_priority_messages : Classes → Action
purge_priority_messages classes = record {
  Dto = PurgeQueueRequest;
  path = codes "/pending-messages-with-priority";
  method = delete;
  payload = Payload.path ∷ Payload.query ∷ [];
  handler = purge_priority_messages_handler;
  request_dto = classes.purge_queue_request;
  response_dto = classes.no_content_response;
}

abbrev pub purge_dead_lettered_messages : Classes → Action
purge_dead_lettered_messages classes = record {
  Dto = PurgeQueueRequest;
  path = codes "/dead-lettered-messages";
  method = delete;
  payload = Payload.path ∷ Payload.query ∷ [];
  handler = purge_dead_lettered_messages_handler;
  request_dto = classes.purge_queue_request;
  response_dto = classes.no_content_response;
}

abbrev pub requeue_dead_lettered_message : Classes → Action
requeue_dead_lettered_message classes = record {
  Dto = RequeueMessageRequest;
  path = codes "/dead-lettered-messages/:id/requeue";
  method = post;
  payload = Payload.path ∷ Payload.query ∷ [];
  handler = requeue_dead_lettered_message_handler;
  request_dto = classes.requeue_message_request;
  response_dto = classes.no_content_response;
}

abbrev pub requeue_acknowledged_message : Classes → Action
requeue_acknowledged_message classes = record {
  Dto = RequeueMessageRequest;
  path = codes "/acknowledged-messages/:id/requeue";
  method = post;
  payload = Payload.path ∷ Payload.query ∷ [];
  handler = requeue_acknowledged_message_handler;
  request_dto = classes.requeue_message_request;
  response_dto = classes.no_content_response;
}

abbrev pub messages_controller : Classes → Controller
messages_controller classes = record {
  prefix = codes "/ns/:ns/queues/:queueName";
  actions =
      get_pending_messages classes
      ∷ get_acknowledged_messages classes
      ∷ get_pending_messages_with_priority classes
      ∷ get_dead_lettered_messages classes
      ∷ delete_pending_message classes
      ∷ delete_acknowledged_message classes
      ∷ delete_pending_message_with_priority classes
      ∷ delete_dead_lettered_message classes
      ∷ purge_pending_messages classes
      ∷ purge_acknowledged_messages classes
      ∷ purge_priority_messages classes
      ∷ purge_dead_lettered_messages classes
      ∷ requeue_dead_lettered_message classes
      ∷ requeue_acknowledged_message classes
      ∷ [];
}
