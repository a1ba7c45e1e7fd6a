-- ===== src/MonitorServer/Controllers.antt =====
-- src/monitor-server/controllers/queues/index.ts and src/monitor-server/controllers/scheduled-messages/index.ts,
-- and the routes of the application.
pub mod Messages
use redis_smq.Prelude.{Text, codes, List, [], ◌∷◌}
use redis_smq.MonitorServer.Dto.{
  Classes, GetScheduledMessagesRequest, DeleteScheduledMessageRequest, EmptyRequest,
}
use redis_smq.MonitorServer.Routing.{
  Payload, get, delete, Action, Controller, Route, get_application_router,
}
use redis_smq.MonitorServer.Handlers.{
  get_queues_handler, get_scheduled_messages_handler, delete_scheduled_message_handler,
  purge_scheduled_messages_handler,
}
use Messages.{messages_controller}

abbrev pub get_queues : Classes → Action
get_queues classes = record {
  Dto = EmptyRequest;
  path = codes "/";
  method = get;
  payload = [];
  handler = get_queues_handler;
  request_dto = classes.empty_request;
  response_dto = classes.get_queues_response;
}

abbrev pub queues_controller : Classes → Controller
queues_controller classes = record { prefix = codes "/queues"; actions = get_queues classes ∷ [] }

abbrev pub get_scheduled_messages : Classes → Action
get_scheduled_messages classes = record {
  Dto = GetScheduledMessagesRequest;
  path = codes "/";
  method = get;
  payload = Payload.query ∷ [];
  handler = get_scheduled_messages_handler;
  request_dto = classes.get_scheduled_messages_request;
  response_dto = classes.get_messages_by_id_response;
}

abbrev pub delete_scheduled_message : Classes → Action
delete_scheduled_message classes = record {
  Dto = DeleteScheduledMessageRequest;
  path = codes "/:id";
  method = delete;
  payload = Payload.path ∷ Payload.query ∷ [];
  handler = delete_scheduled_message_handler;
  request_dto = classes.delete_scheduled_message_request;
  response_dto = classes.no_content_response;
}

abbrev pub purge_scheduled_messages : Classes → Action
purge_scheduled_messages classes = record {
  Dto = EmptyRequest;
  path = codes "/";
  method = delete;
  payload = [];
  handler = purge_scheduled_messages_handler;
  request_dto = classes.empty_request;
  response_dto = classes.no_content_response;
}

abbrev pub scheduled_messages_controller : Classes → Controller
scheduled_messages_controller classes = record {
  prefix = codes "/scheduled-messages";
  actions =
      get_scheduled_messages classes
      ∷ delete_scheduled_message classes
      ∷ purge_scheduled_messages classes
      ∷ [];
}

-- The routes that `bootstrap` sets up.
unfoldable pub routes : (Text → Text → Text) → Classes → List Route
unfolding get_application_router
routes join classes = get_application_router join (codes "/api") (
    queues_controller classes
    ∷ messages_controller classes
    ∷ scheduled_messages_controller classes
    ∷ [])
