-- ===== src/MonitorServer/Listed.antt =====
-- src/monitor-server: the requests for a page of the messages of a list.
use redis_smq.Prelude.{◌++◌, ℕ, Text, ◌<◌, some, List, ◌≡◌, refl}
use redis_smq.Message.{Message}
use redis_smq.Keys.Names.{QueueKeys, queue_keys}
use redis_smq.Redis.Keyspace.{Keyspace}
use redis_smq.Redis.Program.{Program, done}
use redis_smq.Redis.Server.{Server, IsReliable, result, content}
use redis_smq.Handlers.Common.{Page, get_paginated_list_messages}
use redis_smq.Handlers.Common.Pages.{texts, page, get_paginated_list_messages_lem}
use redis_smq.Handlers.Enqueue.{
  get_pending_messages, get_acknowledged_messages, get_dead_lettered_messages,
}
use redis_smq.MonitorServer.Dto.{Classes, GetMessagesRequest, messages, valid}
use redis_smq.MonitorServer.Services
use redis_smq.MonitorServer.Services.{Application, or_default}
use redis_smq.MonitorServer.Handlers
use redis_smq.MonitorServer.Routing.{Action, Context, serve}
use redis_smq.MonitorServer.Controllers.Messages
use redis_smq.MonitorServer.Expected.{Judged, with_data}
use redis_smq.MonitorServer.Answers.{serve-done}

-- The lists of a queue that are shown.
pub data Listed : Type 0 where
  pending acknowledged dead_lettered : Listed

abbrev pub get_action : Listed → Classes → Action
get_action pending classes = Messages.get_pending_messages classes
get_action acknowledged classes = Messages.get_acknowledged_messages classes
get_action dead_lettered classes = Messages.get_dead_lettered_messages classes

abbrev list_key : Listed → QueueKeys → Text
list_key pending keys = keys.key_queue
list_key acknowledged keys = keys.key_queue_acknowledged_messages
list_key dead_lettered keys = keys.key_queue_dl

-- The list that a request is for, and the page of it.
abbrev pub list_for : Listed → GetMessagesRequest → Text
list_for w dto = list_key w (queue_keys dto.ns dto.queue_name)

abbrev pub page_for : GetMessagesRequest → List Message → Page (ℕ × Message)
page_for dto ms = page (or_default 0 dto.skip) (or_default 1 dto.take) ms

abbrev listing : Listed → Application → GetMessagesRequest → Program (Page (ℕ × Message))
listing w app dto =
    get_paginated_list_messages app.fresh (list_for w dto) (or_default 0 dto.skip)
      (or_default 1 dto.take)

module _ (S : Server) (reliable : IsReliable S) (d : S.Db) (classes : Classes) (app : Application)
    (ctx : Context) (dto : GetMessagesRequest)
    (is_valid : Judged classes.get_messages_request (ctx.params ++ ctx.query) (valid dto)) where
  serve-listing :
      (w : Listed) {s : Keyspace} (p : Page (ℕ × Message))
      → (result S (listing w app dto) d ≡ done p) × (content S (listing w app dto) d ≡ s)
      → Judged classes.get_messages_response
          (with_data (messages p))
          (valid (with_data (messages p)))
      → (result S (serve (get_action w classes) app ctx) d ≡ done (with_data (messages p)))
        × (content S (serve (get_action w classes) app ctx) d ≡ s)
  unfolding Handlers.get_pending_messages_handler Handlers.get_acknowledged_messages_handler
      Handlers.get_dead_lettered_messages_handler Services.get_pending_messages
      Services.get_acknowledged_messages Services.get_dead_lettered_messages get_pending_messages
      get_acknowledged_messages get_dead_lettered_messages
  serve-listing pending p h v =
      serve-done S reliable d (λ q. some (messages q)) _ (Messages.get_pending_messages classes) app
        ctx is_valid refl p h v
  serve-listing acknowledged p h v =
      serve-done S reliable d (λ q. some (messages q)) _
        (Messages.get_acknowledged_messages classes) app ctx is_valid refl p h v
  serve-listing dead_lettered p h v =
      serve-done S reliable d (λ q. some (messages q)) _
        (Messages.get_dead_lettered_messages classes) app ctx is_valid refl p h v

  -- On a reliable server, where the key of a queue's pending, acknowledged or dead-lettered messages
  -- holds a list of messages: a valid request for them is answered with status 200 and the page from
  -- `skip` on, by default 0, of `take` messages, by default 1 and in any case not 0, provided that
  -- the validation takes this response; the page has the number of all messages, and each with its
  -- place in the list. The database is as it was.
  pub page_request_lem :
      (w : Listed) (ms : List Message)
      → 0 < or_default 1 dto.take
      → (S.view d).lists (list_for w dto) ≡ texts ms
      → Judged classes.get_messages_response
          (with_data (messages (page_for dto ms)))
          (valid (with_data (messages (page_for dto ms))))
      → (result S (serve (get_action w classes) app ctx) d
          ≡ done (with_data (messages (page_for dto ms))))
        × (content S (serve (get_action w classes) app ctx) d ≡ S.view d)
  page_request_lem w ms positive stored v =
      serve-listing w (page_for dto ms)
        (get_paginated_list_messages_lem S reliable d app.fresh (list_for w dto)
          (or_default 0 dto.skip) (or_default 1 dto.take) ms positive stored)
        v
