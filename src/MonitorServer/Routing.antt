-- ===== src/MonitorServer/Routing.antt =====
-- src/monitor-server/lib/routing.ts, and the middlewares under src/monitor-server/middlewares. The
-- matching of a request's path is that of @koa/router; a request comes with what it read from it.
use redis_smq.Prelude.{Text, codes, Option, none, some, List, [], ◌∷◌, ◌++◌}
use redis_smq.Redis.Program.{Program, pure, raise, wait, send, ◌>>=◌}
use redis_smq.MonitorServer.Dto.{
  ClassConstructor, Plain, Data, ValidationError, data_body, error_body, Response, Validated, valid,
  invalid, validate_dto,
}
use redis_smq.MonitorServer.Services.{Application}

-- `ERouteControllerActionPayload`
pub data Payload : Type 0 where
  query body path : Payload

-- `ERouteControllerActionMethod`
pub data Method : Type 0 where
  get post delete : Method

-- What is read of koa's context: the request's parameters of the path and of the query, and `body`,
-- which is that of the response.
pub record Context : Type 0 where
  pub params : Plain
  pub query : Plain
  pub body : Plain

-- `TRouteControllerAction`
pub record Action : Type 1 where
  pub Dto : Type 0
  pub path : Text
  pub method : Method
  pub payload : List Payload
  pub handler : Application → Dto → Program (Option Data)
  pub request_dto : ClassConstructor Plain Dto
  pub response_dto : ClassConstructor Response Response

-- `TRouteController`
pub record Controller : Type 1 where
  pub prefix : Text
  pub actions : List Action

abbrev pub plain_of : Payload → Context → Plain
plain_of Payload.path ctx = ctx.params
plain_of Payload.query ctx = ctx.query
plain_of Payload.body ctx = ctx.body

-- `{ ...plain, ...more }`: of a field that is there twice the later one is read.
unfoldable pub collect : List Payload → Context → Plain → Plain
collect [] ctx plain = plain
collect (p ∷ ps) ctx plain = collect ps ctx (plain ++ plain_of p ctx)

unfoldable pub request_validator :
    {D : Type 0} → ClassConstructor Plain D → List Payload → Context → Validated D
unfolding validate_dto collect
request_validator dto payload ctx = validate_dto dto (collect payload ctx [])

-- The action's own middleware, by what its handler answers.
unfoldable pub respond : Option Data → Response
respond (some d) = record { status = 200; body = some (data_body d) }
respond none = record { status = 204; body = none }

unfoldable pub response_validator :
    ClassConstructor Response Response → Response → Validated Response
unfolding validate_dto
response_validator dto response = validate_dto dto response

abbrev pub after_validation :
    {D : Type 0}
    → (D → Program (Option Data))
    → ClassConstructor Response Response
    → Validated D
    → Program (Validated Response)
after_validation handler dto (invalid e) = pure (invalid e)
after_validation handler dto (valid d) = do
  answer ← handler d
  pure (response_validator dto (respond answer))

-- `getActionRouter`: the middlewares of an action, one after the other.
unfoldable pub action_router : Action → Application → Context → Program (Validated Response)
unfolding request_validator
action_router action app ctx =
    after_validation (action.handler app) action.response_dto
      (request_validator action.request_dto action.payload ctx)

-- The answers of `errorHandler`; what it logs is left out.
abbrev pub validation_response : ValidationError → Response
validation_response e = record {
  status = 422;
  body = some (error_body 422 (codes "Validation error") (some e));
}

abbrev pub error_response : Response
error_response = record {
  status = 500;
  body = some (error_body 500 (codes "Internal server error") none);
}

abbrev pub after_next : Validated Response → Response
after_next (valid response) = response
after_next (invalid e) = validation_response e

unfoldable pub error_handler : Program (Validated Response) → Program Response
error_handler (pure v) = pure (after_next v)
error_handler (raise e) = pure error_response
error_handler wait = wait
error_handler (send r k) = send r (λ x. error_handler (k x))

-- A request that @koa/router takes to an action.
unfoldable pub serve : Action → Application → Context → Program Response
unfolding error_handler action_router
serve action app ctx = error_handler (action_router action app ctx)

-- A route of the application: its method, its path and its action.
pub record Route : Type 1 where
  pub method : Method
  pub path : Text
  pub action : Action

-- `join` is how @koa/router puts a prefix before a path.
module _ (join : Text → Text → Text) where
  abbrev pub action_route : Text → Text → Action → Route
  action_route prefix controller action = record {
    method = action.method;
    path = join prefix (join controller action.path);
    action = action;
  }

  unfoldable pub get_controller_router : Text → Text → List Action → List Route
  get_controller_router prefix controller [] = []
  get_controller_router prefix controller (a ∷ actions) =
      action_route prefix controller a ∷ get_controller_router prefix controller actions

  unfoldable pub get_application_router : Text → List Controller → List Route
  unfolding get_controller_router
  get_application_router prefix [] = []
  get_application_router prefix (c ∷ controllers) =
      get_controller_router prefix c.prefix c.actions ++ get_application_router prefix controllers
