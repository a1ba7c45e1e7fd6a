-- ===== src/MonitorServer/Served.antt =====
-- src/monitor-server/lib/routing.ts and src/monitor-server/middlewares: what a request is answered, by
-- what its handler comes to.
use redis_smq.Prelude.{Bool, true, false, Option, none, some, ◌∷◌, ◌≡◌, refl, ap, ◌∙◌}
use redis_smq.Errors.{Error, err}
use redis_smq.Redis.Keyspace.{Keyspace}
use redis_smq.Redis.Program.{
  Program, Outcome, done, failed, waiting, pure, raise, wait, send, ◌>>=◌,
}
use redis_smq.Redis.Requests.{requests, same_rest, requests_then_pure}
use redis_smq.Redis.Server.{Server, run, result, content}
use redis_smq.MonitorServer.Dto.{ClassConstructor, Data, Response, Validated, valid, invalid}
use redis_smq.MonitorServer.Services.{Application}
use redis_smq.MonitorServer.Expected.{
  no_content, with_data, not_valid, internal_error, Judged, validate_dto-Judged, fields_for,
  request_validator-Judged,
}
use redis_smq.MonitorServer.Routing.{
  Action, Context, request_validator, response_validator, respond, after_validation, action_router,
  error_response, after_next, error_handler, serve,
}

-- The answer of the code to a request whose handler comes to an outcome.
abbrev pub answered : ClassConstructor Response Response → Outcome (Option Data) → Outcome Response
answered dto (done answer) = done (after_next (response_validator dto (respond answer)))
answered dto (failed e) = done error_response
answered dto waiting = waiting

-- The answer, by the verdict on each response.
abbrev judged_response : Validated Response → Response
judged_response (valid response) = response
judged_response (invalid e) = not_valid e

abbrev pub answer_for : (Response → Validated Response) → Outcome (Option Data) → Outcome Response
answer_for verdict (done none) = done (judged_response (verdict no_content))
answer_for verdict (done (some d)) = done (judged_response (verdict (with_data d)))
answer_for verdict (failed e) = done internal_error
answer_for verdict waiting = waiting

after_next-judged : (v : Validated Response) → after_next v ≡ judged_response v
after_next-judged (valid response) = refl
after_next-judged (invalid e) = refl

answered-answer_for :
    (dto : ClassConstructor Response Response) (verdict : Response → Validated Response)
    → ((r : Response) → Judged dto r (verdict r))
    → (o : Outcome (Option Data)) → answered dto o ≡ answer_for verdict o
unfolding respond response_validator
answered-answer_for dto verdict h (done none) =
    ap (λ v. done (after_next v)) (validate_dto-Judged dto no_content (h no_content))
    ∙ ap done (after_next-judged (verdict no_content))
answered-answer_for dto verdict h (done (some d)) =
    ap (λ v. done (after_next v)) (validate_dto-Judged dto (with_data d) (h (with_data d)))
    ∙ ap done (after_next-judged (verdict (with_data d)))
answered-answer_for dto verdict h (failed e) = refl
answered-answer_for dto verdict h waiting = refl

module _ (S : Server) (dto : ClassConstructor Response Response) where
  abbrev on_outcome : Outcome (Option Data) × S.Db → Outcome Response × S.Db
  on_outcome (o, d) = (answered dto o, d)

  blocks-on_outcome :
      (b : Bool) (d : S.Db) (x : Outcome (Option Data) × S.Db) (y : Outcome Response × S.Db)
      → y ≡ on_outcome x
      → elim b [ true ↦ (waiting, d) | false ↦ y ]
        ≡ on_outcome (elim b [ true ↦ (waiting, d) | false ↦ x ])
  blocks-on_outcome true d x y e = refl
  blocks-on_outcome false d x y e = e

  fault-on_outcome :
      (o : Option Error) (x : Outcome (Option Data) × S.Db) (y : Outcome Response × S.Db)
      (x' : Error → Outcome (Option Data) × S.Db) (y' : Error → Outcome Response × S.Db)
      → ((e : Error) → y' e ≡ on_outcome (x' e))
      → y ≡ on_outcome x
      → elim o [ some e ↦ y' e | none ↦ y ] ≡ on_outcome (elim o [ some e ↦ x' e | none ↦ x ])
  fault-on_outcome none x y x' y' refused went = went
  fault-on_outcome (some e) x y x' y' refused went = refused e

  run-error_handler :
      (p : Program (Option Data)) (d : S.Db)
      → run S (error_handler (p >>= λ a. pure (response_validator dto (respond a)))) d
        ≡ on_outcome (run S p d)
  unfolding run error_handler
  run-error_handler (pure a) d = refl
  run-error_handler (raise e) d = refl
  run-error_handler wait d = refl
  run-error_handler (send r k) d =
      fault-on_outcome (S.fault r d) _ _ _ _ (λ e. run-error_handler (k (err e)) d)
        (blocks-on_outcome (S.blocks r d) d _ _ (run-error_handler (k (S.answer r d)) (S.next r d)))

requests-error_handler :
    (S : Server) (p : Program (Validated Response)) (d : S.Db)
    → requests S (error_handler p) d ≡ requests S p d
unfolding requests error_handler
requests-error_handler S (pure v) d = refl
requests-error_handler S (raise e) d = refl
requests-error_handler S wait d = refl
requests-error_handler S (send r k) d =
    ap (λ rs. r ∷ rs)
      (same_rest (S.fault r d) (S.blocks r d) _ _ _ _ (λ e. requests-error_handler S (k (err e)) d)
        (requests-error_handler S (k (S.answer r d)) (S.next r d)))

module _ (S : Server) (d : S.Db) (action : Action) (app : Application) (ctx : Context) where
  run-serve :
      {v : Validated action.Dto}
      → request_validator action.request_dto action.payload ctx ≡ v
      → run S (serve action app ctx) d
        ≡ run S (error_handler (after_validation (action.handler app) action.response_dto v)) d
  unfolding serve action_router
  run-serve e =
      ap
        (λ v. run S (error_handler (after_validation (action.handler app) action.response_dto v)) d)
        e

  run-serve_valid :
      {dto : action.Dto}
      → request_validator action.request_dto action.payload ctx ≡ valid dto
      → run S (serve action app ctx) d
        ≡ on_outcome S action.response_dto (run S (action.handler app dto) d)
  run-serve_valid {dto} h =
      run-serve h ∙ run-error_handler S action.response_dto (action.handler app dto) d

  pub serve-answered :
      {dto : action.Dto}
      → Judged action.request_dto (fields_for action.payload ctx) (valid dto)
      → (result S (serve action app ctx) d
          ≡ answered action.response_dto (result S (action.handler app dto) d))
        × (content S (serve action app ctx) d ≡ content S (action.handler app dto) d)
  serve-answered j =
      let h = run-serve_valid (request_validator-Judged action.request_dto action.payload ctx j) in
      (ap (λ t. t.0) h, ap (λ t. S.view t.1) h)

  -- A valid request sends what its handler sends.
  pub requests-serve :
      {dto : action.Dto}
      → Judged action.request_dto (fields_for action.payload ctx) (valid dto)
      → requests S (serve action app ctx) d ≡ requests S (action.handler app dto) d
  unfolding serve action_router
  requests-serve {dto} j =
      requests-error_handler S _ d
      ∙ ap (λ v. requests S (after_validation (action.handler app) action.response_dto v) d)
          (request_validator-Judged action.request_dto action.payload ctx j)
      ∙ requests_then_pure S (λ a. response_validator action.response_dto (respond a))
          (action.handler app dto) d

  -- What a request is answered, and what it leaves in the database, by the verdict on it.
  abbrev pub answer_to : (Response → Validated Response) → Validated action.Dto → Outcome Response
  answer_to verdict (invalid e) = done (not_valid e)
  answer_to verdict (valid dto) = answer_for verdict (result S (action.handler app dto) d)

  abbrev pub content_after : Validated action.Dto → Keyspace
  content_after (invalid e) = S.view d
  content_after (valid dto) = content S (action.handler app dto) d

  -- A request for an action, on any server, with the verdict on the fields that are read for it, and on
  -- each response. Where a field is refused, it is answered with status 422, the first error, and the
  -- database is as it was. Where it is valid, the database is as the handler leaves it; the answer is
  -- 200 with the handler's data, or 204 without a body, provided that this response is valid, and 422
  -- otherwise; where the handler fails, for whatever reason, the answer is 500 without the reason;
  -- and where it never comes to an end, neither does the request.
  pub serve_lem :
      (v : Validated action.Dto) (verdict : Response → Validated Response)
      → Judged action.request_dto (fields_for action.payload ctx) v
      → ((r : Response) → Judged action.response_dto r (verdict r))
      → (result S (serve action app ctx) d ≡ answer_to verdict v)
        × (content S (serve action app ctx) d ≡ content_after v)
  unfolding run error_handler
  serve_lem (invalid e) verdict j k =
      let h = request_validator-Judged action.request_dto action.payload ctx j in
      (ap (λ t. t.0) (run-serve h), ap (λ t. S.view t.1) (run-serve h))
  serve_lem (valid dto) verdict j k =
      let h = serve-answered j in
      (
        h.0
            ∙ answered-answer_for action.response_dto verdict k
                (result S (action.handler app dto) d),
        h.1,
      )
