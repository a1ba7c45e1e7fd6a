-- ===== src/MonitorServer/Answers.antt =====
-- src/monitor-server: the answers to requests on a reliable server, by what the manager's operation does.
use redis_smq.Prelude.{Option, none, some, ◌≡◌, refl, ap, ap₂, sym, ◌∙◌}
use redis_smq.Errors.{Error}
use redis_smq.Redis.Keyspace.{Keyspace}
use redis_smq.Redis.Program.{Program, Outcome, done, failed, exec, exec-bind, continue, pure, ◌>>=◌}
use redis_smq.Redis.Server.{on_server, run-exec, Server, IsReliable, result, content}
use redis_smq.MonitorServer.Dto.{Data, Response, valid}
use redis_smq.MonitorServer.Services.{Application}
use redis_smq.MonitorServer.Routing.{
  Action, Context, response_validator, respond, after_next, serve,
}
use redis_smq.MonitorServer.Served.{answered, serve-answered}
use redis_smq.MonitorServer.Expected.{
  Judged, fields_for, validate_dto-Judged, no_content, with_data, internal_error,
}

-- The response with what a handler answers.
abbrev pub expected : Option Data → Response
expected none = no_content
expected (some d) = with_data d

respond-expected : (o : Option Data) → respond o ≡ expected o
unfolding respond
respond-expected none = refl
respond-expected (some d) = refl

module _ (S : Server) (reliable : IsReliable S) (d : S.Db) {A : Type 0} (wrap : A → Option Data)
    (p : Program A) {s : Keyspace} where
  result-wrap :
      {o : Outcome A} {o' : Outcome (Option Data)}
      → result S p d ≡ o
      → content S p d ≡ s
      → continue (o, s) (λ a. pure (wrap a)) ≡ (o', s)
      → (result S (p >>= λ a. pure (wrap a)) d ≡ o') × (content S (p >>= λ a. pure (wrap a)) d ≡ s)
  result-wrap e f h = on_server S reliable _ d (
      exec-bind (λ a. pure (wrap a)) p (S.view d)
      ∙ ap₂ (λ o t. continue (o, t) (λ a. pure (wrap a))) (sym (run-exec S reliable p d).0 ∙ e)
          (sym (run-exec S reliable p d).1 ∙ f)
      ∙ h)

  module _ (action : Action) (app : Application) (ctx : Context) {dto : action.Dto}
      (is_valid : Judged action.request_dto (fields_for action.payload ctx) (valid dto))
      (is_handler : action.handler app dto ≡ (p >>= λ a. pure (wrap a))) where
    serve-wrap :
        {o : Outcome (Option Data)} {response : Outcome Response}
        → (result S (p >>= λ a. pure (wrap a)) d ≡ o) × (content S (p >>= λ a. pure (wrap a)) d ≡ s)
        → answered action.response_dto o ≡ response
        → (result S (serve action app ctx) d ≡ response) × (content S (serve action app ctx) d ≡ s)
    serve-wrap h e = (
      (serve-answered S d action app ctx is_valid).0
          ∙ ap (λ q. answered action.response_dto (result S q d)) is_handler
          ∙ ap (answered action.response_dto) h.0
          ∙ e,
      (serve-answered S d action app ctx is_valid).1 ∙ ap (λ q. content S q d) is_handler ∙ h.1,
    )

    -- The operation succeeds, and the response with what it answers is valid.
    pub serve-done :
        (a : A)
        → (result S p d ≡ done a) × (content S p d ≡ s)
        → Judged action.response_dto (expected (wrap a)) (valid (expected (wrap a)))
        → (result S (serve action app ctx) d ≡ done (expected (wrap a)))
          × (content S (serve action app ctx) d ≡ s)
    unfolding exec response_validator
    serve-done a h v = serve-wrap (result-wrap h.0 h.1 refl) (
        ap (λ r. done (after_next (response_validator action.response_dto r)))
          (respond-expected (wrap a))
        ∙ ap (λ r. done (after_next r))
            (validate_dto-Judged action.response_dto (expected (wrap a)) v))

    pub serve-failed :
        {e : Error}
        → (result S p d ≡ failed e) × (content S p d ≡ s)
        → (result S (serve action app ctx) d ≡ done internal_error)
          × (content S (serve action app ctx) d ≡ s)
    serve-failed h = serve-wrap (result-wrap h.0 h.1 refl) refl
