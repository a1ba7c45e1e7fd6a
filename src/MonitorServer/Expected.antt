-- ===== src/MonitorServer/Expected.antt =====
-- src/monitor-server: what a request is answered, apart from the code: the responses, which fields are
-- read, and when class-validator's verdict on an object counts.
use redis_smq.Prelude.{
  codes, ℕ, none, some, List, [], ◌∷◌, ◌++◌, ◌≡◌, ◌≢◌, refl, ap, sym, ◌∙◌, ◌==◌, append_assoc,
  append-nil, if◌then◌else◌, arith,
}
use redis_smq.MonitorServer.Dto.{
  ClassConstructor, Plain, Data, ValidationError, data_body, error_body, Response, Validated, valid,
  invalid, first_error, validate_dto,
}
use redis_smq.MonitorServer.Routing.{
  Payload, query, body, path, Context, collect, request_validator,
}

abbrev pub no_content : Response
no_content = record { status = 204; body = none }

abbrev pub with_data : Data → Response
with_data d = record { status = 200; body = some (data_body d) }

abbrev pub not_valid : ValidationError → Response
not_valid e = record {
  status = 422;
  body = some (error_body 422 (codes "Validation error") (some e));
}

abbrev pub internal_error : Response
internal_error = record {
  status = 500;
  body = some (error_body 500 (codes "Internal server error") none);
}

-- An object without keys is taken as it is; any other if no error is found, and otherwise the first
-- error counts.
pub data Judged {P D : Type 0} (c : ClassConstructor P D) (plain : P) : Validated D → Type 0 where
  has_no_keys :
      c.key_count (c.plain_to_class plain) ≡ 0 → Judged c plain (valid (c.plain_to_class plain))
  has_no_errors :
      c.validate (c.plain_to_class plain) ≡ [] → Judged c plain (valid (c.plain_to_class plain))
  has_errors :
      (e : ValidationError) (es : List ValidationError)
      → c.key_count (c.plain_to_class plain) ≢ 0
      → c.validate (c.plain_to_class plain) ≡ e ∷ es
      → Judged c plain (invalid e)

module _ {P D : Type 0} (c : ClassConstructor P D) (plain : P) where
  either_way :
      (n : ℕ) (v : Validated D)
      → v ≡ valid (c.plain_to_class plain)
      → (if n == 0 then valid (c.plain_to_class plain) else v) ≡ valid (c.plain_to_class plain)
  either_way n v e = ground (arith, e)

  not_zero : (n : ℕ) (v w : Validated D) → n ≢ 0 → (if n == 0 then w else v) ≡ v
  not_zero n v w h = ground arith

  pub validate_dto-Judged : {v : Validated D} → Judged c plain v → validate_dto c plain ≡ v
  unfolding validate_dto
  validate_dto-Judged (has_no_keys h) = ground (arith, h)
  validate_dto-Judged (has_no_errors h) =
      either_way (c.key_count (c.plain_to_class plain)) _
        (ap (first_error (c.plain_to_class plain)) h)
  validate_dto-Judged (has_errors e es h k) =
      not_zero (c.key_count (c.plain_to_class plain)) _ _ h
      ∙ ap (first_error (c.plain_to_class plain)) k

-- The fields that a request is read from, the later ones over the earlier.
abbrev field_source : Payload → Context → Plain
field_source path ctx = ctx.params
field_source query ctx = ctx.query
field_source body ctx = ctx.body

abbrev pub fields_for : List Payload → Context → Plain
fields_for [] ctx = []
fields_for (p ∷ []) ctx = field_source p ctx
fields_for (p ∷ q ∷ ps) ctx = field_source p ctx ++ fields_for (q ∷ ps) ctx

collect-fields_for :
    (ps : List Payload) (ctx : Context) (plain : Plain)
    → collect ps ctx plain ≡ plain ++ fields_for ps ctx
unfolding collect
collect-fields_for [] ctx plain = sym (append-nil plain)
collect-fields_for (path ∷ []) ctx plain = refl
collect-fields_for (query ∷ []) ctx plain = refl
collect-fields_for (body ∷ []) ctx plain = refl
collect-fields_for (path ∷ q ∷ ps) ctx plain =
    collect-fields_for (q ∷ ps) ctx (plain ++ ctx.params)
    ∙ append_assoc plain ctx.params (fields_for (q ∷ ps) ctx)
collect-fields_for (query ∷ q ∷ ps) ctx plain =
    collect-fields_for (q ∷ ps) ctx (plain ++ ctx.query)
    ∙ append_assoc plain ctx.query (fields_for (q ∷ ps) ctx)
collect-fields_for (body ∷ q ∷ ps) ctx plain =
    collect-fields_for (q ∷ ps) ctx (plain ++ ctx.body)
    ∙ append_assoc plain ctx.body (fields_for (q ∷ ps) ctx)

pub request_validator-Judged :
    {D : Type 0} (c : ClassConstructor Plain D) (ps : List Payload) (ctx : Context)
    {v : Validated D}
    → Judged c (fields_for ps ctx) v
    → request_validator c ps ctx ≡ v
unfolding request_validator
request_validator-Judged c ps ctx h =
    ap (validate_dto c) (collect-fields_for ps ctx []) ∙ validate_dto-Judged c (fields_for ps ctx) h
