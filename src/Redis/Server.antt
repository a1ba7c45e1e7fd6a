-- ===== src/Redis/Server.antt =====
-- The Redis server as a parameter: a database that can be observed, and what it does with a request.
-- A request that the server refuses changes nothing; any other does what Redis documents.
use redis_smq.Prelude.{
  ap, sym, ◌∙◌, Bool-cases, inl, inr, Bool, true, false, Option, none, some, ◌≡◌, refl,
}
use redis_smq.Errors.{Error, Result, err}
use redis_smq.Redis.Keyspace.{Keyspace}
use redis_smq.Redis.Command.{Reply}
use redis_smq.Redis.Program.{
  Request, request_effect, request_reply, request_blocks, Program, pure, raise, wait, send, Outcome,
  done, failed, waiting, exec, true_case, false_case, exec_send, exec_blocked,
}

pub record Server : Type 1 where
  pub Db : Type 0
  pub view : Db → Keyspace
  -- the error with which a request is refused, such as a lost connection
  pub fault : Request → Db → Option Error
  pub blocks : Request → Db → Bool
  pub answer : Request → Db → Result Reply
  pub next : Request → Db → Db
  pub blocks_documented : (r : Request) (d : Db) → blocks r d ≡ request_blocks r (view d)
  pub answer_documented : (r : Request) (d : Db) → answer r d ≡ request_reply r (view d)
  pub next_documented : (r : Request) (d : Db) → view (next r d) ≡ request_effect r (view d)

-- The server refuses no request.
pub record IsReliable (S : Server) : Type 0 where
  pub no_fault : (r : Request) (d : S.Db) → S.fault r d ≡ none

unfoldable pub run : (S : Server) → {A : Type 0} → Program A → S.Db → Outcome A × S.Db
run S (pure a) d = (done a, d)
run S (raise e) d = (failed e, d)
run S wait d = (waiting, d)
run S (send r k) d = elim (S.fault r d) [
  | some e ↦ run S (k (err e)) d
  | none ↦ elim (S.blocks r d) [
    | true ↦ (waiting, d)
    | false ↦ run S (k (S.answer r d)) (S.next r d)
  ]
]

-- How a program ends on a server, and the content of the database after it.
abbrev pub result : (S : Server) → {A : Type 0} → Program A → S.Db → Outcome A
result S p d = (run S p d).0

abbrev pub content : (S : Server) → {A : Type 0} → Program A → S.Db → Keyspace
content S p d = S.view (run S p d).1

pub none_case :
    {A B : Type 0} (o : Option A) (f : A → B) (b : B)
    → o ≡ none
    → elim o [ some a ↦ f a | none ↦ b ] ≡ b
none_case none f b h = refl
none_case (some a) f b h = cc

module _ (S : Server) (reliable : IsReliable S) {A : Type 0} where
  run_send :
      (r : Request) (k : Result Reply → Program A) (d : S.Db)
      → request_blocks r (S.view d) ≡ false
      → run S (send r k) d ≡ run S (k (request_reply r (S.view d))) (S.next r d)
  unfolding run
  run_send r k d h =
      none_case (S.fault r d) _ _ (reliable.no_fault r d)
      ∙ false_case (S.blocks r d) _ _ (S.blocks_documented r d ∙ h)
      ∙ ap (λ a. run S (k a) (S.next r d)) (S.answer_documented r d)

  run_blocked :
      (r : Request) (k : Result Reply → Program A) (d : S.Db)
      → request_blocks r (S.view d) ≡ true
      → run S (send r k) d ≡ (waiting, d)
  unfolding run
  run_blocked r k d h =
      none_case (S.fault r d) _ _ (reliable.no_fault r d)
      ∙ true_case (S.blocks r d) _ _ (S.blocks_documented r d ∙ h)

  abbrev pub Agrees : Program A → S.Db → Type 0
  Agrees p d = (result S p d ≡ (exec p (S.view d)).0) × (content S p d ≡ (exec p (S.view d)).1)

  agree_by :
      (p : Program A) (d : S.Db) {x : Outcome A} {d' : S.Db} {e : Outcome A × Keyspace}
      → run S p d ≡ (x, d')
      → exec p (S.view d) ≡ e
      → x ≡ e.0
      → S.view d' ≡ e.1
      → Agrees p d
  agree_by p d h k same_result same_content = (
    ap (λ t. t.0) h ∙ same_result ∙ sym (ap (λ t. t.0) k),
    ap (λ t. S.view t.1) h ∙ same_content ∙ sym (ap (λ t. t.1) k),
  )

  Agrees-send :
      (r : Request) (k : Result Reply → Program A) (d : S.Db)
      → Agrees (k (request_reply r (S.view d))) (S.next r d)
      → Agrees (send r k) d
  Agrees-send r k d again = elim (Bool-cases (request_blocks r (S.view d))) [
    | inl b ↦ agree_by (send r k) d (run_blocked r k d b) (exec_blocked r k (S.view d) b) refl refl
    | inr b ↦
        agree_by (send r k) d (run_send r k d b)
          (exec_send r k (S.view d) b
            ∙ ap (exec (k (request_reply r (S.view d)))) (sym (S.next_documented r d)))
          again.0 again.1
  ]

  -- A run on a reliable server is the documented run on its content.
  pub run-exec : (p : Program A) (d : S.Db) → Agrees p d
  unfolding run exec
  run-exec (pure a) d = (refl, refl)
  run-exec (raise e) d = (refl, refl)
  run-exec wait d = (refl, refl)
  run-exec (send r k) d = Agrees-send r k d (run-exec (k (request_reply r (S.view d))) (S.next r d))

module _ (S : Server) (reliable : IsReliable S) {A : Type 0} where
  -- What a program does to the database of a reliable server, by its documented run.
  pub on_server :
      (p : Program A) (d : S.Db) {x : Outcome A} {s : Keyspace}
      → exec p (S.view d) ≡ (x, s)
      → (result S p d ≡ x) × (content S p d ≡ s)
  on_server p d e =
      ((run-exec S reliable p d).0 ∙ ap (λ t. t.0) e, (run-exec S reliable p d).1 ∙ ap (λ t. t.1) e)
