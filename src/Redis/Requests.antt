-- ===== src/Redis/Requests.antt =====
-- The requests that a program sends, one after the other.
use redis_smq.Prelude.{
  ap, sym, ◌∙◌, Bool-cases, inl, inr, Bool, true, false, Option, none, some, List, [], ◌∷◌, ◌≡◌,
  refl,
}
use redis_smq.Errors.{Error, err}
use redis_smq.Redis.Keyspace.{Keyspace}
use redis_smq.Redis.Program.{
  Request, request_effect, request_reply, request_blocks, Program, pure, raise, wait, send, ◌>>=◌,
  transaction, true_case, false_case,
}
use redis_smq.Redis.Command.{Command}
use redis_smq.Redis.Server.{Server, IsReliable, none_case}

-- Of a run on a server.
unfoldable pub requests : (S : Server) → {A : Type 0} → Program A → S.Db → List Request
requests S (pure a) d = []
requests S (raise e) d = []
requests S wait d = []
requests S (send r k) d = r ∷ elim (S.fault r d) [
  | some e ↦ requests S (k (err e)) d
  | none ↦ elim (S.blocks r d) [ true ↦ [] | false ↦ requests S (k (S.answer r d)) (S.next r d) ]
]

-- Of the documented run.
unfoldable pub sent : {A : Type 0} → Program A → Keyspace → List Request
sent (pure a) s = []
sent (raise e) s = []
sent wait s = []
sent (send r k) s = r ∷ elim (request_blocks r s) [
  | true ↦ []
  | false ↦ sent (k (request_reply r s)) (request_effect r s)
]

-- Some commands in one transaction; nothing is sent if there are none.
abbrev pub in_one_transaction : List Command → List Request
in_one_transaction [] = []
in_one_transaction (c ∷ cs) = transaction (c ∷ cs) ∷ []

module _ (S : Server) (reliable : IsReliable S) {A : Type 0} where
  -- On a reliable server they are those of the documented run.
  pub requests-sent : (p : Program A) (d : S.Db) → requests S p d ≡ sent p (S.view d)
  unfolding requests sent
  requests-sent (pure a) d = refl
  requests-sent (raise e) d = refl
  requests-sent wait d = refl
  requests-sent (send r k) d =
      ap (λ rs. r ∷ rs)
        (none_case (S.fault r d) _ _ (reliable.no_fault r d)
          ∙ elim (Bool-cases (request_blocks r (S.view d))) [
            | inl b ↦
                true_case (S.blocks r d) _ _ (S.blocks_documented r d ∙ b)
                ∙ sym (true_case (request_blocks r (S.view d)) _ _ b)
            | inr b ↦
                false_case (S.blocks r d) _ _ (S.blocks_documented r d ∙ b)
                ∙ ap (λ a. requests S (k a) (S.next r d)) (S.answer_documented r d)
                ∙ requests-sent (k (request_reply r (S.view d))) (S.next r d)
                ∙ ap (sent (k (request_reply r (S.view d)))) (S.next_documented r d)
                ∙ sym (false_case (request_blocks r (S.view d)) _ _ b)
          ])

-- What is sent, by a fault and by whether the request blocks.
pub same_rest :
    (o : Option Error) (b : Bool) (f g : Error → List Request) (x y : List Request)
    → ((e : Error) → f e ≡ g e)
    → x ≡ y
    → elim o [ some e ↦ f e | none ↦ elim b [ true ↦ [] | false ↦ x ] ]
      ≡ elim o [ some e ↦ g e | none ↦ elim b [ true ↦ [] | false ↦ y ] ]
same_rest (some e) b f g x y h k = h e
same_rest none true f g x y h k = refl
same_rest none false f g x y h k = k

-- Nothing is sent after the end of a program.
pub requests_then_pure :
    (S : Server) {A B : Type 0} (f : A → B) (p : Program A) (d : S.Db)
    → requests S (p >>= λ a. pure (f a)) d ≡ requests S p d
unfolding requests
requests_then_pure S f (pure a) d = refl
requests_then_pure S f (raise e) d = refl
requests_then_pure S f wait d = refl
requests_then_pure S f (send r k) d =
    ap (λ rs. r ∷ rs)
      (same_rest (S.fault r d) (S.blocks r d) _ _ _ _ (λ e. requests_then_pure S f (k (err e)) d)
        (requests_then_pure S f (k (S.answer r d)) (S.next r d)))
