-- ===== src/Redis/Program.antt =====
-- Code that talks to Redis, as the requests that it sends and what it does with each answer. The
-- callbacks of the source are the continuations. `exec` runs a program alone on a database that
-- behaves as documented.
use redis_smq.Prelude.{ℕ, ap, ap₂, ◌∙◌, ◌≡◌, refl, Bool, true, false, List, [], ◌∷◌}
use redis_smq.Errors.{Error, Result, ok, err}
use redis_smq.Redis.Keyspace.{Keyspace}
use redis_smq.Redis.Command.{Command, Reply, integer, integers, effect, reply, blocks}
use redis_smq.Redis.Scripts.{Script, run_script}

-- A single command, a MULTI ... EXEC transaction, or a script.
pub data Request : Type 0 where
  single : Command → Request
  transaction : List Command → Request
  script : Script → Request

unfoldable pub effects : List Command → Keyspace → Keyspace
unfolding effect
effects [] s = s
effects (c ∷ cs) s = effects cs (effect c s)

abbrev pub count_of : Reply → ℕ
count_of (integer n) = n
count_of r = 0

unfoldable pub counts : List Command → Keyspace → List ℕ
unfolding effect reply
counts [] s = []
counts (c ∷ cs) s = count_of (reply c s) ∷ counts cs (effect c s)

unfoldable pub request_effect : Request → Keyspace → Keyspace
unfolding effects effect run_script
request_effect (single c) s = effect c s
request_effect (transaction cs) s = effects cs s
request_effect (script c) s = (run_script c s).1

unfoldable pub request_reply : Request → Keyspace → Result Reply
unfolding reply run_script counts
request_reply (single c) s = ok (reply c s)
request_reply (transaction cs) s = ok (integers (counts cs s))
request_reply (script c) s = (run_script c s).0

unfoldable pub request_blocks : Request → Keyspace → Bool
unfolding blocks
request_blocks (single c) s = blocks c s
request_blocks (transaction cs) s = false
request_blocks (script c) s = false

-- `wait`: the code never calls back.
pub data Program (A : Type 0) : Type 0 where
  pure : A → Program A
  raise : Error → Program A
  wait : Program A
  send : Request → (Result Reply → Program A) → Program A

-- How a run ends.
pub data Outcome (A : Type 0) : Type 0 where
  done : A → Outcome A
  failed : Error → Outcome A
  waiting : Outcome A

infixl 5 ◌>>=◌ ◌>>◌
abbrev pub ◌>>=◌ : {A B : Type 0} → Program A → (A → Program B) → Program B
pure a >>= f = f a
raise e >>= f = raise e
wait >>= f = wait
send r k >>= f = send r (λ x. k x >>= f)

abbrev pub ◌>>◌ : {A B : Type 0} → Program A → Program B → Program B
m >> n = m >>= λ _. n

-- `(err, reply) => { if (err) cb(err); else ... }`
abbrev pub if_ok : {A : Type 0} → (Reply → Program A) → Result Reply → Program A
if_ok f (ok r) = f r
if_ok f (err e) = raise e

abbrev pub request : Request → Program Reply
request r = send r (if_ok pure)

abbrev pub lift : {A : Type 0} → Result A → Program A
lift (ok a) = pure a
lift (err e) = raise e

unfoldable pub exec : {A : Type 0} → Program A → Keyspace → Outcome A × Keyspace
exec (pure a) s = (done a, s)
exec (raise e) s = (failed e, s)
exec wait s = (waiting, s)
exec (send r k) s = elim (request_blocks r s) [
  | true ↦ (waiting, s)
  | false ↦ exec (k (request_reply r s)) (request_effect r s)
]

pub true_case : {B : Type 0} (o : Bool) (a b : B) → o ≡ true → elim o [ true ↦ a | false ↦ b ] ≡ a
true_case true a b h = refl
true_case false a b h = cc

pub false_case : {B : Type 0} (o : Bool) (a b : B) → o ≡ false → elim o [ true ↦ a | false ↦ b ] ≡ b
false_case false a b h = refl
false_case true a b h = cc

module _ {A : Type 0} (r : Request) (k : Result Reply → Program A) (s : Keyspace) where
  pub exec_send :
      request_blocks r s ≡ false
      → exec (send r k) s ≡ exec (k (request_reply r s)) (request_effect r s)
  unfolding exec
  exec_send h = false_case (request_blocks r s) _ _ h

  pub exec_blocked : request_blocks r s ≡ true → exec (send r k) s ≡ (waiting, s)
  unfolding exec
  exec_blocked h = true_case (request_blocks r s) _ _ h

-- What a run does next.
abbrev pub continue : {A B : Type 0} → Outcome A × Keyspace → (A → Program B) → Outcome B × Keyspace
continue (done a, s) f = exec (f a) s
continue (failed e, s) f = (failed e, s)
continue (waiting, s) f = (waiting, s)

module _ {A B : Type 0} (f : A → Program B) where
  continue_if :
      (b : Bool) (s : Keyspace) (x : Outcome A × Keyspace) (y : Outcome B × Keyspace)
      → y ≡ continue x f
      → elim b [ true ↦ (waiting, s) | false ↦ y ]
        ≡ continue (elim b [ true ↦ (waiting, s) | false ↦ x ]) f
  continue_if true s x y e = refl
  continue_if false s x y e = e

  -- A sequence runs its parts one after the other.
  pub exec-bind : (p : Program A) (s : Keyspace) → exec (p >>= f) s ≡ continue (exec p s) f
  unfolding exec
  exec-bind (pure a) s = refl
  exec-bind (raise e) s = refl
  exec-bind wait s = refl
  exec-bind (send r k) s =
      continue_if (request_blocks r s) s _ _
        (exec-bind (k (request_reply r s)) (request_effect r s))

-- What is run after a program that ends with a result.
continue_done :
    {A B : Type 0} (f : A → Program B) (x : Outcome A × Keyspace) {a : A}
    → x.0 ≡ done a
    → continue x f ≡ exec (f a) x.1
continue_done f (done a', s) e = ap (λ t. exec (f t) s) (cc e)
continue_done f (failed e', s) e = absurd (cc e)
continue_done f (waiting, s) e = absurd (cc e)

pub exec_after :
    {A B : Type 0} (p : Program A) (f : A → Program B) (s : Keyspace) {a : A}
    → (exec p s).0 ≡ done a
    → exec (p >>= f) s ≡ exec (f a) (exec p s).1
exec_after p f s e = exec-bind f p s ∙ continue_done f (exec p s) e

pub exec_next :
    {A B : Type 0} (p : Program A) (f : A → Program B) (s : Keyspace) {a : A} {s' : Keyspace}
    → exec p s ≡ (done a, s')
    → exec (p >>= f) s ≡ exec (f a) s'
exec_next p f s {a} e = exec_after p f s (ap (λ x. x.0) e) ∙ ap (λ x. exec (f a) x.1) e

-- One command, by its reply and its effect.
pub exec_command :
    {A : Type 0} (c : Command) (k : Result Reply → Program A) (s : Keyspace) {r : Reply}
    {s' : Keyspace}
    → blocks c s ≡ false
    → reply c s ≡ r
    → effect c s ≡ s'
    → exec (send (single c) k) s ≡ exec (k (ok r)) s'
unfolding request_blocks request_reply request_effect
exec_command c k s b e f = exec_send (single c) k s b ∙ ap₂ (λ x y. exec (k (ok x)) y) e f
