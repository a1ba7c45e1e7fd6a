-- ===== src/Redis/Client/Moves.antt =====
-- src/system/redis-client/redis-client.ts: the moves between queues, on either kind of server.
use redis_smq.Prelude.{
  Text, ℕ, Bool, true, false, Option, none, some, List, [], ◌∷◌, ◌≡◌, refl, ap, ◌∙◌,
}
use redis_smq.Errors.{Result, ok, err, redis_client_error}
use redis_smq.Redis.Value.{Value}
use redis_smq.Redis.Keyspace.{Keyspace}
use redis_smq.Redis.Command.{Command, move_first, first_reply, effect, reply, blocks, Reply}
use redis_smq.Redis.Scripts.{Script, run_script}
use redis_smq.Redis.Scripts.Moves.{
  IsListKey, run_script-lpoprpush, IsZsetKey, run_script-zpophgetrpush, pop_answer, popped, stored,
}
use redis_smq.Redis.Program.{
  Outcome, done, failed, exec, pure, request_effect, request_reply, request_blocks, if_ok, request,
  single, ◌>>=◌,
}
use redis_smq.Redis.Server.{on_server, Server, IsReliable, result, content}
use redis_smq.Redis.Client.{
  Version, lpoprpush, lmove, validate_redis_version, string_of, zpophgetrpush, eval_script,
}

-- How the client ends with what a script returned.
abbrev pub script_outcome : Result Reply × Keyspace → Outcome (Option Value) × Keyspace
script_outcome (ok r, s) = (done (string_of r), s)
script_outcome (err e, s) = (failed e, s)

script_answer :
    (x : Result Reply × Keyspace)
    → exec (if_ok pure x.0 >>= λ r. pure (string_of r)) x.1 ≡ script_outcome x
unfolding exec
script_answer (ok r, s) = refl
script_answer (err e, s) = refl

pub exec-eval_script :
    (c : Script) (s : Keyspace) → exec (eval_script c) s ≡ script_outcome (run_script c s)
unfolding exec request_blocks request_reply request_effect
exec-eval_script c s = script_answer (run_script c s)

module _ (v : Version) (a b : Text) (s : Keyspace) where
  pub lpoprpush_old :
      validate_redis_version (some v) 6 2 0 ≡ ok false
      → lpoprpush (some v) a b ≡ eval_script (Script.lpoprpush a b)
  unfolding lpoprpush
  lpoprpush_old e = simp e

  pub lpoprpush_new :
      validate_redis_version (some v) 6 2 0 ≡ ok true
      → lpoprpush (some v) a b
        ≡ (request (single (Command.lmove_left_right a b)) >>= λ r. pure (string_of r))
  unfolding lpoprpush lmove
  lpoprpush_new e = simp e

  exec_lmove :
      exec (request (single (Command.lmove_left_right a b)) >>= λ r. pure (string_of r)) s
      ≡ (done (string_of (first_reply (s.lists a))), move_first a b (s.lists a) s)
  unfolding exec request_blocks blocks request_reply reply request_effect effect
  exec_lmove = refl

  lpoprpush_by :
      (supported : Bool)
      → validate_redis_version (some v) 6 2 0 ≡ ok supported
      → IsListKey a s
      → exec (lpoprpush (some v) a b) s
        ≡ (done (string_of (first_reply (s.lists a))), move_first a b (s.lists a) s)
  lpoprpush_by true e k = ap (λ p. exec p s) (lpoprpush_new e) ∙ exec_lmove
  lpoprpush_by false e k =
      ap (λ p. exec p s) (lpoprpush_old e)
      ∙ exec-eval_script (Script.lpoprpush a b) s
      ∙ ap script_outcome (run_script-lpoprpush a b s k)

  pub exec-lpoprpush :
      IsListKey a s
      → exec (lpoprpush (some v) a b) s
        ≡ (done (string_of (first_reply (s.lists a))), move_first a b (s.lists a) s)
  unfolding validate_redis_version
  exec-lpoprpush k = lpoprpush_by _ refl k

pub exec-zpophgetrpush :
    (a h b : Text) (s : Keyspace)
    → IsZsetKey a s
    → exec (zpophgetrpush a h b) s
      ≡ script_outcome (
        pop_answer (s.zsets a) (stored (s.zsets a) (s.hashes h)),
        popped a h b (s.zsets a) (stored (s.zsets a) (s.hashes h)) s,
      )
unfolding zpophgetrpush
exec-zpophgetrpush a h b s k =
    exec-eval_script (Script.zpophgetrpush a h b) s
    ∙ ap script_outcome (run_script-zpophgetrpush a h b s k)

-- On a reliable server of any version, by LMOVE or by the script, from a key that holds nothing but a
-- list: the head of the list goes to the end of the other list and is the reply; from an empty list
-- nothing is moved, and the reply is empty.
pub lpoprpush_lem :
    (S : Server) (reliable : IsReliable S) (d : S.Db) (v : Version) (a b : Text)
    → IsListKey a (S.view d)
    → (result S (lpoprpush (some v) a b) d ≡ done (string_of (first_reply ((S.view d).lists a))))
      × (content S (lpoprpush (some v) a b) d ≡ move_first a b ((S.view d).lists a) (S.view d))
lpoprpush_lem S reliable d v a b k = on_server S reliable _ d (exec-lpoprpush v a b (S.view d) k)

-- How `zpophgetrpush` ends, by the members of the set and the message of the first of them.
abbrev pub pop_outcome : List (Value × ℕ) → Option Value → Outcome (Option Value)
pop_outcome [] m = done none
pop_outcome (x ∷ xs) none = failed redis_client_error
pop_outcome (x ∷ xs) (some v) = done (some v)

pop_outcome-answer :
    (l : List (Value × ℕ)) (m : Option Value) (s : Keyspace)
    → script_outcome (pop_answer l m, s) ≡ (pop_outcome l m, s)
pop_outcome-answer [] m s = refl
pop_outcome-answer (x ∷ xs) none s = refl
pop_outcome-answer (x ∷ xs) (some v) s = refl

-- On a reliable server, from a key that holds nothing but a sorted set: the first member leaves the
-- set and the hash, its message of the hash goes to the end of the list and is the reply. From an empty
-- set nothing is moved and the reply is empty. Without a message in the hash the call fails, and the
-- member has left the set.
zpophgetrpush_lem :
    (S : Server) (reliable : IsReliable S) (d : S.Db) (a h b : Text)
    → IsZsetKey a (S.view d)
    → (result S (zpophgetrpush a h b) d
        ≡ pop_outcome ((S.view d).zsets a) (stored ((S.view d).zsets a) ((S.view d).hashes h)))
      × (content S (zpophgetrpush a h b) d
          ≡ popped a h b
              ((S.view d).zsets a)
              (stored ((S.view d).zsets a) ((S.view d).hashes h))
              (S.view d))
zpophgetrpush_lem S reliable d a h b k =
    on_server S reliable _ d (exec-zpophgetrpush a h b (S.view d) k ∙ pop_outcome-answer _ _ _)
