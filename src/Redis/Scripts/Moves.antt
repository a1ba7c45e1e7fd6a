-- ===== src/Redis/Scripts/Moves.antt =====
-- What the scripts of src/system/redis-client/lua do to a database.
use redis_smq.Prelude.{Text, ℕ, Option, none, some, List, [], ◌∷◌, ◌++◌, ◌≡◌, refl}
use redis_smq.Errors.{Result, ok, err, redis_client_error}
use redis_smq.Redis.Value.{Value, value_eq_refl}
use redis_smq.Redis.Keyspace.{
  Keyspace, set_list, set_zset, set_hash, remove_first, without, find, without_all,
}
use redis_smq.Redis.Command.{Reply, nil, bulk, effect, reply, move_first, first_reply}
use redis_smq.Redis.Scripts.{lpoprpush, zpophgetrpush, run_script}

-- A key at which there is nothing but a list.
pub record IsListKey (k : Text) (s : Keyspace) : Type 0 where
  pub no_zset : s.zsets k ≡ []
  pub no_hash : s.hashes k ≡ []
  pub no_set : s.sets k ≡ []

pub remove_first_head : (v : Value) (vs : List Value) → remove_first v (v ∷ vs) ≡ vs
unfolding remove_first
remove_first_head v vs = rw (value_eq_refl v)

pub run_script-lpoprpush :
    (a b : Text) (s : Keyspace)
    → IsListKey a s
    → run_script (lpoprpush a b) s ≡ (ok (first_reply (s.lists a)), move_first a b (s.lists a) s)
unfolding run_script effect reply
run_script-lpoprpush a b s k = go (s.lists a) refl
  where
    go :
        (l : List Value)
        → s.lists a ≡ l
        → run_script (lpoprpush a b) s ≡ (ok (first_reply l), move_first a b l s)
    go [] e = simp (e, k.no_zset, k.no_hash, k.no_set)
    go (v ∷ vs) e = simp (e, k.no_zset, k.no_hash, k.no_set, remove_first_head)

-- A key at which there is nothing but a sorted set.
pub record IsZsetKey (k : Text) (s : Keyspace) : Type 0 where
  pub no_list : s.lists k ≡ []
  pub no_hash : s.hashes k ≡ []
  pub no_set : s.sets k ≡ []

-- The database without a member of a sorted set and its field in a hash.
abbrev pub take_out : Text → Text → Value → Keyspace → Keyspace
take_out zset hash id s =
    set_hash hash (without id (s.hashes hash)) (set_zset zset (without id (s.zsets zset)) s)

-- What `zpophgetrpush` answers, by the entries of the set and the message of the first of them.
abbrev pub pop_answer : List (Value × ℕ) → Option Value → Result Reply
pop_answer [] m = ok nil
pop_answer (x ∷ xs) none = err redis_client_error
pop_answer (x ∷ xs) (some v) = ok (bulk v)

abbrev append_to : Text → Option Value → Keyspace → Keyspace
append_to b none s = s
append_to b (some v) s = set_list b (s.lists b ++ v ∷ []) s

abbrev pub stored : List (Value × ℕ) → List (Value × Value) → Option Value
stored [] fields = none
stored ((id, n) ∷ xs) fields = find id fields

abbrev pub popped : Text → Text → Text → List (Value × ℕ) → Option Value → Keyspace → Keyspace
popped a h b [] m s = s
popped a h b ((id, n) ∷ xs) m s = append_to b m (take_out a h id s)

module _ (a h b : Text) (s : Keyspace) (k : IsZsetKey a s) where
  abbrev Pops : List (Value × ℕ) → Option Value → Type 0
  Pops l m = run_script (zpophgetrpush a h b) s ≡ (pop_answer l m, popped a h b l m s)

  first-Pops :
      (l : List (Value × ℕ)) (m : Option Value)
      → s.zsets a ≡ l
      → stored l (s.hashes h) ≡ m
      → Pops l m
  unfolding run_script effect reply without_all
  first-Pops [] m e f = simp (e, k.no_list, k.no_hash, k.no_set)
  first-Pops ((id, n) ∷ xs) none e f = simp (e, k.no_list, k.no_hash, k.no_set, f)
  first-Pops ((id, n) ∷ xs) (some v) e f = simp (e, k.no_list, k.no_hash, k.no_set, f)

  -- The script takes the first member out of the set and the hash, whatever happens then; its message
  -- goes to the list, and without a message the script fails.
  pub run_script-zpophgetrpush : run_script (zpophgetrpush a h b) s ≡ (
    pop_answer (s.zsets a) (stored (s.zsets a) (s.hashes h)),
    popped a h b (s.zsets a) (stored (s.zsets a) (s.hashes h)) s,
  )
  run_script-zpophgetrpush = first-Pops (s.zsets a) (stored (s.zsets a) (s.hashes h)) refl refl
