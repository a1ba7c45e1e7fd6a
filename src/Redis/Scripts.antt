-- ===== src/Redis/Scripts.antt =====
-- src/system/redis-client/lua: the scripts. Redis runs a script alone. `redis.call` raises if the
-- command is refused or an argument is not a string; what was written before stays written.
pub mod Moves
use redis_smq.Prelude.{Text, ℕ, Bool, false, Option, none, some, [], ◌∷◌, ◌==◌, if◌then◌else◌}
use redis_smq.Errors.{Error, Result, ok, err, redis_client_error}
use redis_smq.Redis.Value.{Value}
use redis_smq.Redis.Keyspace.{Keyspace}
use redis_smq.Redis.Command.{
  Command, Reply, nil, integer, bulk, values, effect, reply, exists, lrange, zrange, lrem, zrem,
  rpush, hget, hdel, zadd, hset,
}

-- A script in progress: its error or its value, and the database.
abbrev Lua : Type 0 → Type 0
Lua A = Keyspace → Result A × Keyspace

abbrev pure : {A : Type 0} → A → Lua A
pure a s = (ok a, s)

abbrev raise : {A : Type 0} → Error → Lua A
raise e s = (err e, s)

abbrev continue : {A B : Type 0} → Result A → (A → Lua B) → Lua B
continue (ok a) f s = f a s
continue (err e) f s = (err e, s)

infixl 5 ◌>>=◌ ◌>>◌
abbrev ◌>>=◌ : {A B : Type 0} → Lua A → (A → Lua B) → Lua B
◌>>=◌ m f s = let (r, s') = m s in continue r f s'

abbrev ◌>>◌ : {A B : Type 0} → Lua A → Lua B → Lua B
m >> n = m >>= λ _. n

-- `redis.call(...)`
abbrev call : Command → Lua Reply
call c s = (ok (reply c s), effect c s)

abbrev is_one : Reply → Bool
is_one (integer n) = n == 1
is_one r = false

-- `result[1]` of an array reply
abbrev first : Reply → Option Value
first (values (v ∷ vs)) = some v
first r = none

-- a bulk reply as an argument: a missing one is `false`
abbrev string_of : Reply → Option Value
string_of (bulk v) = some v
string_of r = none

-- An argument of `redis.call`: `nil` and `false` are refused.
abbrev argument : Option Value → Lua Value
argument none = raise redis_client_error
argument (some v) = pure v

pub data Script : Type 0 where
  -- source list, destination list
  lpoprpush : Text → Text → Script
  -- source sorted set, destination list
  zpoprpush : Text → Text → Script
  -- source sorted set, hash, destination list
  zpophgetrpush : Text → Text → Text → Script
  -- sorted set, hash, score, id, value
  zpushhset : Text → Text → ℕ → Value → Value → Script

lpoprpush_lua : Text → Text → Lua Reply
lpoprpush_lua source destination = do
  found ← call (exists source)
  if is_one found
      then (do
        result ← call (lrange source 0 0)
        message ← argument (first result)
        call (lrem source message)
        call (rpush destination message)
        pure (bulk message))
      else pure nil

zpoprpush_lua : Text → Text → Lua Reply
zpoprpush_lua source destination = do
  found ← call (exists source)
  if is_one found
      then (do
        result ← call (zrange source 0 0)
        message ← argument (first result)
        call (zrem source message)
        call (rpush destination message)
        pure (bulk message))
      else pure nil

zpophgetrpush_lua : Text → Text → Text → Lua Reply
zpophgetrpush_lua source hash destination = do
  found ← call (exists source)
  if is_one found
      then (do
        result ← call (zrange source 0 0)
        message_id ← argument (first result)
        stored ← call (hget hash message_id)
        call (zrem source message_id)
        call (hdel hash (message_id ∷ []))
        message ← argument (string_of stored)
        call (rpush destination message)
        pure (bulk message))
      else pure nil

zpushhset_lua : Text → Text → ℕ → Value → Value → Lua Reply
zpushhset_lua sorted_set hash score id value = do
  call (zadd sorted_set score id)
  call (hset hash id value)
  pure (integer 1)

unfoldable pub run_script : Script → Keyspace → Result Reply × Keyspace
unfolding lpoprpush_lua zpoprpush_lua zpophgetrpush_lua zpushhset_lua
run_script (lpoprpush a b) = lpoprpush_lua a b
run_script (zpoprpush a b) = zpoprpush_lua a b
run_script (zpophgetrpush a h b) = zpophgetrpush_lua a h b
run_script (zpushhset a h n i v) = zpushhset_lua a h n i v
