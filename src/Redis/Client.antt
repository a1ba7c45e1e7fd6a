-- ===== src/Redis/Client.antt =====
-- src/system/redis-client/redis-client.ts: the methods of the client that the program calls. A reply
-- that the caller of the method ignores is dropped. What ioredis and node_redis differ in is left
-- out, as are the connection and the loading of the scripts.
pub mod Moves
pub mod Reads
use redis_smq.Prelude.{
  Text, ℕ, Bool, ◌&&◌, ◌||◌, Option, none, some, List, [], ltb, leb, ◌==◌, if◌then◌else◌,
}
use redis_smq.Errors.{Result, ok, err, redis_client_error}
use redis_smq.Redis.Value.{Value}
use redis_smq.Redis.Command.{Command, Reply, integer, bulk, values, slots, fields, integers}
use redis_smq.Redis.Scripts.{Script}
use redis_smq.Redis.Program.{
  Program, pure, raise, single, transaction, script, request, lift, ◌>>=◌, ◌>>◌,
}

-- What a callback makes of a reply.
abbrev pub number_of : Reply → ℕ
number_of (integer n) = n
number_of r = 0

abbrev pub string_of : Reply → Option Value
string_of (bulk v) = some v
string_of r = none

abbrev pub values_of : Reply → List Value
values_of (values vs) = vs
values_of r = []

abbrev pub slots_of : Reply → List (Option Value)
slots_of (slots vs) = vs
slots_of r = []

abbrev pub fields_of : Reply → List (Value × Value)
fields_of (fields vs) = vs
fields_of r = []

-- `cb(err)`
abbrev pub command : Command → Program (Unit {0})
command c = do request (single c); pure tt

abbrev pub lrange : Text → ℕ → ℕ → Program (List Value)
lrange key start stop = do r ← request (single (Command.lrange key start stop)); pure (values_of r)

abbrev pub llen : Text → Program ℕ
llen key = do r ← request (single (Command.llen key)); pure (number_of r)

abbrev pub zcard : Text → Program ℕ
zcard key = do r ← request (single (Command.zcard key)); pure (number_of r)

abbrev pub zrange : Text → ℕ → ℕ → Program (List Value)
zrange key min max = do r ← request (single (Command.zrange key min max)); pure (values_of r)

-- `zrange(key, 0, -1)`
abbrev pub zrange_all : Text → Program (List Value)
zrange_all key = do r ← request (single (Command.zrange_all key)); pure (values_of r)

abbrev pub zrangebyscore : Text → ℕ → ℕ → Program (List Value)
zrangebyscore key min max = do
  r ← request (single (Command.zrangebyscore key min max))
  pure (values_of r)

abbrev pub smembers : Text → Program (List Value)
smembers key = do r ← request (single (Command.smembers key)); pure (values_of r)

abbrev pub hgetall : Text → Program (List (Value × Value))
hgetall key = do r ← request (single (Command.hgetall key)); pure (fields_of r)

abbrev pub hget : Text → Value → Program (Option Value)
hget key field = do r ← request (single (Command.hget key field)); pure (string_of r)

abbrev pub hmget : Text → List Value → Program (List (Option Value))
hmget source keys = do r ← request (single (Command.hmget source keys)); pure (slots_of r)

abbrev pub brpoplpush : Text → Text → Program (Option Value)
brpoplpush source destination = do
  r ← request (single (Command.brpoplpush source destination))
  pure (string_of r)

abbrev pub hmset : Text → List (Value × Value) → Program (Unit {0})
hmset key args = command (Command.hmset key args)

-- `execMulti(multi, cb)`: the transaction is the list of its commands in order.
abbrev pub exec_multi : List Command → Program (Unit {0})
exec_multi multi = do request (transaction multi); pure tt

abbrev pub integers_of : Reply → List ℕ
integers_of (integers ns) = ns
integers_of r = []

-- `execMulti<number>(multi, cb)`
abbrev pub exec_multi_numbers : List Command → Program (List ℕ)
exec_multi_numbers multi = do r ← request (transaction multi); pure (integers_of r)

abbrev pub eval_script : Script → Program (Option Value)
eval_script s = do r ← request (script s); pure (string_of r)

-- [major, feature, minor]
pub record Version : Type 0 where
  pub major : ℕ
  pub feature : ℕ
  pub minor : ℕ

-- `RedisClient.redisServerVersion`, `none` before the first connection.
unfoldable pub validate_redis_version : Option Version → ℕ → ℕ → ℕ → Result Bool
validate_redis_version none major feature minor = err redis_client_error
validate_redis_version (some v) major feature minor =
    ok (ltb major v.major || (v.major == major && (leb feature v.feature && leb minor v.minor)))

unfoldable pub zpoprpush : Text → Text → Program (Option Value)
zpoprpush source destination = eval_script (Script.zpoprpush source destination)

unfoldable pub zpophgetrpush : Text → Text → Text → Program (Option Value)
zpophgetrpush source source_hash destination =
    eval_script (Script.zpophgetrpush source source_hash destination)

unfoldable pub zpushhset : Text → Text → ℕ → Value → Value → Program (Unit {0})
zpushhset sorted_set hash score key_id key_value = do
  request (script (Script.zpushhset sorted_set hash score key_id key_value))
  pure tt

unfoldable pub lmove : Option Version → Text → Text → Program (Option Value)
lmove version source destination = do
  supported ← lift (validate_redis_version version 6 2 0)
  if supported
      then (do
        r ← request (single (Command.lmove_left_right source destination))
        pure (string_of r))
      else raise redis_client_error

unfoldable pub lpoprpush : Option Version → Text → Text → Program (Option Value)
lpoprpush version source destination = do
  supported ← lift (validate_redis_version version 6 2 0)
  if supported
      then lmove version source destination
      else eval_script (Script.lpoprpush source destination)
