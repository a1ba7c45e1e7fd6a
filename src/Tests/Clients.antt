-- ===== src/Tests/Clients.antt =====
-- Examples of the keys, the Redis client and the locks.
use redis_smq.Prelude.{
  Text, codes, ◌<◌, false, none, some, [], ◌∷◌, ◌≡◌, refl, arith, length, text_eq_refl,
}
use redis_smq.Errors.{ok}
use redis_smq.Keys.{RedisKey, number, namespaced_key, validate_redis_key}
use redis_smq.Keys.Parse.{NoBar, get_segments, get_segments-namespaced_key}
use redis_smq.Keys.Distinct.{namespaced_key-injective, validate_redis_key_lem}
use redis_smq.Redis.Value.{Value}
use redis_smq.Redis.Keyspace.{Keyspace, empty, set_zset, set_lock}
use redis_smq.Redis.Command.{first_reply, move_first}
use redis_smq.Redis.Scripts.Moves.{IsListKey}
use redis_smq.Redis.Client.{lpoprpush, string_of}
use redis_smq.Redis.Client.Moves.{lpoprpush_lem}
use redis_smq.Redis.Program.{Program, done, exec, pure}
use redis_smq.Redis.Server.{result, content}
use redis_smq.LockManager.{acquire_lock, lock_fn}
use redis_smq.LockManager.Leases.{lock_fn-free, acquire_lock_lost, held_lock}
use redis_smq.Tests.Samples.{
  server, server-IsReliable, shop, orders, worker, version, processing, at_work,
}

namespaced_key-injective_example :
    (shop ≡ shop) × (RedisKey.queue ≡ RedisKey.queue) × (orders ∷ [] ≡ orders ∷ [])
namespaced_key-injective_example =
    namespaced_key-injective shop shop RedisKey.queue RedisKey.queue (orders ∷ []) (orders ∷ [])
      (omega arith) (omega arith) (omega arith, tt) (omega arith, tt) refl

get_segments-namespaced_key_example :
    get_segments (namespaced_key shop RedisKey.queue_dl (orders ∷ []))
    ≡ record { ns = some shop; type = some (number RedisKey.queue_dl); segments = orders ∷ [] }
get_segments-namespaced_key_example =
    get_segments-namespaced_key shop RedisKey.queue_dl (orders ∷ []) (omega arith) (omega arith, tt)

abbrev lower : Text → Text
lower t = t

validate_redis_key_lem_example :
    NoBar orders × (0 < length orders) × (length orders ≡ length orders)
unfolding validate_redis_key
validate_redis_key_lem_example = validate_redis_key_lem lower orders {valid = orders} refl

processing-IsListKey : IsListKey processing at_work
processing-IsListKey = record { no_zset = refl; no_hash = refl; no_set = refl }

lpoprpush_lem_example :
    (result server (lpoprpush (some version) processing orders) at_work
      ≡ done (string_of (first_reply (at_work.lists processing))))
    × (content server (lpoprpush (some version) processing orders) at_work
        ≡ move_first processing orders (at_work.lists processing) at_work)
lpoprpush_lem_example =
    lpoprpush_lem server server-IsReliable at_work version processing orders processing-IsListKey

abbrev ranked : Keyspace
ranked = set_zset orders ((Value.text (codes "m1"), 4) ∷ []) empty

abbrev nothing : Program (Unit {0})
nothing = pure tt

lock_fn-free_example :
    (result server (lock_fn worker orders nothing) empty ≡ done tt)
    × (content server (lock_fn worker orders nothing) empty
        ≡ set_lock orders none (set_lock orders (some worker) empty))
unfolding exec
lock_fn-free_example =
    lock_fn-free server server-IsReliable empty worker orders nothing
      (set_lock orders (some worker) empty) (ok tt) refl refl (rw (text_eq_refl orders) refl)

abbrev taken : Keyspace
taken = set_lock orders (some shop) empty

acquire_lock_lost_example :
    (result server (acquire_lock 3 worker (held_lock orders)) empty
      ≡ done (held_lock orders, false))
    × (content server (acquire_lock 3 worker (held_lock orders)) empty ≡ empty)
acquire_lock_lost_example = acquire_lock_lost server server-IsReliable empty 3 worker orders refl
