-- ===== src/Heartbeat.antt =====
-- src/system/consumer/heartbeat.ts: the heartbeats of the consumers. The usage figures of a heartbeat
-- are left out.
use redis_smq.Prelude.{
  Text, text_eq, ℕ, ◌+◌, Bool, false, Option, none, some, List, [], ◌∷◌, leb, if◌then◌else◌,
}
use redis_smq.Errors.{Result, ok, err, syntax_error, panic_error}
use redis_smq.Keys.Parse.{ExtractedData, extract_data, consumer}
use redis_smq.Keys.Names.{get_global_keys, get_instance_keys}
use redis_smq.Redis.Value.{Value}
use redis_smq.Redis.Command.{Command}
use redis_smq.Redis.Client
use redis_smq.Redis.Client.{command}
use redis_smq.Redis.Program.{Program, pure, lift, ◌>>=◌}

-- `now - timestamp <= 10000`, on integers
unfoldable pub validate_online_timestamp : ℕ → ℕ → Bool
validate_online_timestamp now timestamp = leb now (timestamp + 10000)

-- `JSON.parse(value).timestamp`
abbrev pub timestamp_of : Value → Result ℕ
timestamp_of (Value.heartbeat t) = ok t
timestamp_of v = err syntax_error

-- One tick of a consumer's heartbeat.
unfoldable pub on_tick : Text → Text → Text → ℕ → Program (Unit {0})
on_tick namespace name id now = command (
    Command.hset get_global_keys.key_index_heartbeats
      (Value.text (get_instance_keys namespace name id).key_heartbeat) (Value.heartbeat now))

abbrev pub online_at : ℕ → Option Value → Result Bool
online_at now none = ok false
online_at now (some v) = elim (timestamp_of v) [
  | err e ↦ err e
  | ok t ↦ ok (validate_online_timestamp now t)
]

-- The heartbeat is looked up under the namespace of the process that asks.
unfoldable pub is_alive : Text → ℕ → Text → Text → Program Bool
unfolding validate_online_timestamp
is_alive namespace now name id = do
  res ←
      Client.hget get_global_keys.key_index_heartbeats
        (Value.text (get_instance_keys namespace name id).key_heartbeat)
  lift (online_at now res)

pub record ByStatus : Type 0 where
  pub valid : List Value
  pub expired : List Value

unfoldable pub sort_heartbeats : ℕ → List (Value × Value) → Result ByStatus
unfolding validate_online_timestamp
sort_heartbeats now [] = ok (record { valid = []; expired = [] })
sort_heartbeats now ((key, value) ∷ data') =
    let rest = sort_heartbeats now data' in
    elim (timestamp_of value) [
      | err e ↦ err e
      | ok t ↦ elim rest [
        | err e ↦ err e
        | ok r ↦
            if validate_online_timestamp now t
            then ok (record r { valid = key ∷ r.valid })
            else ok (record r { expired = key ∷ r.expired })
      ]
    ]

unfoldable pub get_heartbeats_by_status : ℕ → Program ByStatus
unfolding sort_heartbeats
get_heartbeats_by_status now = do
  data' ← Client.hgetall get_global_keys.key_index_heartbeats
  lift (sort_heartbeats now data')

unfoldable pub handle_expired_heartbeats : List Value → Program (Unit {0})
handle_expired_heartbeats [] = pure tt
handle_expired_heartbeats (h ∷ hs) =
    command (Command.hdel get_global_keys.key_index_heartbeats (h ∷ hs))

-- The protected `expireHeartbeat`, which `quit` calls.
unfoldable pub expire_heartbeat : Text → Text → Text → Program (Unit {0})
unfolding handle_expired_heartbeats
expire_heartbeat namespace name id =
    handle_expired_heartbeats (Value.text (get_instance_keys namespace name id).key_heartbeat ∷ [])

-- An entry of `TGetHeartbeatReply`; the resources are the heartbeat that holds them.
pub record ConsumerHeartbeat : Type 0 where
  pub consumer_id : Text
  pub ns : Text
  pub queue_name : Text
  pub resources : Value

-- `result[consumerId] = ...`
unfoldable pub put_heartbeat : ConsumerHeartbeat → List ConsumerHeartbeat → List ConsumerHeartbeat
put_heartbeat h [] = h ∷ []
put_heartbeat h (x ∷ xs) =
    let rest = put_heartbeat h xs in
    if text_eq x.consumer_id h.consumer_id then h ∷ xs else x ∷ rest

-- A part of a key that is a consumer's is there.
abbrev or_empty : Option Text → Text
or_empty none = []
or_empty (some t) = t

abbrev key_text : Value → Text
key_text (Value.text t) = t
key_text v = []

-- `!extractedData || !extractedData.consumerId`
abbrev heartbeat_of : Value → Option ExtractedData → Result ConsumerHeartbeat
heartbeat_of value none = err panic_error
heartbeat_of value (some d) = elim d.owner [
  | consumer ↦ elim d.owner_id [
    | none ↦ err panic_error
    | some [] ↦ err panic_error
    | some (c ∷ id) ↦ ok (record {
      consumer_id = c ∷ id;
      ns = or_empty d.ns;
      queue_name = or_empty d.queue_name;
      resources = value;
    })
  ]
  | _ ↦ err panic_error
]

unfoldable pub read_heartbeats :
    List (Value × Value) → List ConsumerHeartbeat → Result (List ConsumerHeartbeat)
unfolding put_heartbeat extract_data
read_heartbeats [] result = ok result
read_heartbeats ((key, value) ∷ data') result = elim (timestamp_of value) [
  | err e ↦ err e
  | ok t ↦ elim (heartbeat_of value (extract_data (key_text key))) [
    | err e ↦ err e
    | ok h ↦ read_heartbeats data' (put_heartbeat h result)
  ]
]

unfoldable pub get_heartbeats : Program (List ConsumerHeartbeat)
unfolding read_heartbeats
get_heartbeats = do
  data' ← Client.hgetall get_global_keys.key_index_heartbeats
  lift (read_heartbeats data' [])
