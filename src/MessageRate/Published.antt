-- ===== src/MessageRate/Published.antt =====
-- src/system/message-rate.ts with src/monitor-server/workers/stats.worker.ts: from a consumer's rates to
-- the statistics.
use redis_smq.Prelude.{
  Text, text_eq_refl, ℕ, ◌+◌, ◌≤◌, false, some, none, List, [], ◌∷◌, ◌≡◌, ◌≢◌, refl, ap, ◌∙◌, arith,
}
use redis_smq.Keys.{RedisKey, number, namespaced_key}
use redis_smq.Keys.Names.{get_global_keys, get_instance_keys}
use redis_smq.Keys.Parse.{extract_data, extract, Segments, get_segments-namespaced_key}
use redis_smq.Keys.Distinct.{namespaced_key-number}
use redis_smq.Redis.Value.{Value, value_eq, value_eq_ne}
use redis_smq.Redis.Keyspace.{Keyspace, set_hash, put_fields, put_field, without}
use redis_smq.Redis.Command.{effect, reply, blocks}
use redis_smq.Redis.Program.{
  request_effect, request_reply, request_blocks, done, exec, exec-bind, continue, ◌>>◌,
}
use redis_smq.Redis.Server.{Server, IsReliable, result, run-exec}
use redis_smq.Handlers.Processing.Settling.{HasNames}
use redis_smq.Consumer.Rate.{MessageRate, get_rate_fields}
use redis_smq.StatsWorker.{Stats, no_stats, new_queue, handle_consumer_rate, at_queue, at_consumer}
use redis_smq.StatsWorker.Tick.{get_rates, drop_expired, read_rates, has_expired, handle_rate}
use redis_smq.MessageRate.{on_tick, format_rate_fields, publish}

plus_zero : (n : ℕ) → 0 + n ≡ n
plus_zero n = omega arith

text_of : Value → Text
text_of (Value.text t) = t
text_of v = []

module _ (namespace name id : Text) (names : HasNames namespace name id) where
  key-ne :
      (t u : RedisKey)
      → number t ≢ number u
      → value_eq
          (Value.text (namespaced_key namespace t (name ∷ id ∷ [])))
          (Value.text (namespaced_key namespace u (name ∷ id ∷ [])))
        ≡ false
  unfolding text_of
  key-ne t u ne = value_eq_ne _ _ λ e.
      ne
        (namespaced_key-number namespace namespace t u (name ∷ id ∷ []) (name ∷ id ∷ [])
          names.namespace_ok names.namespace_ok (names.name_ok, (names.id_ok, tt))
          (names.name_ok, (names.id_ok, tt)) (ap text_of e)).1

  -- The hash after a tick, if it was empty.
  abbrev published : ℕ → MessageRate → List (Value × Value)
  published now r =
      let keys = get_instance_keys namespace name id in
      (Value.text keys.key_rate_consumer_unacknowledged, Value.rate r.unacknowledged_rate now)
      ∷ (Value.text keys.key_rate_consumer_acknowledged, Value.rate r.acknowledged_rate now)
      ∷ (Value.text keys.key_rate_consumer_processing, Value.rate r.processing_rate now)
      ∷ []

  put_fields-format_rate_fields :
      (now : ℕ) (r : MessageRate)
      → put_fields (format_rate_fields namespace name id now r) [] ≡ published now r
  unfolding put_fields put_field without format_rate_fields
  put_fields-format_rate_fields now r =
      rw
        (key-ne RedisKey.rate_consumer_processing RedisKey.rate_consumer_acknowledged (omega arith))
        (rw
          (
            without,
            key-ne RedisKey.rate_consumer_acknowledged RedisKey.rate_consumer_unacknowledged
                (omega arith),
          )
          (rw
            (
              without,
              key-ne RedisKey.rate_consumer_processing RedisKey.rate_consumer_unacknowledged
                  (omega arith),
            )
            refl))

  extracted :
      (t : RedisKey)
      → extract_data (namespaced_key namespace t (name ∷ id ∷ []))
        ≡ extract (some namespace) (some (number t)) (name ∷ id ∷ [])
  unfolding extract_data
  extracted t =
      ap (λ (s : Segments). extract s.ns s.type s.segments)
        (get_segments-namespaced_key namespace t (name ∷ id ∷ []) names.namespace_ok
          (names.name_ok, (names.id_ok, tt)))

-- What a consumer with rates makes of statistics that have none.
abbrev pub with_rates : Text → Text → Text → MessageRate → Stats
with_rates namespace name id r = record {
  scheduled_messages = 0;
  rates = record {
    input = 0;
    processing = r.processing_rate;
    acknowledged = r.acknowledged_rate;
    unacknowledged = r.unacknowledged_rate;
  };
  queues =
      record (new_queue namespace name) {
        consumers =
            record {
              id = id;
              namespace = namespace;
              queue_name = name;
              rates = some (record {
                processing = r.processing_rate;
                acknowledged = r.acknowledged_rate;
                unacknowledged = r.unacknowledged_rate;
              });
              resources = none;
            }
            ∷ [];
      }
      ∷ [];
}

module _ (namespace name : Text) (c : ℕ) (i : Text) (names : HasNames namespace name (c ∷ i))
    (now later : ℕ) (soon : later ≤ now + 1000) (r : MessageRate) where
  fresh : has_expired later now ≡ false
  unfolding has_expired
  fresh = ground arith

  abbrev line : RedisKey → ℕ → Value × Value
  line t n = (Value.text (namespaced_key namespace t (name ∷ (c ∷ i) ∷ [])), Value.rate n now)

  abbrev counted : RedisKey → ℕ → Stats → Stats
  counted t n s = handle_rate (extract (some namespace) (some (number t)) (name ∷ (c ∷ i) ∷ [])) n s

  -- One entry of the hash.
  entry :
      (t : RedisKey) (n : ℕ) (es : List (Value × Value)) (s : Stats)
      → read_rates later (line t n ∷ es) s ≡ read_rates later es (counted t n s)
  unfolding read_rates
  entry t n es s =
      rw fresh (
        ap (λ x. read_rates later es (handle_rate x n s))
          (extracted namespace name (c ∷ i) names t))

  abbrev counted_twice : Stats
  counted_twice =
      counted RedisKey.rate_consumer_acknowledged r.acknowledged_rate
        (counted RedisKey.rate_consumer_unacknowledged r.unacknowledged_rate no_stats)

  counted_lem :
      counted RedisKey.rate_consumer_processing r.processing_rate counted_twice
      ≡ with_rates namespace name (c ∷ i) r
  unfolding handle_consumer_rate at_queue at_consumer
  counted_lem = simp (text_eq_refl namespace, text_eq_refl name, text_eq_refl (c ∷ i), plus_zero)

  read_rates-published :
      read_rates later (published namespace name (c ∷ i) names now r) no_stats
      ≡ (with_rates namespace name (c ∷ i) r, [])
  unfolding read_rates
  read_rates-published =
      entry RedisKey.rate_consumer_unacknowledged r.unacknowledged_rate
        (line RedisKey.rate_consumer_acknowledged r.acknowledged_rate
          ∷ line RedisKey.rate_consumer_processing r.processing_rate
          ∷ [])
        no_stats
      ∙ entry RedisKey.rate_consumer_acknowledged r.acknowledged_rate
          (line RedisKey.rate_consumer_processing r.processing_rate ∷ [])
          (counted RedisKey.rate_consumer_unacknowledged r.unacknowledged_rate no_stats)
      ∙ entry RedisKey.rate_consumer_processing r.processing_rate [] counted_twice
      ∙ ap (λ x. (x, [])) counted_lem

  exec-on_tick :
      (slots : MessageRate) (s : Keyspace)
      → exec (on_tick namespace name (c ∷ i) now slots) s ≡ (
        done (get_rate_fields slots),
        set_hash get_global_keys.key_index_rates
            (put_fields
              (format_rate_fields namespace name (c ∷ i) now (get_rate_fields slots))
              (s.hashes get_global_keys.key_index_rates))
            s,
      )
  unfolding on_tick publish exec request_effect request_reply request_blocks effect reply blocks
  exec-on_tick slots s = refl

  exec-get_rates :
      (stats stats' : Stats) (s : Keyspace)
      → read_rates later (s.hashes get_global_keys.key_index_rates) stats ≡ (stats', [])
      → exec (get_rates later stats) s ≡ (done stats', s)
  unfolding get_rates exec request_effect request_reply request_blocks effect reply blocks
  exec-get_rates stats stats' s e = ap (λ x. exec (drop_expired x) s) e

module _ (namespace name : Text) (c : ℕ) (i : Text) (names : HasNames namespace name (c ∷ i))
    (now later : ℕ) where
  exec-tick_then_get :
      (slots : MessageRate) (s : Keyspace)
      → later ≤ now + 1000
      → s.hashes get_global_keys.key_index_rates ≡ []
      → (exec (on_tick namespace name (c ∷ i) now slots >> get_rates later no_stats) s).0
        ≡ done (with_rates namespace name (c ∷ i) (get_rate_fields slots))
  exec-tick_then_get slots s soon empty =
      let r = get_rate_fields slots in
      let s' =
        set_hash get_global_keys.key_index_rates
          (put_fields (format_rate_fields namespace name (c ∷ i) now r)
            (s.hashes get_global_keys.key_index_rates))
          s in
      ap (λ x. x.0)
        (exec-bind (λ _. get_rates later no_stats) (on_tick namespace name (c ∷ i) now slots) s
          ∙ ap (λ x. continue x (λ _. get_rates later no_stats))
              (exec-on_tick namespace name c i names now later soon r slots s)
          ∙ exec-get_rates namespace name c i names now later soon r no_stats
              (with_rates namespace name (c ∷ i) r) s'
              (simp (text_eq_refl get_global_keys.key_index_rates, empty)
                (ap (λ es. read_rates later es no_stats)
                    (put_fields-format_rate_fields namespace name (c ∷ i) names now r)
                  ∙ read_rates-published namespace name c i names now later soon r)))

  -- A consumer with names that do not hold the separator and an id that is not empty publishes its
  -- rates, on a reliable server that holds no rates; at most a second later the statistics worker,
  -- after its reset, reads the rates. It finds this consumer under its namespace and its queue with
  -- just the rates of its tick: the sums of its three rows of slots. The totals are these rates, with
  -- no input, and there is nobody else.
  pub on_tick-get_rates :
      (S : Server) (reliable : IsReliable S) (d : S.Db) (slots : MessageRate)
      → later ≤ now + 1000
      → (S.view d).hashes get_global_keys.key_index_rates ≡ []
      → result S (on_tick namespace name (c ∷ i) now slots >> get_rates later no_stats) d
        ≡ done (with_rates namespace name (c ∷ i) (get_rate_fields slots))
  on_tick-get_rates S reliable d slots soon empty =
      (run-exec S reliable (on_tick namespace name (c ∷ i) now slots >> get_rates later no_stats)
        d).0
      ∙ exec-tick_then_get slots (S.view d) soon empty
