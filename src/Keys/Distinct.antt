-- ===== src/Keys/Distinct.antt =====
-- The keys of src/system/common/redis-keys/redis-keys.ts do not collide.
use redis_smq.Prelude.{
  Text, ℕ, ◌<◌, true, false, some, List, [], ◌∷◌, ◌≡◌, ◌≢◌, ap, ◌∙◌, sym, arith, text_eq,
  text_eq_refl, length,
}
use redis_smq.Errors.{ok}
use redis_smq.Keys.{
  RedisKey, number, bar, namespaced_key, is_allowed, only_allowed, validate_redis_key,
  set_namespace, global_namespace,
}
use redis_smq.Keys.Numbers.{number-injective}
use redis_smq.Keys.Parse.{Segments, NoBar, AllNoBar, get_segments, get_segments-namespaced_key}

-- Two keys that are the same text have the same namespace, number of their type, and segments.
pub namespaced_key-number :
    (ns ns' : Text) (t t' : RedisKey) (segments segments' : List Text)
    → NoBar ns
    → NoBar ns'
    → AllNoBar segments
    → AllNoBar segments'
    → namespaced_key ns t segments ≡ namespaced_key ns' t' segments'
    → (ns ≡ ns') × (number t ≡ number t') × (segments ≡ segments')
namespaced_key-number ns ns' t t' segments segments' h h' s s' e = (
  cc (ap (λ (x : Segments). x.ns) same),
  cc (ap (λ (x : Segments). x.type) same),
  ap (λ (x : Segments). x.segments) same,
)
  where
    same :
        ◌≡◌ {A = Segments}
          record { ns = some ns; type = some (number t); segments = segments }
          record { ns = some ns'; type = some (number t'); segments = segments' }
    same =
        sym (get_segments-namespaced_key ns t segments h s)
        ∙ ap get_segments e
        ∙ get_segments-namespaced_key ns' t' segments' h' s'

-- Two keys whose parts do not hold the separator are the same text only if they have the same
-- namespace, type and segments.
pub namespaced_key-injective :
    (ns ns' : Text) (t t' : RedisKey) (segments segments' : List Text)
    → NoBar ns
    → NoBar ns'
    → AllNoBar segments
    → AllNoBar segments'
    → namespaced_key ns t segments ≡ namespaced_key ns' t' segments'
    → (ns ≡ ns') × (t ≡ t') × (segments ≡ segments')
namespaced_key-injective ns ns' t t' segments segments' h h' s s' e =
    let same = namespaced_key-number ns ns' t t' segments segments' h h' s s' e in
    (same.0, number-injective t t' same.1, same.2)

is_allowed-ne-bar : (c : ℕ) → is_allowed c ≡ true → c ≢ bar
is_allowed-ne-bar c h = ground arith

only_allowed-NoBar : (s : Text) → NoBar (only_allowed s)
unfolding only_allowed
only_allowed-NoBar [] = tt
only_allowed-NoBar (c ∷ s) = ground (arith, only_allowed-NoBar s)

validated :
    (to_lower_case : Text → Text) (key : Text) {valid : Text}
    → validate_redis_key to_lower_case key ≡ ok valid
    → (valid ≡ only_allowed (to_lower_case key)) × (0 < length valid) × (length valid ≡ length key)
unfolding validate_redis_key
validated lower key h = ground arith

-- A name that passes the validation is not empty, does not hold the separator, and is as long as
-- the name that was given.
pub validate_redis_key_lem :
    (to_lower_case : Text → Text) (key : Text) {valid : Text}
    → validate_redis_key to_lower_case key ≡ ok valid
    → NoBar valid × (0 < length valid) × (length valid ≡ length key)
validate_redis_key_lem lower key h =
    let v = validated lower key h in (rw v.0 (only_allowed-NoBar (lower key)), v.1, v.2)

accepted :
    (to_lower_case : Text → Text) (ns : Text) {valid : Text}
    → set_namespace to_lower_case ns ≡ ok valid
    → (validate_redis_key to_lower_case ns ≡ ok valid) × (text_eq valid global_namespace ≡ false)
unfolding set_namespace
accepted lower ns h = ground arith

-- A namespace that is accepted is not the reserved one, is not empty and does not hold the
-- separator.
set_namespace_lem :
    (to_lower_case : Text → Text) (ns : Text) {valid : Text}
    → set_namespace to_lower_case ns ≡ ok valid
    → NoBar valid × (0 < length valid) × (valid ≢ global_namespace)
set_namespace_lem lower ns h =
    let a = accepted lower ns h in
    let v = validate_redis_key_lem lower ns a.0 in
    (v.0, v.1, λ e. cc (text_eq_refl global_namespace))
