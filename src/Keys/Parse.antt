-- ===== src/Keys/Parse.antt =====
-- src/system/common/redis-keys/redis-keys.ts: getSegments and extractData, the inverses of the key
-- names.
use redis_smq.Prelude.{
  Text, ℕ, ◌+◌, ◌-◌, ◌*◌, Bool, ◌||◌, Option, none, some, List, [], ◌∷◌, ◌++◌, ◌≡◌, ◌≢◌, refl, ap,
  ◌∙◌, ◌==◌, leb, ◌&&◌, if◌then◌else◌, arith,
}
use redis_smq.Keys.{RedisKey, number, bar, join_segments, show_number, namespaced_key, ns_prefix}

-- Puts a character in front of the first part.
unfoldable pub cons_head : ℕ → List Text → List Text
cons_head c [] = (c ∷ []) ∷ []
cons_head c (x ∷ xs) = (c ∷ x) ∷ xs

-- `key.split('|')`
unfoldable pub split : Text → List Text
unfolding cons_head
split [] = [] ∷ []
split (c ∷ s) = let rest = split s in if c == bar then [] ∷ rest else cons_head c rest

-- `Number(type)` of a text of digits; `none` stands for NaN.
abbrev digit : ℕ → Option ℕ → Option ℕ
digit c none = none
digit c (some n) = if leb 48 c && leb c 57 then some (n * 10 + (c - 48)) else none

unfoldable pub to_number : Option ℕ → Text → Option ℕ
to_number acc [] = acc
to_number acc (c ∷ s) = to_number (digit c acc) s

pub record Segments : Type 0 where
  pub ns : Option Text
  pub type : Option ℕ
  pub segments : List Text

-- `const [, ns, type, ...segments] = parts`, where a missing part is `undefined`.
abbrev pub segments_of : List Text → Segments
segments_of (p ∷ ns ∷ type ∷ rest) = record {
  ns = some ns;
  type = to_number (some 0) type;
  segments = rest;
}
segments_of (p ∷ ns ∷ []) = record { ns = some ns; type = none; segments = [] }
segments_of _ = record { ns = none; type = none; segments = [] }

unfoldable pub get_segments : Text → Segments
unfolding split to_number
get_segments key = segments_of (split key)

pub data Owner : Type 0 where
  nobody consumer producer : Owner

pub record ExtractedData : Type 0 where
  pub ns : Option Text
  pub type : ℕ
  pub queue_name : Option Text
  pub owner : Owner
  pub owner_id : Option Text

abbrev first : List Text → Option Text
first [] = none
first (x ∷ xs) = some x

abbrev second : List Text → Option Text
second (x ∷ y ∷ xs) = some y
second _ = none

abbrev is_queue_type : ℕ → Bool
is_queue_type t =
    t == number RedisKey.queue
    || (t == number RedisKey.queue_priority
        || (t == number RedisKey.queue_acknowledged_messages || t == number RedisKey.queue_dl))

abbrev is_consumer_type : ℕ → Bool
is_consumer_type t =
    t == number RedisKey.queue_processing
    || (t == number RedisKey.rate_consumer_processing
        || (t == number RedisKey.rate_consumer_acknowledged
            || (t == number RedisKey.rate_consumer_unacknowledged
                || t == number RedisKey.heartbeat)))

abbrev pub extract : Option Text → Option ℕ → List Text → Option ExtractedData
extract ns none segments = none
extract ns (some t) segments =
    if is_queue_type t
    then some
        (record { ns = ns; type = t; queue_name = first segments; owner = nobody; owner_id = none })
    else if is_consumer_type t
    then some (record {
      ns = ns;
      type = t;
      queue_name = first segments;
      owner = consumer;
      owner_id = second segments;
    })
    else if t == number RedisKey.rate_producer_input
    then some (record {
      ns = ns;
      type = t;
      queue_name = first segments;
      owner = producer;
      owner_id = second segments;
    })
    else none

unfoldable pub extract_data : Text → Option ExtractedData
unfolding get_segments
extract_data key = let s = get_segments key in extract s.ns s.type s.segments

-- A text without the separator.
abbrev pub NoBar : Text → Type 0
NoBar [] = Unit
NoBar (c ∷ s) = (c ≢ bar) × NoBar s

abbrev pub AllNoBar : List Text → Type 0
AllNoBar [] = Unit
AllNoBar (x ∷ xs) = NoBar x × AllNoBar xs

split-NoBar : (x : Text) → NoBar x → split x ≡ x ∷ []
unfolding split
split-NoBar [] h = refl
split-NoBar (c ∷ s) h = ground (arith, split-NoBar s h.1)

split-append : (x s : Text) → NoBar x → split (x ++ bar ∷ s) ≡ x ∷ split s
unfolding split
split-append [] s h = refl
split-append (c ∷ x) s h = ground (arith, split-append x s h.1)

-- Splitting is the inverse of joining segments that do not hold the separator.
pub split-join_segments :
    (x : Text) (xs : List Text) → NoBar x → AllNoBar xs → split (join_segments (x ∷ xs)) ≡ x ∷ xs
unfolding join_segments
split-join_segments x [] h hs = split-NoBar x h
split-join_segments x (y ∷ ys) h hs =
    split-append x (join_segments (y ∷ ys)) h ∙ ap (λ r. x ∷ r) (split-join_segments y ys hs.0 hs.1)

show_number-NoBar : (t : RedisKey) → NoBar (show_number (number t))
unfolding show_number
show_number-NoBar RedisKey.queue = omega arith
show_number-NoBar _ = omega arith

pub to_number-show_number :
    (t : RedisKey) → to_number (some 0) (show_number (number t)) ≡ some (number t)
unfolding to_number show_number
to_number-show_number RedisKey.queue = refl
to_number-show_number _ = refl

pub split-namespaced_key :
    (ns : Text) (t : RedisKey) (segments : List Text)
    → NoBar ns
    → AllNoBar segments
    → split (namespaced_key ns t segments) ≡ ns_prefix ∷ ns ∷ show_number (number t) ∷ segments
unfolding namespaced_key
split-namespaced_key ns t segments h hs =
    split-append ns_prefix _ (omega arith)
    ∙ ap (λ r. ns_prefix ∷ r)
        (split-append ns _ h
          ∙ ap (λ r. ns ∷ r)
              (split-join_segments (show_number (number t)) segments (show_number-NoBar t) hs))

-- A key of any type, in a namespace and with segments that do not hold the separator, is read back
-- as its namespace, the number of its type and its segments.
pub get_segments-namespaced_key :
    (ns : Text) (t : RedisKey) (segments : List Text)
    → NoBar ns
    → AllNoBar segments
    → get_segments (namespaced_key ns t segments)
      ≡ record { ns = some ns; type = some (number t); segments = segments }
unfolding get_segments
get_segments-namespaced_key ns t segments h hs =
    ap segments_of (split-namespaced_key ns t segments h hs)
    ∙ (λ i. record { ns = some ns; type = to_number-show_number t i; segments = segments })
