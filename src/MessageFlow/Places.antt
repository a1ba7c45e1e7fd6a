-- ===== src/MessageFlow/Places.antt =====
-- src/system/common/redis-keys/redis-keys.ts: the places of a message have different keys, and the
-- lists at them represent an abstract queue.
use redis_smq.Prelude.{
  Text, text_eq, text_eq_refl, text_eq_ne, true, false, List, [], ◌∷◌, ◌++◌, ◌≡◌, ◌≢◌, refl, ap,
  sym, ◌∙◌, arith, map, Bool-cases, inl, inr,
}
use redis_smq.Message.{Message}
use redis_smq.Keys.{global_namespace, number, namespaced_key}
use redis_smq.Keys.Parse.{NoBar, AllNoBar}
use redis_smq.Keys.Distinct.{namespaced_key-number}
use redis_smq.Redis.Value.{Value}
use redis_smq.Redis.Keyspace.{Keyspace, set_list}
use redis_smq.Redis.Scripts.Moves.{IsListKey}
use redis_smq.Handlers.Processing.Settling.{HasNames}
use redis_smq.MessageFlow.{
  Setting, processing_of, Place, ready, held, acknowledged, dead, delayed, requeued, place_type,
  same_place, Contents, put, add_first, add_last,
}

abbrev place_namespace : Setting → Place → Text
place_namespace c delayed = global_namespace
place_namespace c requeued = global_namespace
place_namespace c p = c.broker.namespace

abbrev place_segments : Setting → Place → List Text
place_segments c held = c.name ∷ c.id ∷ []
place_segments c delayed = []
place_segments c requeued = []
place_segments c p = c.name ∷ []

-- The Redis list of a place.
abbrev pub place_key : Setting → Place → Text
place_key c p = namespaced_key (place_namespace c p) (place_type p) (place_segments c p)

abbrev pub encode : List Message → List Value
encode ms = map Value.message ms

pub encode-append : (ms ns : List Message) → encode (ms ++ ns) ≡ encode ms ++ encode ns
encode-append [] ns = refl
encode-append (m ∷ ms) ns = ap (λ t. Value.message m ∷ t) (encode-append ms ns)

-- A database represents an abstract queue: each list holds the messages of its place, and nothing else
-- stands at the key of the processing queue.
pub record Represents (c : Setting) (s : Keyspace) (q : Contents) : Type 0 where
  pub lists : (p : Place) → s.lists (place_key c p) ≡ encode (q p)
  pub is_list : IsListKey (processing_of c) s

place_eq : (p q : Place) → number (place_type p) ≡ number (place_type q) → p ≡ q
place_eq ready ready h = refl
place_eq held held h = refl
place_eq acknowledged acknowledged h = refl
place_eq dead dead h = refl
place_eq delayed delayed h = refl
place_eq requeued requeued h = refl
place_eq _ _ h = absurd (omega arith)

same_place_refl : (p : Place) → same_place p p ≡ true
same_place_refl p = ground arith

apart : (p q : Place) → same_place p q ≡ false → p ≢ q
apart p q h e = cc (h, same_place_refl q, ap (λ r. same_place r q) e)

module _ (c : Setting) (names : HasNames c.broker.namespace c.name c.id) where
  namespace_ok : (p : Place) → NoBar (place_namespace c p)
  namespace_ok delayed = omega arith
  namespace_ok requeued = omega arith
  namespace_ok _ = names.namespace_ok

  segments_ok : (p : Place) → AllNoBar (place_segments c p)
  segments_ok held = (names.name_ok, (names.id_ok, tt))
  segments_ok delayed = tt
  segments_ok requeued = tt
  segments_ok _ = (names.name_ok, tt)

  place_key-injective : (p q : Place) → place_key c p ≡ place_key c q → p ≡ q
  place_key-injective p q e =
      place_eq p q
        (namespaced_key-number (place_namespace c p) (place_namespace c q) (place_type p)
          (place_type q) (place_segments c p) (place_segments c q) (namespace_ok p) (namespace_ok q)
          (segments_ok p) (segments_ok q) e).1

  place_key-eq : (p q : Place) → text_eq (place_key c p) (place_key c q) ≡ same_place p q
  place_key-eq p q = elim (Bool-cases (same_place p q)) [
    | inl e ↦
        ap (λ r. text_eq (place_key c r) (place_key c q)) (place_eq p q (ground arith))
        ∙ text_eq_refl (place_key c q)
        ∙ sym e
    | inr e ↦ text_eq_ne _ _ (λ k. apart p q e (place_key-injective p q k)) ∙ sym e
  ]

  -- Writing the list of one place writes that place, and no other.
  pub set_list-Represents :
      (p : Place) (ms : List Message) {vs : List Value} {s : Keyspace} {q : Contents}
      → vs ≡ encode ms
      → Represents c s q
      → Represents c (set_list (place_key c p) vs s) (put p ms q)
  set_list-Represents p ms {vs} {s} {q} e h = record {
    lists = λ r. elim (Bool-cases (same_place p r)) [
      | inl b ↦ simp (place_key-eq p r, b, e)
      | inr b ↦ simp (place_key-eq p r, b, h.lists r)
    ];
    is_list = record {
      no_zset = h.is_list.no_zset;
      no_hash = h.is_list.no_hash;
      no_set = h.is_list.no_set;
    };
  }

  pub set_first-Represents :
      (p : Place) (m : Message) {vs : List Value} {s : Keyspace} {q : Contents}
      → vs ≡ encode (q p)
      → Represents c s q
      → Represents c (set_list (place_key c p) (Value.message m ∷ vs) s) (add_first p m q)
  set_first-Represents p m {vs} {s} {q} e h =
      set_list-Represents p (m ∷ q p) (ap (λ t. Value.message m ∷ t) e) h

  pub set_last-Represents :
      (p : Place) (m : Message) {vs : List Value} {s : Keyspace} {q : Contents}
      → vs ≡ encode (q p)
      → Represents c s q
      → Represents c (set_list (place_key c p) (vs ++ Value.message m ∷ []) s) (add_last p m q)
  set_last-Represents p m {vs} {s} {q} e h =
      set_list-Represents p (q p ++ m ∷ [])
        (ap (λ t. t ++ Value.message m ∷ []) e ∙ sym (encode-append (q p) (m ∷ []))) h
