-- ===== src/Redis/Value.antt =====
-- What the program stores in Redis. JSON texts are represented by the objects that they are the
-- texts of: `JSON.stringify` is a constructor, and `JSON.parse` takes it off.
use redis_smq.Prelude.{
  Text, Text-discrete, ℕ, ℕ_discrete, Bool, true, false, ◌&&◌, ◌||◌, Option, none, some, [], ◌∷◌,
  ◌≡◌, ◌≢◌, refl, holds, holds-true, holds-false, of_holds, ltb, ◌==◌,
}
use redis_smq.Errors.{Result, ok, err, syntax_error}
use redis_smq.Message.{Message, MessageQueue, reset}

pub data Value : Type 0 where
  -- an id, or a Redis key stored as a value
  text : Text → Value
  -- JSON.stringify(message)
  message : Message → Value
  -- JSON.stringify({ name, ns })
  queue_name : MessageQueue → Value
  -- JSON.stringify({ timestamp, usage }): the usage figures are left out
  heartbeat : ℕ → Value
  -- `${rate}|${timestamp}`
  rate : ℕ → ℕ → Value

unfoldable pub Value-discrete : Discrete Value
unfolding Text-discrete
Value-discrete = hlevel (ℕ_discrete, Text-discrete)

-- Equality of the stored texts.
unfoldable pub value_eq : Value → Value → Bool
unfolding Value-discrete Text-discrete ℕ_discrete
value_eq a b = holds (Value-discrete a b)

pub value_eq_refl : (a : Value) → value_eq a a ≡ true
unfolding value_eq
value_eq_refl a = holds-true (Value-discrete a a) refl

pub value_eq_ne : (a b : Value) → a ≢ b → value_eq a b ≡ false
unfolding value_eq
value_eq_ne a b h = holds-false (Value-discrete a b) h

pub of_value_eq : (a b : Value) → value_eq a b ≡ true → a ≡ b
unfolding value_eq
of_value_eq a b h = of_holds (Value-discrete a b) h

-- Lexicographic order of texts.
pub text_lt : Text → Text → Bool
text_lt xs [] = false
text_lt [] (y ∷ ys) = true
text_lt (x ∷ xs) (y ∷ ys) = ltb x y || (x == y && text_lt xs ys)

-- The order of members of one score: texts by bytes. JSON texts are not spelled out, so they keep
-- the order of insertion.
unfoldable pub value_lt : Value → Value → Bool
unfolding text_lt
value_lt (text a) (text b) = text_lt a b
value_lt a b = false

-- `Message.createFromMessage(json, reset)`. `fresh` is what `new Message()` makes, which
-- `Object.assign` overwrites with every field of the parsed object; assigning `null` overwrites
-- nothing.
unfoldable pub create_from_message : Message → Option Value → Bool → Result Message
create_from_message fresh none true = ok (reset fresh)
create_from_message fresh none false = ok fresh
create_from_message fresh (some (message m)) true = ok (reset m)
create_from_message fresh (some (message m)) false = ok m
create_from_message fresh (some v) r = err syntax_error
