-- ===== src/Redis/Keyspace.antt =====
-- The content of a Redis database, a container at each key: an absent key is an empty container.
pub mod Fields
pub mod Ids
use redis_smq.Prelude.{
  Text, text_eq, ℕ, suc, ◌-◌, Bool, false, ◌&&◌, ◌||◌, Option, none, some, List, [], ◌∷◌, ◌++◌, ltb,
  leb, ◌==◌, if◌then◌else◌, take, drop,
}
use redis_smq.Redis.Value.{Value, value_eq, value_lt}

pub record Keyspace : Type 0 where
  pub lists : Text → List Value
  -- members with their scores, in the order of score and member
  pub zsets : Text → List (Value × ℕ)
  -- fields with their values
  pub hashes : Text → List (Value × Value)
  pub sets : Text → List Value
  -- Redlock's locks: who holds one, by the random value of the holder
  pub locks : Text → Option Text

abbrev pub empty : Keyspace
empty = record {
  lists = λ k. [];
  zsets = λ k. [];
  hashes = λ k. [];
  sets = λ k. [];
  locks = λ k. none;
}

abbrev pub update {ℓ} : {A : Type ℓ} → (Text → A) → Text → A → Text → A
update f k v j = if text_eq k j then v else f j

abbrev pub set_list : Text → List Value → Keyspace → Keyspace
set_list k v s = record s { lists = update s.lists k v }

abbrev pub set_zset : Text → List (Value × ℕ) → Keyspace → Keyspace
set_zset k v s = record s { zsets = update s.zsets k v }

abbrev pub set_hash : Text → List (Value × Value) → Keyspace → Keyspace
set_hash k v s = record s { hashes = update s.hashes k v }

abbrev pub set_set : Text → List Value → Keyspace → Keyspace
set_set k v s = record s { sets = update s.sets k v }

abbrev pub set_lock : Text → Option Text → Keyspace → Keyspace
set_lock k v s = record s { locks = update s.locks k v }

-- The elements from index `start` to index `stop`, both included.
abbrev pub slice {ℓ} : {A : Type ℓ} → ℕ → ℕ → List A → List A
slice start stop xs = take (suc stop - start) (drop start xs)

-- Without the first occurrence.
unfoldable pub remove_first : Value → List Value → List Value
remove_first v [] = []
remove_first v (x ∷ xs) = let rest = remove_first v xs in if value_eq x v then xs else x ∷ rest

unfoldable pub contains : Value → List Value → Bool
contains v [] = false
contains v (x ∷ xs) = value_eq x v || contains v xs

module _ {ℓ} {A : Type ℓ} where
  -- Without the entries of a key.
  unfoldable pub without : Value → List (Value × A) → List (Value × A)
  without v [] = []
  without v ((x, a) ∷ xs) = let rest = without v xs in if value_eq x v then rest else (x, a) ∷ rest

  unfoldable pub find : Value → List (Value × A) → Option A
  find v [] = none
  find v ((x, a) ∷ xs) = if value_eq x v then some a else find v xs

  abbrev pub keys : List (Value × A) → List Value
  keys [] = []
  keys ((x, a) ∷ xs) = x ∷ keys xs

-- Whether the entry (v, s) stands before (x, t).
abbrev before : Value → ℕ → Value → ℕ → Bool
before v s x t = ltb s t || (s == t && value_lt v x)

unfoldable pub insert_ranked : Value → ℕ → List (Value × ℕ) → List (Value × ℕ)
insert_ranked v s [] = (v, s) ∷ []
insert_ranked v s ((x, t) ∷ xs) =
    let rest = insert_ranked v s xs in
    if before v s x t then (v, s) ∷ (x, t) ∷ xs else (x, t) ∷ rest

unfoldable pub put_ranked : Value → ℕ → List (Value × ℕ) → List (Value × ℕ)
put_ranked v s xs = insert_ranked v s (without v xs)

unfoldable pub put_field : Value → Value → List (Value × Value) → List (Value × Value)
put_field f v xs = (f, v) ∷ without f xs

unfoldable pub put_fields : List (Value × Value) → List (Value × Value) → List (Value × Value)
unfolding put_field
put_fields [] xs = xs
put_fields ((f, v) ∷ fvs) xs = put_fields fvs (put_field f v xs)

unfoldable pub without_all : List Value → List (Value × Value) → List (Value × Value)
without_all [] xs = xs
without_all (f ∷ fs) xs = without_all fs (without f xs)

unfoldable pub add_member : Value → List Value → List Value
add_member v xs = if contains v xs then xs else xs ++ v ∷ []

-- Members whose score lies between the bounds.
unfoldable pub scored_between : ℕ → ℕ → List (Value × ℕ) → List Value
scored_between lo hi [] = []
scored_between lo hi ((x, t) ∷ xs) =
    let rest = scored_between lo hi xs in if leb lo t && leb t hi then x ∷ rest else rest

unfoldable pub find_all : List Value → List (Value × Value) → List (Option Value)
find_all [] xs = []
find_all (f ∷ fs) xs = find f xs ∷ find_all fs xs
