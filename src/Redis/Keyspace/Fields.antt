-- ===== src/Redis/Keyspace/Fields.antt =====
-- The fields of a hash: what is found after a field is written.
use redis_smq.Prelude.{some, List, [], ◌∷◌, ◌≡◌, ◌≢◌, refl, ap, ◌∙◌, Bool-cases, inl, inr, false}
use redis_smq.Redis.Value.{Value, value_eq, value_eq_refl, value_eq_ne, of_value_eq}
use redis_smq.Redis.Keyspace.{find, without, put_field}

pub find-without_ne :
    (v w : Value) (xs : List (Value × Value))
    → value_eq w v ≡ false
    → find v (without w xs) ≡ find v xs
unfolding find without
find-without_ne v w [] h = refl
find-without_ne v w ((x, y) ∷ xs) h = elim (Bool-cases (value_eq x w)) [
  | inl e ↦ simp (e, ap (λ u. value_eq u v) (of_value_eq x w e) ∙ h, find-without_ne v w xs h)
  | inr e ↦ simp (e, find-without_ne v w xs h)
]

pub find-put_field_ne :
    (v w z : Value) (xs : List (Value × Value)) → w ≢ v → find v (put_field w z xs) ≡ find v xs
unfolding find put_field
find-put_field_ne v w z xs h = simp (value_eq_ne w v h, find-without_ne v w xs (value_eq_ne w v h))

pub find-put_field : (v z : Value) (xs : List (Value × Value)) → find v (put_field v z xs) ≡ some z
unfolding find put_field
find-put_field v z xs = simp (value_eq_refl v)
