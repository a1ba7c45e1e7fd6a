-- ===== src/Redis/Keyspace/Ids.antt =====
-- Entries of a sorted set or a hash under ids.
use redis_smq.Prelude.{
  Text, text_eq, text_eq_refl, text_eq_ne, of_text_eq, Bool, true, false, ◌||◌, List, [], ◌∷◌, ◌≡◌,
  refl, ap, sym, ◌∙◌, Bool-cases, inl, inr,
}
use redis_smq.Message.{Message}
use redis_smq.Redis.Value.{Value, value_eq, value_eq_refl, value_eq_ne}
use redis_smq.Redis.Keyspace.{without, find}
use redis_smq.Redis.Keyspace.Fields.{find-without_ne}

-- Whether one of the messages has an id.
unfoldable pub has_id : Text → List Message → Bool
has_id id [] = false
has_id id (m ∷ ms) = text_eq m.uuid id || has_id id ms

pub value_eq-text : (a b : Text) → value_eq (Value.text a) (Value.text b) ≡ text_eq a b
value_eq-text a b = elim (Bool-cases (text_eq a b)) [
  | inl e ↦
      ap (λ t. value_eq (Value.text t) (Value.text b)) (of_text_eq a b e)
      ∙ value_eq_refl (Value.text b)
      ∙ sym e
  | inr e ↦ value_eq_ne _ _ (λ p. absurd (cc (p, e, text_eq_refl a))) ∙ sym e
]

pub find-without :
    (a b : Text) (fields : List (Value × Value))
    → text_eq a b ≡ false
    → find (Value.text b) (without (Value.text a) fields) ≡ find (Value.text b) fields
find-without a b fields ne =
    find-without_ne (Value.text b) (Value.text a) fields (value_eq-text a b ∙ ne)

pub or_false : (a b : Bool) → a || b ≡ false → (a ≡ false) × (b ≡ false)
or_false false b h = (refl, h)
or_false true b h = absurd (cc h)

pub text_eq_swap : (a b : Text) → text_eq a b ≡ false → text_eq b a ≡ false
text_eq_swap a b e = text_eq_ne b a (λ p. cc (e, ap (text_eq a) p, text_eq_refl a))
