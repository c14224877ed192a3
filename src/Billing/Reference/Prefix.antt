-- ===== src/Billing/Reference/Prefix.antt =====
-- Prefixing a reference number.
use propnest_api.Base.{
  ◌≡◌, refl, true, Option, none, some, [], ◌∷◌, ◌++◌, arith, Bool-cases, inl, inr,
}
use propnest_api.Models.Payment.{PaymentMethod, cash, bank_transfer, gcash, maya, check}
use propnest_api.Billing.Reference.{
  Text, dashed, upper, starts_with, add_prefix, prefixed, upper_code,
}

-- no code point of the text is a small letter
abbrev IsUpper : Text → Type 0
IsUpper [] = Unit
IsUpper (c ∷ t) = (upper_code c ≡ c) × IsUpper t

starts_with-upper : (p t : Text) → IsUpper p → starts_with p (upper (p ++ t)) ≡ true
unfolding starts_with upper
starts_with-upper [] t h = refl
starts_with-upper (c ∷ p) t (a, h) = ground (arith, starts_with-upper p t h)

add_prefix_twice :
    (p r : Text) → IsUpper (dashed p) → add_prefix p (add_prefix p r) ≡ add_prefix p r
unfolding add_prefix
add_prefix_twice p r h = elim (Bool-cases (starts_with (dashed p) (upper r))) [
  | inl prefixed_already ↦ ground arith
  | inr bare ↦ ground (arith, starts_with-upper (dashed p) r h)
]

-- Resolving a reference number that has been resolved for the same method changes nothing.
pub prefixed-prefixed :
    (m : Option PaymentMethod) (o : Option Text) → prefixed m (prefixed m o) ≡ prefixed m o
unfolding prefixed
prefixed-prefixed none o = refl
prefixed-prefixed (some m) none = refl
prefixed-prefixed (some cash) (some r) = refl
prefixed-prefixed (some bank_transfer) (some r) = ground (arith, add_prefix_twice _ r)
prefixed-prefixed (some gcash) (some r) = ground (arith, add_prefix_twice _ r)
prefixed-prefixed (some maya) (some r) = ground (arith, add_prefix_twice _ r)
prefixed-prefixed (some check) (some r) = ground (arith, add_prefix_twice _ r)
