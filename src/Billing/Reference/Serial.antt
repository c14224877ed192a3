-- ===== src/Billing/Reference/Serial.antt =====
-- Reading the number of a cash reference back.
use mathlib.Core.List.{reverse_aux}
use propnest_api.Base.{
  ℕ, zero, suc, ◌+◌, ◌-◌, ◌*◌, ◌/◌, ◌<◌, ◌≡◌, refl, ap, ◌∙◌, [], ◌∷◌, arith, Bool-cases, inl, inr,
  ◌==◌, drop,
}
use propnest_api.Billing.Reference.{Text, digits_rev, pad4, cash_reference}

-- the number that digits stand for, the last digit first
abbrev digits_value : Text → ℕ
digits_value [] = 0
digits_value (d ∷ ds) = (d - b'0') + 10 * digits_value ds

digits_value-digits_rev : (f n : ℕ) → n < f → digits_value (digits_rev f n) ≡ n
unfolding digits_rev
digits_value-digits_rev zero n h = ground arith
digits_value-digits_rev (suc f) n h = elim (Bool-cases (n / 10 == 0)) [
  | inl done ↦ ground arith
  | inr more ↦ ground (arith, digits_value-digits_rev f (n / 10))
]

-- decimal, the first digit first, after a number
abbrev pub decimal : ℕ → Text → ℕ
decimal acc [] = acc
decimal acc (d ∷ ds) = decimal (10 * acc + (d - b'0')) ds

decimal-reverse_aux : (ds t : Text) → decimal 0 (reverse_aux ds t) ≡ decimal (digits_value ds) t
decimal-reverse_aux [] t = refl
decimal-reverse_aux (d ∷ ds) t =
    decimal-reverse_aux ds (d ∷ t) ∙ ap (λ n. decimal n t) (omega arith)

decimal-pad4 : (t : Text) → decimal 0 (pad4 t) ≡ decimal 0 t
unfolding pad4
decimal-pad4 [] = refl
decimal-pad4 (a ∷ []) = refl
decimal-pad4 (a ∷ b ∷ []) = refl
decimal-pad4 (a ∷ b ∷ c ∷ []) = refl
decimal-pad4 (a ∷ b ∷ c ∷ d ∷ t) = refl

-- the number after `CASH-`
abbrev pub serial : Text → ℕ
serial t = decimal 0 (drop 5 t)

-- The number that a cash reference was made of can be read back from it, so two numbers of the
-- sequence never give one reference.
pub serial-cash_reference : (n : ℕ) → serial (cash_reference n) ≡ n
unfolding cash_reference
serial-cash_reference n =
    decimal-pad4 (reverse_aux (digits_rev (suc n) n) [])
    ∙ decimal-reverse_aux (digits_rev (suc n) n) []
    ∙ digits_value-digits_rev (suc n) n (omega arith)
