-- ===== src/Billing/Reference.antt =====
-- Reference numbers of payments (`_resolve_reference_number` in
-- app/billing/services/payment_service.py, `get_reference_number_prefix` in
-- app/billing/schemas/payment.py). The schema admits only
-- digits, and for two methods letters and dashes, to the methods that have a prefix, so `upper` is
-- that of ASCII.
pub mod Prefix
pub mod Serial
unfoldable pub use propnest_api.Core.Text.{Text, codes, upper_code, upper, starts_with}
use propnest_api.Base.{
  ℕ, zero, suc, ◌+◌, ◌/◌, ◌%◌, Option, none, some, List, [], ◌∷◌, ◌++◌, ◌==◌, if◌then◌else◌,
}
use propnest_api.Models.Payment.{PaymentMethod, cash, bank_transfer, gcash, maya, check}

abbrev pub get_reference_number_prefix : PaymentMethod → Option Text
get_reference_number_prefix check = some (codes "CHECK")
get_reference_number_prefix gcash = some (codes "GCASH")
get_reference_number_prefix bank_transfer = some (codes "TRANSFER")
get_reference_number_prefix maya = some (codes "MAYA")
get_reference_number_prefix cash = none

-- f"{prefix}-"
abbrev pub dashed : Text → Text
dashed prefix = prefix ++ b'-' ∷ []

unfoldable pub add_prefix : Text → Text → Text
unfolding upper starts_with
add_prefix prefix reference =
    if starts_with (dashed prefix) (upper reference) then reference else dashed prefix ++ reference

-- the method's prefix on the number that the caller gives; nothing else is touched
unfoldable pub prefixed : Option PaymentMethod → Option Text → Option Text
unfolding add_prefix
prefixed none reference = reference
prefixed (some method) none = none
prefixed (some method) (some reference) = elim (get_reference_number_prefix method) [
  | none ↦ some reference
  | some prefix ↦ some (add_prefix prefix reference)
]

-- decimal digits, the last one first, with fuel
unfoldable pub digits_rev : ℕ → ℕ → Text
digits_rev zero n = []
digits_rev (suc f) n =
    let rest = digits_rev f (n / 10) in (n % 10 + b'0') ∷ (if n / 10 == 0 then [] else rest)

-- zeroes in front, up to four characters
unfoldable pub pad4 : Text → Text
pad4 [] = codes "0000"
pad4 (a ∷ []) = codes "000" ++ a ∷ []
pad4 (a ∷ b ∷ []) = codes "00" ++ a ∷ b ∷ []
pad4 (a ∷ b ∷ c ∷ []) = codes "0" ++ a ∷ b ∷ c ∷ []
pad4 (a ∷ b ∷ c ∷ d ∷ t) = a ∷ b ∷ c ∷ d ∷ t

-- f"CASH-{seq:04d}"
unfoldable pub cash_reference : ℕ → Text
unfolding digits_rev pad4
cash_reference seq = codes "CASH-" ++ pad4 (mathlib.Core.List.reverse (digits_rev (suc seq) seq))
