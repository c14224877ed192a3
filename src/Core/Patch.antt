-- ===== src/Core/Patch.antt =====
-- Partial updates: what `model_dump(exclude_unset=True)` says of one field of an update schema, and
-- what setting the field of a row does. A NULL in a required column is refused at the flush.
use propnest_api.Base.{Option, none, some}
use propnest_api.Core.Error.{Constraint, Result, ok, err, integrity}

pub data Patch (A : Type 0) : Type 0 where
  absent null : Patch A
  value : A → Patch A

-- a required column, with the constraint that a NULL violates
abbrev pub not_null : {A : Type 0} → Constraint → Patch A → A → Result A
not_null c absent old = ok old
not_null c null old = err (integrity c)
not_null c (value new) old = ok new

abbrev pub required : {A : Type 0} → Patch A → A → Result A
required = not_null Constraint.not_null

abbrev pub nullable : {A : Type 0} → Patch A → Option A → Option A
nullable absent old = old
nullable null old = none
nullable (value new) old = some new

infixl 5 ◌>>=◌
-- the fields are set in turn
abbrev pub ◌>>=◌ : {A B : Type 0} → Result A → (A → Result B) → Result B
ok a >>= f = f a
err e >>= f = err e
