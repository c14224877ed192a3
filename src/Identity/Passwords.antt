-- ===== src/Identity/Passwords.antt =====
-- Password hashing (app/core/security.py) over a hashing library, which is a parameter.
use propnest_api.Base.{◌≡◌, Bool, true, false, if◌then◌else◌}
use propnest_api.Core.Text.{Text, is_empty}

-- `pwd_context`: one hash for a password is enough, since hashes are only ever verified. `verify` is
-- false where the library raises one of the errors that `verify_password` catches.
pub record Passwords : Type 0 where
  pub hash : Text → Text
  pub verify : Text → Text → Bool

-- What the library promises: a password matches its hash, and a hash is not empty.
pub record IsSound (pw : Passwords) : Type 0 where
  pub verify-hash : (p : Text) → pw.verify p (pw.hash p) ≡ true
  pub is_empty-hash : (p : Text) → is_empty (pw.hash p) ≡ false

-- `verify_password`
unfoldable pub verify_password : Passwords → Text → Text → Bool
verify_password pw plain hashed = if is_empty hashed then false else pw.verify plain hashed
