-- ===== src/Core/Session.antt =====
-- One request's database session (`get_db` in app/db/session.py). A service method works on the
-- session's own view; `commit` makes it durable, and what was not committed when the request ends
-- is rolled back. Sequences and generated ids are outside of the transaction, as in PostgreSQL.
pub mod Atomic
pub mod Denied
pub mod Returns
pub mod Reads
pub mod Served
pub mod Keeps
use propnest_api.Base.{ℕ, Bool, Option, none, some, List, [], ◌∷◌, if◌then◌else◌}
use propnest_api.Core.Error.{Error, Result, ok, err}
use propnest_api.Core.Schema.{Tables}

pub record Session : Type 0 where
  pub committed : Tables
  pub working : Tables
  pub next_id : ℕ
  pub cash_seq : ℕ

-- A coroutine of a service: what it changed stays in the session when it raises.
abbrev pub Action : Type 0 → Type 0
Action A = Session → Result A × Session

module _ {A : Type 0} where
  pub pure : A → Action A
  pure a s = (ok a, s)

  pub raise : Error → Action A
  raise e s = (err e, s)

  pub lift : Result A → Action A
  lift r s = (r, s)

  -- a SELECT, on the session's view
  pub query : (Tables → A) → Action A
  query f s = (ok (f s.working), s)

  pub or_raise : Error → Option A → Action A
  or_raise e none s = (err e, s)
  or_raise e (some a) s = (ok a, s)

pub raise_if : Bool → Error → Action (Unit {0})
raise_if b e s = (if b then err e else ok tt, s)

-- `await db.commit()`
pub commit : Action (Unit {0})
commit s = (ok tt, record s { committed = s.working })

module _ {A B : Type 0} where
  abbrev resume : Result A → (A → Action B) → Action B
  resume (ok a) f s = f a s
  resume (err e) f s = (err e, s)

  infixl 5 ◌>>=◌ ◌>>◌
  -- opening this opens the small actions above too
  unfoldable pub ◌>>=◌ : Action A → (A → Action B) → Action B
  unfolding pure raise lift query or_raise raise_if commit
  ◌>>=◌ m f s = let (r, s') = m s in resume r f s'

  abbrev pub ◌>>◌ : Action A → Action B → Action B
  m >> n = m >>= λ _. n

-- `try: m except E: …` where the handler raises `translate` of the error
unfoldable pub rethrow : {A : Type 0} → (Error → Error) → Action A → Action A
rethrow translate m s =
    let (r, s') = m s in elim r [ ok a ↦ (ok a, s') | err e ↦ (err (translate e), s') ]

-- `for x in xs: await body(x)`, the results in order
pub for_each : {A B : Type 0} → (A → Action B) → List A → Action (List B)
for_each body [] = pure []
for_each body (x ∷ xs) = do y ← body x; ys ← for_each body xs; pure (y ∷ ys)

-- What outlives a request.
pub record Store : Type 0 where
  pub tables : Tables
  pub next_id : ℕ
  pub cash_seq : ℕ

abbrev pub begin : Store → Session
begin d = record {
  committed = d.tables;
  working = d.tables;
  next_id = d.next_id;
  cash_seq = d.cash_seq;
}

-- A request has its own session; closing it drops what was not committed.
abbrev pub end : Session → Store
end s = record { tables = s.committed; next_id = s.next_id; cash_seq = s.cash_seq }

abbrev pub run : {A : Type 0} → Action A → Store → Result A × Store
run m d = let (r, s) = m (begin d) in (r, end s)
