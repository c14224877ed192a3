-- ===== src/Core/Repository/Atomic.antt =====
-- The repository's methods commit nothing, nor do the audit writer and authorization.
use propnest_api.Base.{ℕ, Option, none, some, ◌≡◌, refl}
use propnest_api.Core.Error.{Result, Constraint}
use propnest_api.Core.Session.{Session}
use propnest_api.Core.Session.Atomic.{NoCommit, no_commit_rules}
use propnest_api.Core.Repository.{
  Repo, all, first, count_rows, get_all, get_by_id, insert, create, write, flush, assign, update,
  erase, discard, delete,
}

module _ {A : Type 0} (repo : Repo A) where
  pub NoCommit-all : (p : A → _) → NoCommit (all repo p)
  unfolding all
  NoCommit-all p = search no_commit_rules

  pub NoCommit-first : (p : A → _) → NoCommit (first repo p)
  unfolding first
  NoCommit-first p = search no_commit_rules

  pub NoCommit-count_rows : (p : A → _) → NoCommit (count_rows repo p)
  unfolding count_rows
  NoCommit-count_rows p = search no_commit_rules

  pub NoCommit-get_all : (skip limit : ℕ) → NoCommit (get_all repo skip limit)
  unfolding get_all
  NoCommit-get_all skip limit = search no_commit_rules

  pub NoCommit-get_by_id : (i : ℕ) → NoCommit (get_by_id repo i)
  unfolding get_by_id
  NoCommit-get_by_id i = search no_commit_rules

  insert_keeps :
      (r : A) (c : Option Constraint) (s : Session) → (insert repo r c s).1.committed ≡ s.committed
  unfolding insert
  insert_keeps r none s = refl
  insert_keeps r (some c) s = refl

  pub NoCommit-create : (make : ℕ → A) → NoCommit (create repo make)
  unfolding create
  NoCommit-create make = record { keeps = λ s. insert_keeps _ _ _ }

  write_keeps :
      (r : A) (c : Option Constraint) (s : Session) → (write repo r c s).1.committed ≡ s.committed
  unfolding write
  write_keeps r none s = refl
  write_keeps r (some c) s = refl

  pub NoCommit-flush : (r : A) → NoCommit (flush repo r)
  unfolding flush
  NoCommit-flush r = record { keeps = λ s. write_keeps r _ s }

  NoCommit-assign : (change : A → Result A) (o : Option A) → NoCommit (assign repo change o)
  unfolding assign
  NoCommit-assign change none = search no_commit_rules
  NoCommit-assign change (some r) = search (no_commit_rules, NoCommit-flush)

  pub NoCommit-update : (i : ℕ) (change : A → Result A) → NoCommit (update repo i change)
  unfolding update
  NoCommit-update i change = search (no_commit_rules, NoCommit-get_by_id, NoCommit-assign)

  erase_keeps :
      (r : A) (c : Option Constraint) (s : Session) → (erase repo r c s).1.committed ≡ s.committed
  unfolding erase
  erase_keeps r none s = refl
  erase_keeps r (some c) s = refl

  discard_keeps : (o : Option A) (s : Session) → (discard repo o s).1.committed ≡ s.committed
  unfolding discard
  discard_keeps none s = refl
  discard_keeps (some r) s = erase_keeps r _ s

  NoCommit-discard : (o : Option A) → NoCommit (discard repo o)
  NoCommit-discard o = record { keeps = discard_keeps o }

  pub NoCommit-delete : (i : ℕ) → NoCommit (delete repo i)
  unfolding delete
  NoCommit-delete i = search (no_commit_rules, NoCommit-get_by_id, NoCommit-discard)

pub ruleset repository_rules = (
  no_commit_rules, NoCommit-all, NoCommit-first, NoCommit-count_rows, NoCommit-get_all,
  NoCommit-get_by_id, NoCommit-create, NoCommit-flush, NoCommit-update, NoCommit-delete,
)
