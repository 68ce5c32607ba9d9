-- ===== src/Storage/Action.antt =====
-- A method that reads and writes the database and may raise: an action on the store. What was
-- committed before a raise stays, so the store comes back beside the error.
use remedy_graph.Result.{Error, Result, ok, err}
use remedy_graph.Storage.{Store}

abbrev pub Action : Type 0 → Type 0
Action A = Store → Result A × Store

module _ {A : Type 0} where
  abbrev pub pure : A → Action A
  pure a s = (ok a, s)

  abbrev pub raise : Error → Action A
  raise e s = (err e, s)

  -- a call that leaves the database alone
  abbrev pub lift : Result A → Action A
  lift r s = (r, s)

  abbrev pub gets : (Store → A) → Action A
  gets f s = (ok (f s), s)

  -- a read that may raise
  abbrev pub reads : (Store → Result A) → Action A
  reads f s = (f s, s)

module _ {A B : Type 0} where
  abbrev pub resume : Result A → (A → Action B) → Store → Result B × Store
  resume (ok a) f s = f a s
  resume (err e) f s = (err e, s)

  infixl 5 ◌>>=◌ ◌>>◌
  abbrev pub ◌>>=◌ : Action A → (A → Action B) → Action B
  ◌>>=◌ m f s = let (r, s') = m s in resume r f s'

  abbrev pub ◌>>◌ : Action A → Action B → Action B
  m >> k = m >>= λ _. k
