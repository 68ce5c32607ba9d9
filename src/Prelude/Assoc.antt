-- ===== src/Prelude/Assoc.antt =====
-- A Python `dict` with text keys, and a table with a text primary key: an association list in the
-- order of insertion. Writing to a key that is there keeps its place.
use Prim.Native.String.{String}
use mathlib.Core.Path.{◌≡◌, refl}
use mathlib.Core.Option.{Option, none, some}
use mathlib.Core.List.{List, [], ◌∷◌}
use native.Mathlib.Omega.{arith}
use text.Mathlib.Text.{◌==◌}
use text.Mathlib.TextEquality.{eq_iff}
use remedy_graph.Prelude.Tests.{if◌then◌else◌}

abbrev pub Dict {ℓ} : Type ℓ → Type ℓ
Dict V = List (String × V)

module _ {ℓ} {V : Type ℓ} where
  -- rows.get(key)
  unfoldable pub lookup : String → Dict V → Option V
  lookup key [] = none
  lookup key ((name, value) ∷ rows) = if name == key then some value else lookup key rows

  -- rows[key] = new, and INSERT … ON CONFLICT(id) DO UPDATE
  unfoldable pub insert : String → V → Dict V → Dict V
  insert key new [] = (key, new) ∷ []
  insert key new ((name, value) ∷ rows) =
      if name == key then (name, new) ∷ rows else (name, value) ∷ insert key new rows

  pub lookup-insert :
      (key asked : String) (new : V) (rows : Dict V)
      → lookup asked (insert key new rows) ≡ (if key == asked then some new else lookup asked rows)
  unfolding lookup insert
  lookup-insert key asked new [] = refl
  lookup-insert key asked new ((name, value) ∷ rows) = ground (
    eq_iff name asked,
    eq_iff name key,
    eq_iff key asked,
    lookup-insert key asked new rows,
    arith,
  )

  pub lookup-insert_self :
      (key : String) (new : V) (rows : Dict V) → lookup key (insert key new rows) ≡ some new
  lookup-insert_self key new rows = ground (arith, lookup-insert key key new rows, eq_iff key key)

  -- `for x in xs: m[key(x)] = x`
  unfoldable pub index_from : (V → String) → Dict V → List V → Dict V
  index_from key m [] = m
  index_from key m (x ∷ xs) = index_from key (insert (key x) x m) xs

  -- {key(x): x for x in xs}
  unfoldable pub index_by : (V → String) → List V → Dict V
  unfolding index_from
  index_by key xs = index_from key [] xs
