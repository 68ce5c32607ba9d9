-- ===== src/Storage/Snapshot/Rows.antt =====
-- backend/app/storage.py: what is read after the rows of a run are replaced.
use remedy_graph.Prelude.{String, ◌≡◌, ◌≢◌, refl, ap, List, [], ◌∷◌, ◌++◌, map, eq_iff, arith}
use remedy_graph.Storage.{Rows, delete_run, insert_rows, select_rows}

module _ {A : Type 0} where
  select_rows-append :
      (run : String) (xs ys : Rows A)
      → select_rows run (xs ++ ys) ≡ select_rows run xs ++ select_rows run ys
  unfolding select_rows
  select_rows-append run [] ys = refl
  select_rows-append run ((r, x) ∷ xs) ys = ground (arith, select_rows-append run xs ys)

  select_rows-delete_run : (run : String) (xs : Rows A) → select_rows run (delete_run run xs) ≡ []
  unfolding select_rows delete_run
  select_rows-delete_run run [] = refl
  select_rows-delete_run run ((r, x) ∷ xs) = ground (arith, select_rows-delete_run run xs)

  select_rows-delete_other :
      (run other : String) (xs : Rows A)
      → run ≢ other
      → select_rows other (delete_run run xs) ≡ select_rows other xs
  unfolding select_rows delete_run
  select_rows-delete_other run other [] ne = refl
  select_rows-delete_other run other ((r, x) ∷ xs) ne =
      ground (arith, select_rows-delete_other run other xs ne, eq_iff r run, eq_iff r other)

  select_rows-labelled :
      (run : String) (xs : List A) → select_rows run (map (λ x. (run, x)) xs) ≡ xs
  unfolding select_rows
  select_rows-labelled run [] = refl
  select_rows-labelled run (x ∷ xs) = ground (arith, select_rows-labelled run xs, eq_iff run run)

  select_rows-labelled_other :
      (run other : String) (xs : List A)
      → run ≢ other
      → select_rows other (map (λ x. (run, x)) xs) ≡ []
  unfolding select_rows
  select_rows-labelled_other run other [] ne = refl
  select_rows-labelled_other run other (x ∷ xs) ne =
      ground (arith, select_rows-labelled_other run other xs ne, eq_iff run other)

  append-nil : (xs : List A) → xs ++ [] ≡ xs
  append-nil [] = refl
  append-nil (x ∷ xs) = ap (λ l. x ∷ l) (append-nil xs)

  -- the run's own rows are the new ones
  pub select_rows-replaced :
      (run : String) (xs : List A) (rows : Rows A)
      → select_rows run (insert_rows run xs (delete_run run rows)) ≡ xs
  unfolding insert_rows
  select_rows-replaced run xs rows = rw (
    select_rows-append run (delete_run run rows) (map (λ x. (run, x)) xs),
    select_rows-delete_run run rows,
    select_rows-labelled run xs,
  )

  -- another run's rows are the old ones
  pub select_rows-replaced_other :
      (run other : String) (xs : List A) (rows : Rows A)
      → run ≢ other
      → select_rows other (insert_rows run xs (delete_run run rows)) ≡ select_rows other rows
  unfolding insert_rows
  select_rows-replaced_other run other xs rows ne = rw (
    select_rows-append other (delete_run run rows) (map (λ x. (run, x)) xs),
    select_rows-delete_other run other rows ne,
    select_rows-labelled_other run other xs ne,
    append-nil (select_rows other rows),
  )
