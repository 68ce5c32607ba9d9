-- ===== src/Rag/Safety/Accounting.antt =====
-- backend/app/rag/safety.py: what the walk meets, and what its report counts.
use remedy_graph.Prelude.{
  ℕ, ◌+◌, String, ◌≡◌, refl, List, [], ◌∷◌, Option, none, some, Dict, lookup, insert, length,
  length-append, arith,
}
use remedy_graph.Rag.Safety.Boundary.{FilePath}
use remedy_graph.Rag.Safety.Walk.{
  IndexLimits, WalkReport, empty_report, or_zero, skip, FileEntry, Directory, directory,
  Subdirectories, end, subdirectory, directory_reason, walk_file, walk_files, skip_directories,
  walk_directory, walk_kept, walk,
}
use remedy_graph.Rag.Safety.Limits.{Outcome, skipped, reported, walk_file-Outcome}

abbrev pub sum_counts : Dict ℕ → ℕ
sum_counts [] = 0
sum_counts ((k, n) ∷ m) = n + sum_counts m

-- what the report accounts for
abbrev pub accounted : WalkReport → ℕ
accounted r = length r.files + sum_counts r.skipped

sum_counts-insert :
    (k : String) (m : Dict ℕ)
    → sum_counts (insert k (or_zero (lookup k m) + 1) m) ≡ sum_counts m + 1
unfolding lookup insert
sum_counts-insert k [] = refl
sum_counts-insert k ((j, n) ∷ m) = ground (arith, sum_counts-insert k m)

accounted-skip : (reason : String) (r : WalkReport) → accounted (skip reason r) ≡ accounted r + 1
unfolding skip
accounted-skip reason r = omega (arith, sum_counts-insert reason r.skipped)

module _ (lower : String → String) (workspace_root root : FilePath) (limits : IndexLimits) where
  accounted-Outcome :
      (r r' : WalkReport) → Outcome workspace_root root limits r r' → accounted r' ≡ accounted r + 1
  accounted-Outcome r r' (skipped reason e) = rw e (accounted-skip reason r)
  accounted-Outcome r r' (reported f a fits room e) =
      rw e (omega (arith, length-append r.files (f ∷ [])))

  accounted-walk_files :
      (fs : List FileEntry) (r : WalkReport)
      → accounted (walk_files lower workspace_root root limits fs r) ≡ accounted r + length fs
  unfolding walk_files
  accounted-walk_files [] r = omega arith
  accounted-walk_files (f ∷ fs) r = omega (
    arith,
    accounted-walk_files fs (walk_file lower workspace_root root limits f r),
    accounted-Outcome r (walk_file lower workspace_root root limits f r)
        (walk_file-Outcome workspace_root root limits lower f r),
  )

  one_if : Option String → ℕ
  one_if none = 0
  one_if (some reason) = 1

  -- the subdirectories that are not entered
  unfoldable pub refused : Subdirectories → ℕ
  unfolding one_if
  refused end = 0
  refused (subdirectory d content ds) = one_if (directory_reason lower root d) + refused ds

  accounted-skip_if :
      (o : Option String) (r : WalkReport)
      → accounted (elim o [ none ↦ r | some reason ↦ skip reason r ]) ≡ accounted r + one_if o
  unfolding one_if
  accounted-skip_if none r = omega arith
  accounted-skip_if (some reason) r = accounted-skip reason r

  accounted-skip_directories :
      (ds : Subdirectories) (r : WalkReport)
      → accounted (skip_directories lower workspace_root root limits ds r)
        ≡ accounted r + refused ds
  unfolding skip_directories refused
  accounted-skip_directories end r = omega arith
  accounted-skip_directories (subdirectory d content ds) r = omega (
    arith,
    accounted-skip_directories ds
        (elim (directory_reason lower root d) [ none ↦ r | some reason ↦ skip reason r ]),
    accounted-skip_if (directory_reason lower root d) r,
  )

  -- The entries that the walk meets: the files of a directory that is entered, and its
  -- subdirectories that are not.
  unfoldable mutual
    pub met : Directory → ℕ
    met (directory fs ds) = length fs + refused ds + met_below ds

    pub met_below : Subdirectories → ℕ
    met_below end = 0
    met_below (subdirectory d content ds) =
        (elim (directory_reason lower root d) [ none ↦ met content | some reason ↦ 0 ])
        + met_below ds

  accounted-descend :
      (o : Option String) (r r' : WalkReport) (n : ℕ)
      → accounted r' ≡ accounted r + n
      → accounted (elim o [ none ↦ r' | some reason ↦ r ])
        ≡ accounted r + (elim o [ none ↦ n | some reason ↦ 0 ])
  accounted-descend none r r' n h = h
  accounted-descend (some reason) r r' n h = omega arith

  mutual
    unfolding walk_directory walk_kept met met_below

    accounted-walk_directory :
        (d : Directory) (r : WalkReport)
        → accounted (walk_directory lower workspace_root root limits d r) ≡ accounted r + met d
    accounted-walk_directory (directory fs ds) r = omega (
      arith,
      accounted-walk_kept ds (
          walk_files lower workspace_root root limits fs
            (skip_directories lower workspace_root root limits ds r)),
      accounted-walk_files fs (skip_directories lower workspace_root root limits ds r),
      accounted-skip_directories ds r,
    )

    accounted-walk_kept :
        (ds : Subdirectories) (r : WalkReport)
        → accounted (walk_kept lower workspace_root root limits ds r) ≡ accounted r + met_below ds
    accounted-walk_kept end r = omega arith
    accounted-walk_kept (subdirectory d content ds) r = omega (
      arith,
      accounted-walk_kept ds (elim (directory_reason lower root d) [
        | none ↦ walk_directory lower workspace_root root limits content r
        | some reason ↦ r
      ]),
      accounted-descend (directory_reason lower root d) r
          (walk_directory lower workspace_root root limits content r) (met content)
          (accounted-walk_directory content r),
    )

  -- The reported files and the counts of what was skipped add up to the entries that the walk met.
  pub walk-accounts : (d : Directory) → accounted (walk lower workspace_root root limits d) ≡ met d
  unfolding walk
  walk-accounts d = omega (arith, accounted-walk_directory d empty_report)
