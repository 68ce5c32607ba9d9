-- ===== src/Rag/Safety/Limits.antt =====
-- backend/app/rag/safety.py: the report of a walk, the limits and the repository.
use remedy_graph.Prelude.{
  ℕ, ◌+◌, ◌≤◌, ◌<◌, String, ◌≡◌, refl, inl, inr, List, [], ◌∷◌, ◌++◌, Option, none, some, ltb, leb,
  length, length-append, arith, All, All-append, Bool-cases,
}
use remedy_graph.Result.{Result, ok, err}
use remedy_graph.Rag.Safety.Boundary.{FilePath, relative_to, file, file-contained}
use remedy_graph.Rag.Safety.Denial.{denial_reason, looks_binary}
use remedy_graph.Rag.Safety.Walk.{
  Directory, FileEntry, IndexLimits, RepositoryFile, Subdirectories, WalkReport, admit, directory,
  directory_reason, empty_report, end, include, inspect, look, skip, skip_directories, subdirectory,
  walk, walk_directory, walk_file, walk_files, walk_kept,
}

abbrev pub sum_sizes : List RepositoryFile → ℕ
sum_sizes [] = 0
sum_sizes (f ∷ fs) = f.size_bytes + sum_sizes fs

sum_sizes-append :
    (xs : List RepositoryFile) (f : RepositoryFile)
    → sum_sizes (xs ++ f ∷ []) ≡ sum_sizes xs + f.size_bytes
sum_sizes-append [] f = omega arith
sum_sizes-append (x ∷ xs) f = omega (arith, sum_sizes-append xs f)

module _ (workspace_root root : FilePath) (limits : IndexLimits) where
  -- A reported file: not too large, and inside the repository and the workspace.
  pub record IsAllowed (f : RepositoryFile) : Type 0 where
    pub small : f.size_bytes ≤ limits.max_file_bytes
    pub in_repository : f.absolute_path ≡ root ++ f.source_path
    pub in_workspace :
        f.absolute_path ≡ workspace_root ++ relative_to f.absolute_path workspace_root

  pub record IsBounded (r : WalkReport) : Type 0 where
    pub total : sum_sizes r.files ≡ r.total_bytes
    pub bytes : r.total_bytes ≤ limits.max_index_bytes
    pub count : length r.files ≤ limits.max_files
    pub allowed : All IsAllowed r.files

  -- The two things that happen to a file.
  pub data Outcome (r r' : WalkReport) : Type 0 where
    skipped : (reason : String) → r' ≡ skip reason r → Outcome r r'
    reported :
        (f : RepositoryFile)
        → IsAllowed f
        → r.total_bytes + f.size_bytes ≤ limits.max_index_bytes
        → length r.files < limits.max_files
        → r' ≡ record r { files = r.files ++ f ∷ []; total_bytes = r.total_bytes + f.size_bytes }
        → Outcome r r'

  module _ (lower : String → String) where
    include-Outcome :
        (path : FilePath) (size : ℕ) (r : WalkReport)
        → path ≡ root ++ relative_to path root
        → path ≡ workspace_root ++ relative_to path workspace_root
        → size ≤ limits.max_file_bytes
        → r.total_bytes + size ≤ limits.max_index_bytes
        → Outcome r (include lower workspace_root root limits path size r)
    include-Outcome path size r e w small fits =
        elim (Bool-cases (leb limits.max_files (length r.files))) [
          | inl full ↦ skipped "max_files" (rw full)
          | inr room ↦
              reported
                (record {
                  absolute_path = path;
                  source_path = relative_to path root;
                  size_bytes = size;
                })
                (record { small = small; in_repository = e; in_workspace = w }) fits (ground arith)
                (rw room)
        ]

    look-Outcome :
        (f : FileEntry) (path : FilePath) (size : ℕ) (sample : Option (List ℕ)) (r : WalkReport)
        → path ≡ root ++ relative_to path root
        → path ≡ workspace_root ++ relative_to path workspace_root
        → size ≤ limits.max_file_bytes
        → r.total_bytes + size ≤ limits.max_index_bytes
        → Outcome r (look lower workspace_root root limits f path size sample r)
    look-Outcome f path size none r e w small fits = skipped "unreadable" refl
    look-Outcome f path size (some sample) r e w small fits =
        elim (Bool-cases (looks_binary lower f.suffix sample)) [
          | inl binary ↦ skipped "binary" (rw binary)
          | inr readable ↦ rw readable (include-Outcome path size r e w small fits)
        ]

    inspect-Outcome :
        (f : FileEntry) (path : FilePath) (size : ℕ) (r : WalkReport)
        → path ≡ root ++ relative_to path root
        → path ≡ workspace_root ++ relative_to path workspace_root
        → Outcome r (inspect lower workspace_root root limits f path size r)
    inspect-Outcome f path size r e w = elim (Bool-cases (ltb limits.max_file_bytes size)) [
      | inl large ↦ skipped "oversized_file" (rw large)
      | inr small ↦ elim (Bool-cases (ltb limits.max_index_bytes (r.total_bytes + size))) [
        | inl full ↦ skipped "max_index_bytes" (rw (small, full))
        | inr fits ↦
            rw (small, fits) (look-Outcome f path size f.sample r e w (ground arith) (ground arith))
      ]
    ]

    admit-Outcome :
        (f : FileEntry) (path : Result FilePath) (size : Option ℕ) (r : WalkReport)
        → file workspace_root root f.resolved ≡ path
        → Outcome r (admit lower workspace_root root limits f path size r)
    admit-Outcome f (err z) size r h = skipped "unreadable_or_escape" refl
    admit-Outcome f (ok path) none r h = skipped "unreadable_or_escape" refl
    admit-Outcome f (ok path) (some size) r h =
        let inside = file-contained workspace_root root f.resolved path h in
        inspect-Outcome f path size r inside.0 inside.1

    denied-Outcome :
        (f : FileEntry) (r : WalkReport) (reason : Option String)
        → denial_reason lower f.is_symlink f.name f.suffix ≡ reason
        → Outcome r (walk_file lower workspace_root root limits f r)
    unfolding walk_file
    denied-Outcome f r (some reason) h = skipped reason (rw (h, walk_file))
    denied-Outcome f r none h =
        rw (h, walk_file) (admit-Outcome f (file workspace_root root f.resolved) f.size r refl)

    pub walk_file-Outcome :
        (f : FileEntry) (r : WalkReport)
        → Outcome r (walk_file lower workspace_root root limits f r)
    walk_file-Outcome f r =
        denied-Outcome f r (denial_reason lower f.is_symlink f.name f.suffix) refl

    skip-IsBounded : (reason : String) (r : WalkReport) → IsBounded r → IsBounded (skip reason r)
    unfolding skip
    skip-IsBounded reason r b = record {
      total = b.total;
      bytes = b.bytes;
      count = b.count;
      allowed = b.allowed;
    }

    Outcome-IsBounded : (r r' : WalkReport) → Outcome r r' → IsBounded r → IsBounded r'
    Outcome-IsBounded r r' (skipped reason e) b = rw e (skip-IsBounded reason r b)
    Outcome-IsBounded r r' (reported f a fits room e) b = rw e (record {
      total = omega (arith, sum_sizes-append r.files f, b.total);
      bytes = fits;
      count = omega (arith, length-append r.files (f ∷ []));
      allowed = All-append IsAllowed r.files (f ∷ []) b.allowed (a, tt);
    })

    walk_files-IsBounded :
        (fs : List FileEntry) (r : WalkReport)
        → IsBounded r
        → IsBounded (walk_files lower workspace_root root limits fs r)
    unfolding walk_files
    walk_files-IsBounded [] r b = b
    walk_files-IsBounded (f ∷ fs) r b =
        walk_files-IsBounded fs (walk_file lower workspace_root root limits f r) (
          Outcome-IsBounded r (walk_file lower workspace_root root limits f r)
            (walk_file-Outcome f r) b)

    skip_if-IsBounded :
        (o : Option String) (r : WalkReport)
        → IsBounded r
        → IsBounded (elim o [ none ↦ r | some reason ↦ skip reason r ])
    skip_if-IsBounded none r b = b
    skip_if-IsBounded (some reason) r b = skip-IsBounded reason r b

    skip_directories-IsBounded :
        (ds : Subdirectories) (r : WalkReport)
        → IsBounded r
        → IsBounded (skip_directories lower workspace_root root limits ds r)
    unfolding skip_directories
    skip_directories-IsBounded end r b = b
    skip_directories-IsBounded (subdirectory d content ds) r b =
        skip_directories-IsBounded ds
          (elim (directory_reason lower root d) [ none ↦ r | some reason ↦ skip reason r ])
          (skip_if-IsBounded (directory_reason lower root d) r b)

    descend-IsBounded :
        (o : Option String) (r r' : WalkReport)
        → IsBounded r
        → IsBounded r'
        → IsBounded (elim o [ none ↦ r' | some reason ↦ r ])
    descend-IsBounded none r r' b b' = b'
    descend-IsBounded (some reason) r r' b b' = b

    mutual
      unfolding walk_directory walk_kept

      walk_directory-IsBounded :
          (d : Directory) (r : WalkReport)
          → IsBounded r
          → IsBounded (walk_directory lower workspace_root root limits d r)
      walk_directory-IsBounded (directory fs ds) r b =
          walk_kept-IsBounded ds
            (walk_files lower workspace_root root limits fs
              (skip_directories lower workspace_root root limits ds r))
            (walk_files-IsBounded fs (skip_directories lower workspace_root root limits ds r)
              (skip_directories-IsBounded ds r b))

      walk_kept-IsBounded :
          (ds : Subdirectories) (r : WalkReport)
          → IsBounded r
          → IsBounded (walk_kept lower workspace_root root limits ds r)
      walk_kept-IsBounded end r b = b
      walk_kept-IsBounded (subdirectory d content ds) r b =
          walk_kept-IsBounded ds
            (elim (directory_reason lower root d) [
              | none ↦ walk_directory lower workspace_root root limits content r
              | some reason ↦ r
            ])
            (descend-IsBounded (directory_reason lower root d) r
              (walk_directory lower workspace_root root limits content r) b
              (walk_directory-IsBounded content r b))

    -- The report of a walk counts its bytes exactly and stays within the three limits, and every
    -- reported file lies in the repository, under its relative path, and in the workspace.
    pub walk-IsBounded : (d : Directory) → IsBounded (walk lower workspace_root root limits d)
    unfolding walk
    walk-IsBounded d =
        walk_directory-IsBounded d empty_report
          (record { total = refl; bytes = omega arith; count = omega arith; allowed = tt })
