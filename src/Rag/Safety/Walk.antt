-- ===== src/Rag/Safety/Walk.antt =====
-- backend/app/rag/safety.py: `RepositoryWalker.walk`. A directory is given as the file system shows
-- it: its files and its subdirectories, each list in sorted order.
use remedy_graph.Prelude.{
  ℕ, ◌+◌, String, List, [], ◌∷◌, ◌++◌, Option, none, some, Bool, ◌&&◌, ltb, leb, member, length,
  Dict, lookup, insert, if◌then◌else◌,
}
use remedy_graph.Result.{Result, ok, err}
use remedy_graph.Rag.Safety.Boundary.{FilePath, Resolved, within, relative_to, file}
use remedy_graph.Rag.Safety.Denial.{ignored_directories, denial_reason, looks_binary}

pub record IndexLimits : Type 0 where
  pub max_file_bytes : ℕ
  pub max_index_bytes : ℕ
  pub max_files : ℕ

-- `__post_init__`
unfoldable pub are_positive : IndexLimits → Bool
are_positive l = leb 1 l.max_file_bytes && leb 1 l.max_index_bytes && leb 1 l.max_files

pub record RepositoryFile : Type 0 where
  pub absolute_path : FilePath
  pub source_path : FilePath
  pub size_bytes : ℕ

pub record WalkReport : Type 0 where
  pub files : List RepositoryFile
  pub skipped : Dict ℕ
  pub total_bytes : ℕ

abbrev pub empty_report : WalkReport
empty_report = record { files = []; skipped = []; total_bytes = 0 }

abbrev pub or_zero : Option ℕ → ℕ
or_zero none = 0
or_zero (some n) = n

-- `WalkReport.skip`
unfoldable pub skip : String → WalkReport → WalkReport
skip reason r = record r {
  skipped = insert reason (or_zero (lookup reason r.skipped) + 1) r.skipped;
}

-- A name in a directory. `size` and `sample` are none where `stat` and `open` raise `OSError`. A
-- symbolic link is skipped before it is opened, so the resolved path has the suffix of the name.
pub record FileEntry : Type 0 where
  pub name : String
  pub suffix : String
  pub is_symlink : Bool
  pub resolved : Option Resolved
  pub size : Option ℕ
  pub sample : Option (List ℕ)

pub record DirEntry : Type 0 where
  pub name : String
  pub is_symlink : Bool
  pub resolved : Option Resolved

mutual
  pub data Directory : Type 0 where
    directory : List FileEntry → Subdirectories → Directory

  pub data Subdirectories : Type 0 where
    end : Subdirectories
    subdirectory : DirEntry → Directory → Subdirectories → Subdirectories

-- What the walk says of a subdirectory: the reason to skip it, or that it is kept.
unfoldable pub directory_reason : (String → String) → FilePath → DirEntry → Option String
unfolding within
directory_reason lower root d =
    if member (lower d.name) ignored_directories
    then some "ignored_directory"
    else if d.is_symlink
    then some "symlink"
    else elim d.resolved [
      | none ↦ some "unreadable"
      | some r ↦ if within r.path root then none else some "path_escape"
    ]

module _ (lower : String → String) (workspace_root root : FilePath) (limits : IndexLimits) where
  -- a file that has passed every test but the limits on the report and the look at its bytes
  abbrev pub include : FilePath → ℕ → WalkReport → WalkReport
  include path size r =
      if leb limits.max_files (length r.files) then skip "max_files" r else record r {
        files =
            r.files
            ++ record {
              absolute_path = path;
              source_path = relative_to path root;
              size_bytes = size;
            }
              ∷ [];
        total_bytes = r.total_bytes + size;
      }

  -- with the bytes that `_looks_binary` reads
  abbrev pub look : FileEntry → FilePath → ℕ → Option (List ℕ) → WalkReport → WalkReport
  look f path size none r = skip "unreadable" r
  look f path size (some sample) r =
      if looks_binary lower f.suffix sample then skip "binary" r else include path size r

  abbrev pub inspect : FileEntry → FilePath → ℕ → WalkReport → WalkReport
  inspect f path size r =
      if ltb limits.max_file_bytes size
      then skip "oversized_file" r
      else if ltb limits.max_index_bytes (r.total_bytes + size)
      then skip "max_index_bytes" r
      else look f path size f.sample r

  -- with the outcomes of `boundary.file` and of `stat`
  abbrev pub admit : FileEntry → Result FilePath → Option ℕ → WalkReport → WalkReport
  admit f (err e) size r = skip "unreadable_or_escape" r
  admit f (ok path) none r = skip "unreadable_or_escape" r
  admit f (ok path) (some size) r = inspect f path size r

  -- one round of the loop over the files
  unfoldable pub walk_file : FileEntry → WalkReport → WalkReport
  walk_file f r = elim (denial_reason lower f.is_symlink f.name f.suffix) [
    | some reason ↦ skip reason r
    | none ↦ admit f (file workspace_root root f.resolved) f.size r
  ]

  unfoldable pub walk_files : List FileEntry → WalkReport → WalkReport
  unfolding walk_file
  walk_files [] r = r
  walk_files (f ∷ fs) r = walk_files fs (walk_file f r)

  -- the loop over the subdirectories, which counts those that are skipped
  unfoldable pub skip_directories : Subdirectories → WalkReport → WalkReport
  unfolding directory_reason
  skip_directories end r = r
  skip_directories (subdirectory d content ds) r =
      skip_directories ds
        (elim (directory_reason lower root d) [ none ↦ r | some reason ↦ skip reason r ])

  -- `os.walk`, top down: a directory, then those of its subdirectories that were kept
  unfoldable mutual
    unfolding walk_files skip_directories directory_reason

    pub walk_directory : Directory → WalkReport → WalkReport
    walk_directory (directory files ds) r = walk_kept ds (walk_files files (skip_directories ds r))

    pub walk_kept : Subdirectories → WalkReport → WalkReport
    walk_kept end r = r
    walk_kept (subdirectory d content ds) r =
        walk_kept ds (elim (directory_reason lower root d) [
          | none ↦ walk_directory content r
          | some reason ↦ r
        ])

  unfoldable pub walk : Directory → WalkReport
  unfolding walk_directory
  walk d = walk_directory d empty_report
