-- ===== src/Tests/Walks.antt =====
-- A walk of a small repository: a source file, a large one, a key, and an ignored directory.
use remedy_graph.Prelude.{ℕ, String, ◌≡◌, refl, ◌++◌, Option, some, [], ◌∷◌, Bool, true, false}
use remedy_graph.Result.{ok}
use remedy_graph.Rag.Safety.Boundary.{FilePath, Resolved, relative_to, file, file-contained, within}
use remedy_graph.Rag.Safety.Walk.{
  IndexLimits, FileEntry, DirEntry, Directory, directory, end, subdirectory, walk,
}
use remedy_graph.Rag.Safety.Limits.{IsBounded, walk-IsBounded}
use remedy_graph.Rag.Safety.Accounting.{accounted, met, walk-accounts}
use remedy_graph.Tests.Samples.{no_hash}

abbrev workspace : FilePath
workspace = "w" ∷ []

abbrev root : FilePath
root = "w" ∷ "repo" ∷ []

abbrev main : FilePath
main = "w" ∷ "repo" ∷ "main.py" ∷ []

abbrev resolved : FilePath → Bool → Option Resolved
resolved path is_dir = some (record { path = path; is_dir = is_dir; is_file = true })

abbrev entry : String → String → ℕ → FileEntry
entry name suffix size = record {
  name = name;
  suffix = suffix;
  is_symlink = false;
  resolved = resolved ("w" ∷ "repo" ∷ name ∷ []) false;
  size = some size;
  sample = some (112 ∷ 121 ∷ []);
}

abbrev git : DirEntry
git = record {
  name = ".git";
  is_symlink = false;
  resolved = resolved ("w" ∷ "repo" ∷ ".git" ∷ []) true;
}

abbrev repository : Directory
repository =
    directory (entry "big.py" ".py" 9000 ∷ entry "id_rsa" "" 10 ∷ entry "main.py" ".py" 100 ∷ [])
      (subdirectory git (directory [] end) end)

abbrev limits : IndexLimits
limits = record { max_file_bytes = 1000; max_index_bytes = 5000; max_files = 10 }

walk-IsBounded_example :
    IsBounded workspace root limits (walk no_hash workspace root limits repository)
walk-IsBounded_example = walk-IsBounded workspace root limits no_hash repository

walk-accounts_example :
    accounted (walk no_hash workspace root limits repository)
    ≡ met no_hash workspace root limits repository
walk-accounts_example = walk-accounts no_hash workspace root limits repository

accepted : file workspace root (resolved main false) ≡ ok main
unfolding file within
accepted = refl

file-contained_example :
    (main ≡ root ++ relative_to main root) × (main ≡ workspace ++ relative_to main workspace)
file-contained_example = file-contained workspace root (resolved main false) main accepted
