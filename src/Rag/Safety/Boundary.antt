-- ===== src/Rag/Safety/Boundary.antt =====
-- backend/app/rag/safety.py: `WorkspaceBoundary`. A resolved path is the list of its components;
-- what the file system answers to `resolve(strict=True)` is an `Option Resolved`.
use remedy_graph.Prelude.{
  String, ◌≡◌, refl, List, [], ◌∷◌, ◌++◌, Option, none, some, Bool, true, false, not, ◌&&◌, ◌||◌,
  ◌==◌, eq_iff, arith, length, drop,
}
use remedy_graph.Result.{path_safety, Result, ok, raise_if, or_raise, ◌>>=◌, ◌>>◌}

abbrev pub FilePath : Type 0
FilePath = List String

pub record Resolved : Type 0 where
  pub path : FilePath
  pub is_dir : Bool
  pub is_file : Bool

-- `_within`: path.relative_to(root) does not raise
unfoldable pub within : FilePath → FilePath → Bool
within path [] = true
within [] (r ∷ root) = false
within (p ∷ path) (r ∷ root) = p == r && within path root

-- path.relative_to(root), where it does not raise
abbrev pub relative_to : FilePath → FilePath → FilePath
relative_to path root = drop (length root) path

unfoldable pub repository_root : FilePath → Option Resolved → Result FilePath
repository_root workspace_root requested = do
  resolved ← or_raise requested (path_safety "repository must be an existing directory")
  raise_if (not resolved.is_dir || not (within resolved.path workspace_root))
      (path_safety "repository must be an existing directory inside WORKSPACE_ROOT")
  ok resolved.path

-- `file`, for a repository that `repository_root` has accepted
unfoldable pub file : FilePath → FilePath → Option Resolved → Result FilePath
file workspace_root root requested = do
  resolved ← or_raise requested (path_safety "requested path must be an existing file")
  raise_if (not resolved.is_file) (path_safety "requested path must be an existing file")
  raise_if (not (within resolved.path root) || not (within resolved.path workspace_root))
      (path_safety "requested path escapes the repository or WORKSPACE_ROOT")
  ok resolved.path

-- A path is within a root exactly when it is the root followed by the relative path.
pub within-relative_to :
    (path root : FilePath) → within path root ≡ true → path ≡ root ++ relative_to path root
unfolding within
within-relative_to path [] h = refl
within-relative_to [] (r ∷ root) h = cc
within-relative_to (p ∷ path) (r ∷ root) h =
    ground (arith, eq_iff p r, within-relative_to path root)

pub within-append : (root rest : FilePath) → within (root ++ rest) root ≡ true
unfolding within
within-append [] rest = refl
within-append (r ∷ root) rest = ground (arith, eq_iff r r, within-append root rest)

-- What `file` accepts is the repository root followed by some components, and so is it in the
-- workspace; whatever the file system answers, nothing else is accepted.
pub file-contained :
    (workspace_root root : FilePath) (requested : Option Resolved) (path : FilePath)
    → file workspace_root root requested ≡ ok path
    → (path ≡ root ++ relative_to path root)
      × (path ≡ workspace_root ++ relative_to path workspace_root)
unfolding file
file-contained workspace_root root none path h = absurd (cc)
file-contained workspace_root root (some r) path h =
    ground (arith, within-relative_to r.path root, within-relative_to r.path workspace_root)
