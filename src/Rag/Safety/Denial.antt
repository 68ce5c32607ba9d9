-- ===== src/Rag/Safety/Denial.antt =====
-- backend/app/rag/safety.py: the names and suffixes that are left out, `_denial_reason` and
-- `_looks_binary`. `lower` is `str.lower`; the suffix is that of `pathlib`.
use Prim.Native.Char.{Char, code}
use Prim.Native.String.{◌++◌ as ◌<>◌}
use text.Mathlib.Text.{starts_with}
use remedy_graph.Prelude.{
  ℕ, ◌*◌, String, List, [], ◌∷◌, Option, none, some, Bool, true, false, not, ◌&&◌, ◌||◌, ltb, eqb,
  any, member, filter, length, is_empty, if◌then◌else◌,
}

abbrev pub ignored_directories : List String
ignored_directories =
    ".git" ∷ ".hg" ∷ ".svn" ∷ ".mypy_cache" ∷ ".next" ∷ ".pnpm-store" ∷ ".pytest_cache"
    ∷ ".remedygraph" ∷ ".ruff_cache" ∷ ".tox" ∷ ".venv" ∷ ".yarn" ∷ "__pycache__"
    ∷ "bower_components" ∷ "build" ∷ "coverage" ∷ "dist" ∷ "htmlcov" ∷ "node_modules" ∷ "out"
    ∷ "site-packages" ∷ "target" ∷ "vendor" ∷ "venv" ∷ []

abbrev pub ignored_filenames : List String
ignored_filenames =
    ".env" ∷ ".npmrc" ∷ ".pypirc" ∷ "credentials" ∷ "credentials.json" ∷ "id_dsa" ∷ "id_ecdsa"
    ∷ "id_ed25519" ∷ "id_rsa" ∷ "secrets.json" ∷ []

abbrev pub ignored_suffixes : List String
ignored_suffixes =
    ".7z" ∷ ".a" ∷ ".avi" ∷ ".bin" ∷ ".bmp" ∷ ".class" ∷ ".db" ∷ ".dll" ∷ ".dylib" ∷ ".exe" ∷ ".gif"
    ∷ ".gz" ∷ ".ico" ∷ ".jpeg" ∷ ".jpg" ∷ ".key" ∷ ".lock" ∷ ".mov" ∷ ".mp3" ∷ ".mp4" ∷ ".o"
    ∷ ".obj" ∷ ".p12" ∷ ".pfx" ∷ ".png" ∷ ".pyc" ∷ ".sqlite" ∷ ".sqlite3" ∷ ".so" ∷ ".tar" ∷ ".wav"
    ∷ ".webm" ∷ ".webp" ∷ ".whl" ∷ ".zip" ∷ []

abbrev pub supported_suffixes : List String
supported_suffixes =
    ".cfg" ∷ ".css" ∷ ".docx" ∷ ".go" ∷ ".html" ∷ ".ini" ∷ ".java" ∷ ".js" ∷ ".json" ∷ ".md"
    ∷ ".markdown" ∷ ".pdf" ∷ ".pptx" ∷ ".py" ∷ ".rs" ∷ ".sh" ∷ ".sql" ∷ ".toml" ∷ ".ts" ∷ ".tsx"
    ∷ ".txt" ∷ ".xml" ∷ ".yaml" ∷ ".yml" ∷ []

abbrev is_separator : Char → Bool
is_separator c = eqb (code c) b'.' || eqb (code c) b'-' || eqb (code c) b'_'

-- name.replace("-", ".").replace("_", ".").split("."), with the part that is being read
unfoldable pub split_name : String → String → List String
split_name part String.[] = part ∷ []
split_name part (String.◌∷◌ c rest) =
    let next = split_name (if is_separator c then "" else part <> String.◌∷◌ c String.[]) rest in
    if is_separator c then part ∷ next else next

abbrev pub secret_words : List String
secret_words = "credential" ∷ "credentials" ∷ "secret" ∷ "secrets" ∷ []

unfoldable pub is_secret : String → Bool
unfolding split_name
is_secret lower_name =
    member lower_name ignored_filenames
    || starts_with lower_name ".env."
    || any (λ part. member part secret_words) (split_name "" lower_name)

module _ (lower : String → String) where
  unfoldable pub denial_reason : Bool → String → String → Option String
  unfolding is_secret
  denial_reason is_symlink name suffix =
      if is_symlink
      then some "symlink"
      else if is_secret (lower name)
      then some "secret_file"
      else if member (lower suffix) ignored_suffixes
      then some "ignored_extension"
      else if not (member (lower suffix) supported_suffixes)
      then some "unsupported_extension"
      else none

  -- `control / len(sample) > 0.05`, by exact arithmetic
  unfoldable pub looks_binary : String → List ℕ → Bool
  looks_binary suffix sample =
      if member (lower suffix) (".pdf" ∷ ".docx" ∷ ".pptx" ∷ [])
      then false
      else if any (λ byte. eqb byte 0) sample
      then true
      else if is_empty sample
      then false
      else ltb (length sample)
          (20 * length (filter (λ byte. ltb byte 9 || (ltb 13 byte && ltb byte 32)) sample))
