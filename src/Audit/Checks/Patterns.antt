-- ===== src/Audit/Checks/Patterns.antt =====
-- backend/app/audit/checks.py: the records of the pattern check, and how many they are.
use remedy_graph.Prelude.{
  ℕ, ◌-◌, String, List, [], ◌∷◌, ◌++◌, take, length, Bool, true, false, ◌≡◌, refl, All, All-append,
  arith, eqb, member,
}
use remedy_graph.Result.{Result, ok, err, ◌>>=◌}
use remedy_graph.Prelude.{◌≤◌}
use remedy_graph.Audit.Checks.Scan.{suffix_of}
use remedy_graph.Audit.Checks.Runner.{pattern_suffixes}
use mathlib.Core.Path.{subst}
use remedy_graph.Audit.Workflow.Keeps.{ok-injective}
use remedy_graph.Prelude.{length-take, length-append, if◌then◌else◌}
use remedy_graph.Audit.Checks.Keys.{posix}
use remedy_graph.Audit.Contracts.{DeterministicCheckSpec, EvidenceRecord, CheckExecution}
use remedy_graph.Rag.Safety.Walk.{RepositoryFile}
use remedy_graph.Audit.Checks.Keys.{CheckTools}
use remedy_graph.Audit.Checks.Run.{matching_lines, matching_file, matching_files}
use remedy_graph.Audit.Checks.Fitting.{All-take, IsOwned, IsFitting, matching_lines-IsOwned}

module _ (sha256_hex : String → String) (tools : CheckTools) (set_order : List String → List String)
    (files : List RepositoryFile) (spec : DeterministicCheckSpec) (run_id action_id : String) where
  abbrev Owned : EvidenceRecord → Type 0
  Owned = IsOwned sha256_hex spec run_id action_id

  abbrev Fitting : CheckExecution → Type 0
  Fitting = IsFitting sha256_hex spec run_id action_id

  -- a result with owned records, no more than there is room for
  pub Admits : ℕ → Result (List EvidenceRecord) → Type 0
  Admits room r = (es : List EvidenceRecord) → r ≡ ok es → All Owned es × (length es ≤ room)

  pub admitted :
      (room : ℕ) (r : Result (List EvidenceRecord)) (es : List EvidenceRecord)
      → Admits room r
      → r ≡ ok es
      → All Owned es × (length es ≤ room)
  unfolding Admits
  admitted room r es h = h es

  Admits-ok :
      (room : ℕ) (xs : List EvidenceRecord) → All Owned xs → length xs ≤ room → Admits room (ok xs)
  unfolding Admits
  Admits-ok room xs h k es e =
      subst (λ l. All Owned l × (length l ≤ room)) (ok-injective xs es e) (h, k)

  Admits-bind :
      {A : Type 0} (room : ℕ) (r : Result A) (f : A → Result (List EvidenceRecord))
      → ((a : A) → r ≡ ok a → Admits room (f a))
      → Admits room (r >>= f)
  unfolding Admits
  Admits-bind room (err e) f k es h = absurd (ground arith)
  Admits-bind room (ok a) f k es h = k a refl es h

  Admits-if :
      (b : Bool) (room : ℕ) (r t : Result (List EvidenceRecord))
      → Admits room r
      → Admits room t
      → Admits room (if b then r else t)
  Admits-if true room r t h k = h
  Admits-if false room r t h k = k

  matching_file-Admits :
      (pattern : String) (room : ℕ) (file : RepositoryFile)
      → Admits room
          (matching_file sha256_hex tools set_order files spec run_id action_id pattern room file)
  unfolding matching_file
  matching_file-Admits pattern room file =
      Admits-if (member (suffix_of tools file) pattern_suffixes) room _ _
        (Admits-bind room (tools.read_text file) _ (λ text e.
          let lines =
            matching_lines sha256_hex tools set_order files spec run_id action_id pattern
              (posix file.source_path) 1 (tools.splitlines text) in
          Admits-ok room (take room lines)
            (All-take Owned room lines (
              matching_lines-IsOwned sha256_hex tools set_order files spec run_id action_id pattern
                _ 1 _))
            (ground (arith, length-take room lines))))
        (Admits-ok room [] tt (ground arith))

  pub matching_files-Admits :
      (pattern : String) (room : ℕ) (rest : List RepositoryFile)
      → Admits room
          (matching_files sha256_hex tools set_order files spec run_id action_id pattern room rest)
  unfolding matching_files
  matching_files-Admits pattern room [] = Admits-ok room [] tt (ground arith)
  matching_files-Admits pattern room (file ∷ rest) =
      Admits-if (eqb room 0) room _ _ (Admits-ok room [] tt (ground arith)) (
        Admits-bind room
          (matching_file sha256_hex tools set_order files spec run_id action_id pattern room file) _
          (λ here e.
            Admits-bind room
              (matching_files sha256_hex tools set_order files spec run_id action_id pattern
                (room - length here) rest)
              _
              (λ more f.
                let (h, k) =
                  admitted room
                    (matching_file sha256_hex tools set_order files spec run_id action_id pattern
                      room file)
                    here (matching_file-Admits pattern room file) e in
                let (i, j) =
                  admitted (room - length here)
                    (matching_files sha256_hex tools set_order files spec run_id action_id pattern
                      (room - length here) rest)
                    more (matching_files-Admits pattern (room - length here) rest) f in
                Admits-ok room (here ++ more) (All-append Owned here more h i)
                  (ground (arith, length-append here more)))))
