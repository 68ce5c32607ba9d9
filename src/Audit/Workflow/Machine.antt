-- ===== src/Audit/Workflow/Machine.antt =====
-- backend/app/audit/workflow.py: the life of a run as a state machine, in its own terms. A move is
-- what an event of the log says: its type and its stage.
use remedy_graph.Prelude.{append_assoc, append_nil}
use remedy_graph.Prelude.{arith, List, [], ◌∷◌, ◌++◌, Bool, true, false, ◌≡◌, refl, ap, sym, ◌∙◌}
use remedy_graph.Models.{
  RunStatus, queued, parsing, compiling_invariants, indexing, investigating, verifying, complete,
  failed,
}
use remedy_graph.Audit.Contracts.{
  WorkflowEventType, stage_started, stage_completed, budget_consumed, failure,
}

pub data Phase : Type 0 where
  ready mapped done stopped : Phase
  active settled : RunStatus → Phase

abbrev pub Move : Type 0
Move = WorkflowEventType × RunStatus

-- the stages, and what each comes after
pub data Enters : Phase → RunStatus → Type 0 where
  enter_parsing : Enters ready parsing
  enter_compiling : Enters (settled parsing) compiling_invariants
  enter_indexing : Enters (settled compiling_invariants) indexing
  enter_investigating : Enters (settled indexing) investigating
  enter_verifying : Enters (settled investigating) verifying

abbrev pub is_open : Phase → Bool
is_open done = false
is_open stopped = false
is_open _ = true

pub data Step : Phase → Move → Phase → Type 0 where
  starts :
      {p : Phase} {stage : RunStatus}
      → Enters p stage
      → Step p (stage_started, stage) (active stage)
  charges : Step (active indexing) (budget_consumed, indexing) (active indexing)
  finishes : {stage : RunStatus} → Step (active stage) (stage_completed, stage) (settled stage)
  maps : Step (settled verifying) (stage_completed, verifying) mapped
  completes : Step mapped (stage_completed, complete) done
  fails : {p : Phase} → is_open p ≡ true → Step p (failure, failed) stopped

-- the moves that lead from `ready` to a phase
pub data Log : List Move → Phase → Type 0 where
  empty : Log [] ready
  extend :
      {moves : List Move} {p q : Phase} {move : Move}
      → Log moves p
      → Step p move q
      → Log (moves ++ move ∷ []) q

-- the status that a run shows in a phase
unfoldable pub status_of : Phase → RunStatus
status_of ready = queued
status_of (active stage) = stage
status_of (settled stage) = stage
status_of mapped = verifying
status_of done = complete
status_of stopped = failed

-- the stages that have been started
abbrev started_by : Move → List RunStatus
started_by (stage_started, stage) = stage ∷ []
started_by _ = []

unfoldable pub started : List Move → List RunStatus
started [] = []
started (move ∷ moves) = started_by move ++ started moves

-- the stages that a run has started when it is in a phase
abbrev up_to : RunStatus → List RunStatus
up_to parsing = parsing ∷ []
up_to compiling_invariants = parsing ∷ compiling_invariants ∷ []
up_to indexing = parsing ∷ compiling_invariants ∷ indexing ∷ []
up_to investigating = parsing ∷ compiling_invariants ∷ indexing ∷ investigating ∷ []
up_to _ = parsing ∷ compiling_invariants ∷ indexing ∷ investigating ∷ verifying ∷ []

abbrev pub history : Phase → List RunStatus
history ready = []
history (active stage) = up_to stage
history (settled stage) = up_to stage
history _ = up_to verifying

started-snoc :
    (moves : List Move) (move : Move)
    → started (moves ++ move ∷ []) ≡ started moves ++ started_by move
unfolding started
started-snoc [] move = append_nil (started_by move)
started-snoc (m ∷ moves) move =
    ap (λ l. started_by m ++ l) (started-snoc moves move)
    ∙ sym (append_assoc (started_by m) (started moves) (started_by move))

started-Enters :
    {p : Phase} {stage : RunStatus}
    → Enters p stage
    → history p ++ stage ∷ [] ≡ history (active stage)
started-Enters enter_parsing = refl
started-Enters enter_compiling = refl
started-Enters enter_indexing = refl
started-Enters enter_investigating = refl
started-Enters enter_verifying = refl

abbrev pub is_stopped : Phase → Bool
is_stopped stopped = true
is_stopped _ = false

started-finish : (stage : RunStatus) → history (active stage) ++ [] ≡ history (settled stage)
started-finish stage = append_nil (up_to stage)

started-Step :
    {p q : Phase} {move : Move}
    → Step p move q
    → is_stopped q ≡ false
    → history p ++ started_by move ≡ history q
started-Step (starts e) o = started-Enters e
started-Step charges o = refl
started-Step (finishes {stage = stage}) o = started-finish stage
started-Step maps o = refl
started-Step completes o = refl
started-Step (fails h) o = absurd (ground arith)

open_not_stopped : (p : Phase) → is_open p ≡ true → is_stopped p ≡ false
open_not_stopped p h = ground arith

Step-not_stopped : {p q : Phase} {move : Move} → Step p move q → is_stopped p ≡ false
Step-not_stopped (starts enter_parsing) = refl
Step-not_stopped (starts enter_compiling) = refl
Step-not_stopped (starts enter_indexing) = refl
Step-not_stopped (starts enter_investigating) = refl
Step-not_stopped (starts enter_verifying) = refl
Step-not_stopped charges = refl
Step-not_stopped finishes = refl
Step-not_stopped maps = refl
Step-not_stopped completes = refl
Step-not_stopped (fails {p = p} h) = open_not_stopped p h

-- In a run that has not failed, the stages that were started are those up to its phase, in order.
pub started-Log :
    {moves : List Move} {p : Phase} → Log moves p → is_stopped p ≡ false → started moves ≡ history p
unfolding started
started-Log empty o = refl
started-Log (extend {moves = moves} {move = move} log step) o =
    started-snoc moves move
    ∙ ap (λ l. l ++ started_by move) (started-Log log (Step-not_stopped step))
    ∙ started-Step step o
