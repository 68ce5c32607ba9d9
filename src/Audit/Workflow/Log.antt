-- ===== src/Audit/Workflow/Log.antt =====
-- backend/app/audit/workflow.py: the log of a state. What is said of a state depends on its id, its
-- status and its events only.
use remedy_graph.Prelude.{
  ℕ, suc, ◌+◌, String, List, [], ◌∷◌, ◌++◌, map, length, All, All-append, ◌≡◌, refl, ap, ◌∙◌, arith,
}
use remedy_graph.Models.{RunStatus}
use remedy_graph.Audit.Contracts.{WorkflowEvent, WorkflowEventType, AuditWorkflowState}
use remedy_graph.Storage.Incidents.{sort_by, place, event_key}
use Prim.Native.String.{◌++◌ as ◌<>◌}
use remedy_graph.Audit.Workflow.{event, stage, new_event, status_value}
use remedy_graph.Audit.Workflow.Machine.{
  Phase, active, Move, Enters, Step, starts, Log, extend, status_of,
}

unfoldable pub moves : List WorkflowEvent → List Move
moves events = map (λ (e : WorkflowEvent). (e.event_type, e.stage)) events

-- the events are numbered from `n` on
unfoldable pub IsNumbered : ℕ → List WorkflowEvent → Type 0
IsNumbered n [] = Unit
IsNumbered n (e ∷ es) = (e.sequence ≡ n) × IsNumbered (suc n) es

unfoldable pub HasLog : String → Phase → String → RunStatus → List WorkflowEvent → Type 0
HasLog run p id status events =
    (id ≡ run)
    × (status ≡ status_of p)
    × Log (moves events) p
    × IsNumbered 0 events
    × All (λ (e : WorkflowEvent). e.run_id ≡ run) events

-- The events of a state are numbered, belong to the run, and lead to a phase with its status.
unfoldable pub IsLogged : String → Phase → AuditWorkflowState → Type 0
IsLogged run p state = HasLog run p state.summary.id state.summary.status state.events

pub IsLogged-id :
    (run : String) (p : Phase) (state : AuditWorkflowState)
    → IsLogged run p state
    → state.summary.id ≡ run
unfolding IsLogged HasLog
IsLogged-id run p state h = h.0

pub IsLogged-status :
    (run : String) (p : Phase) (state : AuditWorkflowState)
    → IsLogged run p state
    → state.summary.status ≡ status_of p
unfolding IsLogged HasLog
IsLogged-status run p state h = h.1

pub IsLogged-IsNumbered :
    (run : String) (p : Phase) (state : AuditWorkflowState)
    → IsLogged run p state
    → IsNumbered 0 state.events
unfolding IsLogged HasLog
IsLogged-IsNumbered run p state h = h.3

-- a list of events that is numbered is in the order of the database
place-first :
    (n : ℕ) (e : WorkflowEvent) (es : List WorkflowEvent)
    → e.sequence ≡ n
    → IsNumbered (suc n) es
    → place event_key e es ≡ e ∷ es
unfolding place IsNumbered
place-first n e [] h k = refl
place-first n e (x ∷ es) h k = ground arith

pub sort-IsNumbered :
    (n : ℕ) (es : List WorkflowEvent) → IsNumbered n es → sort_by event_key es ≡ es
unfolding sort_by IsNumbered
sort-IsNumbered n [] h = refl
sort-IsNumbered n (e ∷ es) h =
    ap (place event_key e) (sort-IsNumbered (suc n) es h.1) ∙ place-first n e es h.0 h.1

IsNumbered-snoc :
    (n : ℕ) (es : List WorkflowEvent) (e : WorkflowEvent)
    → IsNumbered n es
    → e.sequence ≡ n + length es
    → IsNumbered n (es ++ e ∷ [])
unfolding IsNumbered
IsNumbered-snoc n [] e h k = (omega arith, tt)
IsNumbered-snoc n (x ∷ es) e h k = (h.0, IsNumbered-snoc (suc n) es e h.1 (omega arith))

moves-snoc :
    (es : List WorkflowEvent) (e : WorkflowEvent)
    → moves (es ++ e ∷ []) ≡ moves es ++ (e.event_type, e.stage) ∷ []
unfolding moves
moves-snoc [] e = refl
moves-snoc (x ∷ es) e = ap (λ l. (x.event_type, x.stage) ∷ l) (moves-snoc es e)

module _ (sha256_hex : String → String) (run : String) where
  -- An event is a step of the machine, from the phase before the status was set.
  pub event-IsLogged :
      {p q : Phase} {event_type : WorkflowEventType} {st : RunStatus} (detail : String)
      (state : AuditWorkflowState) (status : RunStatus)
      → HasLog run p state.summary.id status state.events
      → Step p (event_type, st) q
      → state.summary.status ≡ status_of q
      → IsLogged run q (event sha256_hex event_type st detail state)
  unfolding event IsLogged HasLog
  event-IsLogged {p} {q} {event_type} {st} detail state status (id, _, log, numbered, owned) step
        s =
      let e = new_event sha256_hex event_type st detail state in
      (
        id,
        s,
        rw (moves-snoc state.events e) (extend log step),
        IsNumbered-snoc 0 state.events e numbered (omega arith),
        All-append (λ (x : WorkflowEvent). x.run_id ≡ run) state.events (e ∷ []) owned (id, tt),
      )

  -- the start of a stage
  pub stage-IsLogged :
      {p : Phase} {status : RunStatus} (state : AuditWorkflowState)
      → IsLogged run p state
      → Enters p status
      → IsLogged run (active status) (stage sha256_hex status state)
  unfolding stage IsLogged HasLog status_of
  stage-IsLogged {p} {status} state h enters =
      event-IsLogged (status_value status <> " started")
        (record state { summary = record state.summary { status = status } }) (status_of p)
        (h.0, refl, h.2, h.3, h.4) (starts enters) refl
