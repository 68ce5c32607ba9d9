-- ===== src/Audit/Workflow/Keeps.antt =====
-- backend/app/audit/workflow.py: actions that keep the log of a run, and how they compose.
use remedy_graph.Prelude.{
  String, ◌≡◌, refl, ap, sym, ◌∙◌, some, Bool, true, false, arith, Bool-cases, inl, inr,
}
use mathlib.Core.Path.{subst}
use remedy_graph.Prelude.{Option, none}
use remedy_graph.Result.{or_raise, runtime_error}
use remedy_graph.Storage.{commit}
use remedy_graph.Storage.Incidents.{get_incident, list_actions}
use remedy_graph.Storage.Records.{get_project}
use remedy_graph.Audit.Workflow.{required_project, required_incident}
use remedy_graph.Storage.Action.{◌>>◌}
use remedy_graph.Prelude.{if◌then◌else◌}
use remedy_graph.Audit.Workflow.Machine.{is_open}
use remedy_graph.Result.{Error, Result, ok, err, is_ok}
use remedy_graph.Audit.Contracts.{AuditWorkflowState, RepositoryIndexMetadata}
use remedy_graph.Storage.{Store}
use remedy_graph.Storage.Action.{Action, pure, lift, reads, ◌>>=◌, resume}
use remedy_graph.Storage.Snapshot.{write_snapshot, save_audit_state, load_audit_state}
use remedy_graph.Storage.Snapshot.Laws.{save-ok, save_error_unchanged}
use remedy_graph.Storage.Snapshot.Reload.{load-write_log, load-save_repository_index}
use remedy_graph.Storage.Records.{save_repository_index}
use remedy_graph.Audit.Workflow.Machine.{Phase}
use remedy_graph.Audit.Workflow.Log.{IsLogged, IsLogged-id, IsLogged-IsNumbered, sort-IsNumbered}
use remedy_graph.Audit.Workflow.Stages.{saved}

pub ok-injective : {A : Type 0} (a b : A) → Result.ok a ≡ Result.ok b → a ≡ b
ok-injective a b e = ground arith

-- The store has the incidents and the projects of another one.
abbrev pub SameRecords : Store → Store → Type 0
SameRecords first s =
    ((id : String) → get_incident s id ≡ get_incident first id)
    × ((id : String) → get_project s id ≡ get_project first id)

or_raise-ok : {A : Type 0} (o : Option A) (e : Error) (a : A) → or_raise o e ≡ ok a → o ≡ some a
or_raise-ok none e a h = absurd (ground arith)
or_raise-ok (some b) e a h = ground arith

SameRecords-write :
    (first s : Store) (state : AuditWorkflowState)
    → SameRecords first s
    → SameRecords first (write_snapshot state s)
unfolding get_incident list_actions get_project write_snapshot
SameRecords-write first s state h = h

SameRecords-index :
    (first s : Store) (accepts : Store → Bool) (metadata : RepositoryIndexMetadata)
    → SameRecords first s
    → SameRecords first (save_repository_index accepts metadata s).1
unfolding save_repository_index commit get_incident list_actions get_project
SameRecords-index first s accepts metadata h =
    (λ id. ground (arith, h.0 id), λ id. ground (arith, h.1 id))

module _ (run : String) (first : Store) where
  -- the run, if it can be loaded, has a log and is not over
  abbrev pub IsOpen : Store → Type 0
  IsOpen s =
      (state : AuditWorkflowState)
      → load_audit_state s run ≡ ok (some state)
      → (p : Phase) × (is_open p ≡ true) × IsLogged run p state

  -- this, and the incidents and the projects are the first ones
  abbrev pub IsHeld : Store → Type 0
  IsHeld s = IsOpen s × SameRecords first s

  -- the action keeps the stored log, and a result of it has the property
  abbrev pub Keeps : {A : Type 0} → (A → Type 0) → Action A → Type 0
  Keeps P m = (s : Store) → IsHeld s → IsHeld (m s).1 × ((a : _) → (m s).0 ≡ ok a → P a)

  -- the same for the last action of a run, which keeps the stored log when it fails
  abbrev pub Ends : {A : Type 0} → (A → Type 0) → Action A → Type 0
  Ends P m =
      (s : Store)
      → IsHeld s
      → ((e : Error) → (m s).0 ≡ err e → IsHeld (m s).1) × ((a : _) → (m s).0 ≡ ok a → P a)

  module _ {A : Type 0} where
    pub Keeps-pure : {P : A → Type 0} (a : A) → P a → Keeps P (pure a)
    Keeps-pure {P} a h s held = (held, λ b e. subst P (ok-injective a b e) h)

    pub Keeps-lift : (r : Result A) → Keeps (λ a. r ≡ ok a) (lift r)
    Keeps-lift r s held = (held, λ a e. e)

    pub Keeps-reads : (f : Store → Result A) → Keeps (λ a. (t : Store) × (f t ≡ ok a)) (reads f)
    Keeps-reads f s held = (held, λ a e. (s, e))

    pub Keeps-weaken :
        {P Q : A → Type 0} (m : Action A) → Keeps P m → ((a : A) → P a → Q a) → Keeps Q m
    Keeps-weaken m k f s held = let (kept, p) = k s held in (kept, λ a e. f a (p a e))

  module _ {A B : Type 0} {P : A → Type 0} {Q : B → Type 0} where
    Keeps-resume :
        (r : Result A) (f : A → Action B) (s : Store)
        → IsHeld s
        → ((a : A) → r ≡ ok a → P a)
        → ((a : A) → P a → Keeps Q (f a))
        → IsHeld (resume r f s).1 × ((b : B) → (resume r f s).0 ≡ ok b → Q b)
    Keeps-resume (err e) f s held p q = (held, λ b h. absurd (ground arith))
    Keeps-resume (ok a) f s held p q = q a (p a refl) s held

    pub Keeps-bind :
        (m : Action A) (f : A → Action B)
        → Keeps P m
        → ((a : A) → P a → Keeps Q (f a))
        → Keeps Q (m >>= f)
    Keeps-bind m f km kf s held =
        let (kept, p) = km s held in Keeps-resume (m s).0 f (m s).1 kept p kf

  -- what a state that is loaded after a save has
  IsOpen-write :
      (p : Phase) (state : AuditWorkflowState) (s : Store)
      → is_open p ≡ true
      → IsLogged run p state
      → IsOpen (write_snapshot state s)
  unfolding IsLogged
  IsOpen-write p state s o h loaded e =
      let (id, status, events) =
        load-write_log state loaded s
          (ap (load_audit_state (write_snapshot state s)) (IsLogged-id run p state h) ∙ e) in
      (
        p,
        o,
        rw (id, status, events ∙ sort-IsNumbered 0 state.events (IsLogged-IsNumbered run p state h))
            h,
      )

  pub Keeps-guard :
      {B : Type 0} {Q : B → Type 0} (r : Result (Unit {0})) (m : Action B)
      → Keeps Q m
      → Keeps Q (lift r >> m)
  Keeps-guard r m k = Keeps-bind (lift r) (λ _. m) (Keeps-lift r) (λ u _. k)

  pub Keeps-if :
      {A : Type 0} {P : A → Type 0} (b : Bool) (m n : Action A)
      → Keeps P m
      → Keeps P n
      → Keeps P (if b then m else n)
  Keeps-if true m n k l = k
  Keeps-if false m n k l = l

  pub Keeps-project :
      (id : String) → Keeps (λ p. get_project first id ≡ some p) (required_project id)
  unfolding required_project
  Keeps-project id s held = (
    held,
    λ a e.
        sym (held.1.1 id) ∙ or_raise-ok (get_project s id) (runtime_error "project not found") a e,
  )

  pub Keeps-incident :
      (id : String) → Keeps (λ p. get_incident first id ≡ some p) (required_incident id)
  unfolding required_incident
  Keeps-incident id s held = (
    held,
    λ a e.
        sym (held.1.0 id)
        ∙ or_raise-ok (get_incident s id) (runtime_error "incident not found") a e,
  )

  module _ (accepts : Store → Bool) where
    pub Keeps-write :
        (p : Phase) (state : AuditWorkflowState)
        → is_open p ≡ true
        → IsLogged run p state
        → Keeps {A = Unit} (λ _. Unit) (save_audit_state accepts state)
    Keeps-write p state o h s held =
        elim (Bool-cases (is_ok (save_audit_state accepts state s).0)) [
          | inl e ↦ (
            rw (save-ok accepts state s e).1
                ((IsOpen-write p state s o h, SameRecords-write first s state held.1)),
            λ u k. tt,
          )
          | inr e ↦ (rw (save_error_unchanged accepts state s e) held, λ u k. tt)
        ]

    pub Keeps-saved :
        (p : Phase) (state : AuditWorkflowState)
        → is_open p ≡ true
        → IsLogged run p state
        → Keeps (λ t. t ≡ state) (saved accepts state)
    unfolding saved
    Keeps-saved p state o h =
        Keeps-bind (save_audit_state accepts state) (λ _. pure state) (Keeps-write p state o h)
          (λ u _. Keeps-pure state refl)

    pub Keeps-index :
        (metadata : RepositoryIndexMetadata)
        → Keeps (λ t. Unit) (save_repository_index accepts metadata)
    Keeps-index metadata s held = (
      (
        (λ st e. held.0 st (sym (load-save_repository_index accepts metadata s run) ∙ e)),
        SameRecords-index first s accepts metadata held.1,
      ),
      λ u k. tt,
    )

    Ends-step :
        {P : AuditWorkflowState → Type 0} (state : AuditWorkflowState) (r : Result (Unit {0}))
        (s : Store)
        → P state
        → ((e : Error) → r ≡ err e → IsHeld s)
        → ((e : Error)
            → (resume r (λ _. pure state) s).0 ≡ err e
            → IsHeld (resume r (λ _. pure state) s).1)
          × ((a : AuditWorkflowState) → (resume r (λ _. pure state) s).0 ≡ ok a → P a)
    Ends-step {P} state (err z) s h held = (λ e k. held z refl, λ a k. absurd (ground arith))
    Ends-step {P} state (ok u) s h held =
        (λ e k. absurd (ground arith), λ a k. subst P (ok-injective state a k) h)

    pub Ends-saved :
        {P : AuditWorkflowState → Type 0} (state : AuditWorkflowState)
        → P state
        → Ends P (saved accepts state)
    unfolding saved
    Ends-saved {P} state h s held =
        let (r, t) = save_audit_state accepts state s in
        Ends-step {P = P} state r t h
          (λ e k. rw (save_error_unchanged accepts state s (ap is_ok k)) held)

  module _ {A B : Type 0} {P : A → Type 0} {Q : B → Type 0} where
    Ends-resume :
        (r : Result A) (f : A → Action B) (s : Store)
        → IsHeld s
        → ((a : A) → r ≡ ok a → P a)
        → ((a : A) → P a → Ends Q (f a))
        → ((e : Error) → (resume r f s).0 ≡ err e → IsHeld (resume r f s).1)
          × ((b : B) → (resume r f s).0 ≡ ok b → Q b)
    Ends-resume (err e) f s held p q = (λ z h. held, λ b h. absurd (ground arith))
    Ends-resume (ok a) f s held p q = q a (p a refl) s held

    pub Ends-bind :
        (m : Action A) (f : A → Action B)
        → Keeps P m
        → ((a : A) → P a → Ends Q (f a))
        → Ends Q (m >>= f)
    Ends-bind m f km kf s held =
        let (kept, p) = km s held in Ends-resume (m s).0 f (m s).1 kept p kf

  module _ {A : Type 0} {P : A → Type 0} where
    Ends-last :
        (r : Result A) (s : Store)
        → ((e : Error) → r ≡ err e → IsHeld s) × ((a : A) → r ≡ ok a → P a)
        → ((e : Error) → (resume r pure s).0 ≡ err e → IsHeld (resume r pure s).1)
          × ((a : A) → (resume r pure s).0 ≡ ok a → P a)
    Ends-last (err e) s h = h
    Ends-last (ok a) s h = h

    -- nothing is left to do after the last action
    pub Ends-pure : (m : Action A) → Ends P m → Ends P (m >>= pure)
    Ends-pure m k s held = Ends-last (m s).0 (m s).1 (k s held)
