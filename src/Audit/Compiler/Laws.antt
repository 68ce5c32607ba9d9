-- ===== src/Audit/Compiler/Laws.antt =====
-- backend/app/audit/compiler.py: what a compilation produces.
use remedy_graph.Prelude.{
  String, ◌≡◌, refl, Option, none, some, List, [], ◌∷◌, ◌++◌, map, filter, member, all, Bool, true,
  false, ◌&&◌, eq_iff, arith, All, Bool-cases, inl, inr, if◌then◌else◌,
}
use remedy_graph.Models.{ActionItem}
use remedy_graph.Audit.Contracts.{
  Number, RequirementKind, RequirementAvailability, DeterministicCheckType, CompiledInvariant,
  DeterministicCheckSpec, explains_why, is_supported,
}
use remedy_graph.Audit.Compiler.Terms.{TextTools}
use remedy_graph.Audit.Compiler.{
  CompilationResult, text_of, invariant_id, compile_numeric, compile_runtime, compile_behavior,
  compile_measured, compile_action, compile,
}

-- The core check of a requirement is the one that its kind names, or none can be run.
abbrev pub Matches : RequirementKind → DeterministicCheckSpec → Type 0
Matches RequirementKind.numeric_configuration s = s.check_type ≡ (
    if is_supported s.availability
    then DeterministicCheckType.configuration_value
    else DeterministicCheckType.unsupported)
Matches RequirementKind.code_static s = s.check_type ≡ DeterministicCheckType.static_code
Matches RequirementKind.test_protection s = s.check_type ≡ DeterministicCheckType.test_protection
Matches RequirementKind.runtime_context s = s.check_type ≡ DeterministicCheckType.runtime_context
Matches RequirementKind.unsupported s = s.check_type ≡ DeterministicCheckType.unsupported

-- A check beside the core one looks for regression protection, and can be run.
pub record IsProtection (i : CompiledInvariant) (s : DeterministicCheckSpec) : Type 0 where
  pub owner : s.invariant_id ≡ i.id
  pub kind : s.check_type ≡ DeterministicCheckType.test_protection
  pub side : s.core ≡ false
  pub runnable : s.availability ≡ RequirementAvailability.supported

pub record IsCore (i : CompiledInvariant) (s : DeterministicCheckSpec) : Type 0 where
  pub owner : s.invariant_id ≡ i.id
  pub core : s.core ≡ true
  pub available : s.availability ≡ i.availability
  pub reason : s.unavailable_reason ≡ i.unavailable_reason
  pub explained : explains_why s.availability s.unavailable_reason ≡ true
  pub matches : Matches i.requirement_kind s

module _ (tools : TextTools) (sha256_hex : String → String) where
  pub record IsFor (action : ActionItem) (i : CompiledInvariant) : Type 0 where
    pub action_id : i.action_id ≡ action.id
    pub id : i.id ≡ invariant_id tools sha256_hex action
    pub text : i.original_action ≡ text_of tools sha256_hex action
    pub explained : explains_why i.availability i.unavailable_reason ≡ true

  -- One invariant, its core check, and then only checks of its protection.
  abbrev pub IsSound : ActionItem → List CompiledInvariant → List DeterministicCheckSpec → Type 0
  IsSound action (i ∷ []) (s ∷ rest) = IsFor action i × IsCore i s × All (IsProtection i) rest
  IsSound action _ _ = ⊥

  abbrev Sound : ActionItem → CompilationResult → Type 0
  Sound action r = IsSound action r.invariants r.check_specs

  numeric-Sound :
      (a : ActionItem) (n : Number) (u : Option String)
      → Sound a (compile_numeric tools sha256_hex a n u)
  unfolding compile_numeric explains_why
  numeric-Sound a n u = ground arith

  runtime-Sound : (a : ActionItem) → Sound a (compile_runtime tools sha256_hex a)
  unfolding compile_runtime explains_why
  runtime-Sound a = ground arith

  behavior-Sound : (a : ActionItem) → Sound a (compile_behavior tools sha256_hex a)
  unfolding compile_behavior explains_why
  behavior-Sound a = ground arith

  measured-Sound :
      (a : ActionItem) (m : Option (Number × Option String))
      → Sound a (compile_measured tools sha256_hex a m)
  unfolding compile_measured
  measured-Sound a (some (n, u)) = numeric-Sound a n u
  measured-Sound a none = behavior-Sound a

  -- Every action compiles to exactly one invariant, which is its own and has its text, and to one
  -- core check that fits the requirement's kind and availability, followed only by checks of its
  -- regression protection. What cannot be run says why, so the validators never refuse.
  pub compile_action-IsSound :
      (action : ActionItem)
      → let r = compile_action tools sha256_hex action in IsSound action r.invariants r.check_specs
  unfolding compile_action
  compile_action-IsSound a =
      elim (Bool-cases (tools.mentions_runtime (text_of tools sha256_hex a))) [
        | inl e ↦ rw e (runtime-Sound a)
        | inr e ↦ rw e (measured-Sound a (tools.find_number (text_of tools sha256_hex a)))
      ]

  abbrev ids : List CompiledInvariant → List String
  ids is = map (λ (i : CompiledInvariant). i.id) is

  abbrev owned : List String → List DeterministicCheckSpec → Bool
  owned known specs = all (λ (s : DeterministicCheckSpec). member s.invariant_id known) specs

  -- the requirements of the core checks
  abbrev pub cores : List DeterministicCheckSpec → List String
  cores specs =
      map (λ (s : DeterministicCheckSpec). s.invariant_id)
        (filter (λ (s : DeterministicCheckSpec). s.core) specs)

  owned-append :
      (known : List String) (xs ys : List DeterministicCheckSpec)
      → owned known (xs ++ ys) ≡ (owned known xs && owned known ys)
  owned-append known [] ys = refl
  owned-append known (x ∷ xs) ys = ground (arith, owned-append known xs ys)

  owned-weaken :
      (k : String) (known : List String) (xs : List DeterministicCheckSpec)
      → owned known xs ≡ true
      → owned (k ∷ known) xs ≡ true
  owned-weaken k known [] h = refl
  owned-weaken k known (x ∷ xs) h = ground (arith, owned-weaken k known xs)

  cores-append : (xs ys : List DeterministicCheckSpec) → cores (xs ++ ys) ≡ cores xs ++ cores ys
  cores-append [] ys = refl
  cores-append (x ∷ xs) ys = ground (arith, cores-append xs ys)

  protection-cores :
      (i : CompiledInvariant) (xs : List DeterministicCheckSpec)
      → All (IsProtection i) xs
      → cores xs ≡ []
  protection-cores i [] h = refl
  protection-cores i (x ∷ xs) h = ground (arith, protection-cores i xs h.1)

  protection-owned :
      (i : CompiledInvariant) (known : List String) (xs : List DeterministicCheckSpec)
      → All (IsProtection i) xs
      → owned (i.id ∷ known) xs ≡ true
  protection-owned i known [] h = refl
  protection-owned i known (x ∷ xs) h =
      ground (arith, protection-owned i known xs h.1, eq_iff x.invariant_id i.id)

  -- What the invariants and the checks of a list of actions are.
  pub record Covers (actions : List ActionItem) (invariants : List CompiledInvariant)
      (specs : List DeterministicCheckSpec) : Type 0 where
    pub actions_in_order :
        map (λ (i : CompiledInvariant). i.action_id) invariants
        ≡ map (λ (a : ActionItem). a.id) actions
    pub ids_in_order : ids invariants ≡ map (invariant_id tools sha256_hex) actions
    pub owners_known : owned (ids invariants) specs ≡ true
    pub one_core_each : cores specs ≡ ids invariants

  Covers-append :
      (a : ActionItem) (is : List CompiledInvariant) (ss : List DeterministicCheckSpec)
      (actions : List ActionItem) (invariants : List CompiledInvariant)
      (specs : List DeterministicCheckSpec)
      → IsSound a is ss
      → Covers actions invariants specs
      → Covers (a ∷ actions) (is ++ invariants) (ss ++ specs)
  Covers-append a (i ∷ []) (s ∷ rest) actions invariants specs (own, core, side) c = record {
    actions_in_order = cc (own.action_id, c.actions_in_order);
    ids_in_order = cc (own.id, c.ids_in_order);
    owners_known = ground (
      arith,
      eq_iff s.invariant_id i.id,
      core.owner,
      owned-append (i.id ∷ ids invariants) rest specs,
      protection-owned i (ids invariants) rest side,
      owned-weaken i.id (ids invariants) specs c.owners_known,
    );
    one_core_each =
        rw core.core
          (cc (core.owner, cores-append rest specs, protection-cores i rest side, c.one_core_each));
  }
  Covers-append a [] ss actions invariants specs h c = absurd h
  Covers-append a (i ∷ []) [] actions invariants specs h c = absurd h
  Covers-append a (i ∷ j ∷ is) ss actions invariants specs h c = absurd h

  -- The invariants of a list of actions are one for each action in order, each under its stable id;
  -- every check belongs to one of them, and the core checks belong to the invariants one by one,
  -- in the same order.
  pub compile-Covers :
      (actions : List ActionItem)
      → let r = compile tools sha256_hex actions in Covers actions r.invariants r.check_specs
  unfolding compile
  compile-Covers [] = record {
    actions_in_order = refl;
    ids_in_order = refl;
    owners_known = refl;
    one_core_each = refl;
  }
  compile-Covers (a ∷ actions) =
      let r = compile_action tools sha256_hex a in
      let rest = compile tools sha256_hex actions in
      Covers-append a r.invariants r.check_specs actions rest.invariants rest.check_specs
        (compile_action-IsSound a) (compile-Covers actions)
