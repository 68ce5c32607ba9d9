-- ===== src/Result.antt =====
-- The exceptions of the program as values: a call that may raise returns a `Result`. Python's
-- class of an exception is its constructor, and the text is the message.
use remedy_graph.Prelude.{
  ℕ, String, Bool, true, false, Option, none, some, ◌≡◌, refl, ◌⊎◌, inl, inr,
}

pub data BudgetKind : Type 0 where
  model_call investigation_round : BudgetKind

pub data Error : Type 0 where
  budget_exceeded : BudgetKind → Error
  value_error : String → Error
  state_integrity : String → Error
  path_safety : String → Error
  guard_safety : String → Error
  runtime_error : String → Error
  key_error : String → Error
  type_error : String → Error
  os_error : String → Error
  overflow_error : String → Error
  syntax_error : String → Error
  yaml_error : String → Error
  http : ℕ → String → Error
  storage_busy : Error
  integrity_error : Error

-- A value, or the exception that was raised.
pub data Result {ℓ} (A : Type ℓ) : Type ℓ where
  err : Error → Result A
  ok : A → Result A

infixl 5 ◌>>=◌ ◌>>◌
abbrev pub ◌>>=◌ {ℓ κ} : {A : Type ℓ} → {B : Type κ} → Result A → (A → Result B) → Result B
err e >>= next = err e
ok value >>= next = next value

-- a statement that only raises or goes on
abbrev pub ◌>>◌ {ℓ} : {B : Type ℓ} → Result (Unit {0}) → Result B → Result B
err e >> next = err e
ok tt >> next = next

-- if b: raise e
abbrev pub raise_if : Bool → Error → Result (Unit {0})
raise_if true e = err e
raise_if false e = ok tt

-- `if value is None: raise e`
abbrev pub or_raise {ℓ} : {A : Type ℓ} → Option A → Error → Result A
or_raise none e = err e
or_raise (some a) e = ok a

abbrev pub is_ok {ℓ} : {A : Type ℓ} → Result A → Bool
is_ok (ok a) = true
is_ok (err e) = false

-- To split on an outcome and keep the equation.
pub result_cases {ℓ} :
    {A : Type ℓ} (r : Result A) → ((error : Error) × (r ≡ err error)) ⊎ ((a : A) × (r ≡ ok a))
result_cases (err error) = inl (error, refl)
result_cases (ok a) = inr (a, refl)
