-- ===== src/Audit/Checks/Safe.antt =====
-- backend/app/audit/checks.py: results whose errors `run` catches.
use remedy_graph.Prelude.{ap}
use remedy_graph.Prelude.{
  String, Option, none, some, List, [], ◌∷◌, ◌++◌, Bool, true, false, ◌≡◌, refl, arith,
  if◌then◌else◌,
}
use mathlib.Core.Path.{subst}
use remedy_graph.Result.{Error, value_error, Result, ok, err, raise_if, or_raise, ◌>>=◌, ◌>>◌}
use remedy_graph.Audit.Contracts.{Value}
use remedy_graph.Audit.Checks.Keys.{text_list}
use remedy_graph.Audit.Checks.Scan.{is_value_or_type_error, collect, skipping}
use remedy_graph.Prelude.{◌||◌, Bool-cases, inl, inr}
use remedy_graph.Audit.Checks.Run.{is_caught}

-- the exceptions of the result are among these
pub record Raises (may : Error → Bool) {A : Type 0} (r : Result A) : Type 0 where
  pub among : (e : Error) → r ≡ err e → may e ≡ true

-- an exception of the result is one that `run` catches
abbrev pub IsSafe : {A : Type 0} → Result A → Type 0
IsSafe r = Raises is_caught r

err-injective : {A : Type 0} (y z : Error) → ◌≡◌ {A = Result A} (err y) (err z) → y ≡ z
err-injective y z h = ground arith

module _ {may : Error → Bool} where
  pub Raises-err : (A : Type 0) (z : Error) → may z ≡ true → Raises may {A = A} (err z)
  Raises-err A z h = record { among = λ e k. subst (λ y. may y ≡ true) (err-injective z e k) h }

  module _ {A : Type 0} where
    pub IsSafe-ok : (a : A) → Raises may (ok a)
    IsSafe-ok a = record { among = λ e h. absurd (ground arith) }

    pub IsSafe-if :
        (b : Bool) (r t : Result A) → Raises may r → Raises may t → Raises may (if b then r else t)
    IsSafe-if true r t h k = h
    IsSafe-if false r t h k = k

    -- what the `except` of a `try` catches is no exception of it
    pub IsSafe-skipping :
        (caught : Error → Bool) (default : A) (r : Result A)
        → Raises (λ e. caught e || may e) r
        → Raises may (skipping caught default r)
    unfolding skipping
    IsSafe-skipping caught default (ok a) h = IsSafe-ok a
    IsSafe-skipping caught default (err z) h = elim (Bool-cases (caught z)) [
      | inl c ↦ rw c (IsSafe-ok default)
      | inr c ↦ rw c (Raises-err A z (ground (arith, h.among z refl, c)))
    ]

    pub Raises-weaken :
        {fewer : Error → Bool} (r : Result A)
        → ((e : Error) → fewer e ≡ true → may e ≡ true)
        → Raises fewer r
        → Raises may r
    Raises-weaken r w h = record { among = λ e k. w e (h.among e k) }

  module _ {A B : Type 0} where
    pub IsSafe-bind :
        (r : Result A) (f : A → Result B)
        → Raises may r
        → ((a : A) → Raises may (f a))
        → Raises may (r >>= f)
    IsSafe-bind (err z) f h k = record { among = λ e p. h.among e (ap err (err-injective z e p)) }
    IsSafe-bind (ok a) f h k = k a

  pub IsSafe-collect :
      {A B : Type 0} (f : A → Result (List B)) (xs : List A)
      → ((a : A) → Raises may (f a))
      → Raises may (collect f xs)
  unfolding collect
  IsSafe-collect f [] h = IsSafe-ok []
  IsSafe-collect f (x ∷ xs) h =
      IsSafe-bind (f x) _ (h x)
        (λ ys. IsSafe-bind (collect f xs) _ (IsSafe-collect f xs h) (λ zs. IsSafe-ok (ys ++ zs)))

pub IsSafe-or_raise :
    {A : Type 0} (o : Option A) (message : String) → IsSafe (or_raise o (value_error message))
unfolding is_value_or_type_error
IsSafe-or_raise none message = Raises-err {may = is_caught} _ (value_error message) refl
IsSafe-or_raise (some a) message = IsSafe-ok a

pub IsSafe-then :
    {B : Type 0} (b : Bool) (message : String) (t : Result B)
    → IsSafe t
    → IsSafe (raise_if b (value_error message) >> t)
unfolding is_value_or_type_error
IsSafe-then true message t h = Raises-err {may = is_caught} _ (value_error message) refl
IsSafe-then false message t h = h

pub IsSafe-text_list : (v : Option Value) → IsSafe (text_list v)
unfolding text_list is_value_or_type_error
IsSafe-text_list none = IsSafe-ok []
IsSafe-text_list (some (Value.texts xs)) = IsSafe-ok xs
IsSafe-text_list (some (Value.number n)) = Raises-err {may = is_caught} (List String) _ refl
IsSafe-text_list (some (Value.text n)) = Raises-err {may = is_caught} (List String) _ refl
IsSafe-text_list (some (Value.count n)) = Raises-err {may = is_caught} (List String) _ refl
IsSafe-text_list (some (Value.observations n)) = Raises-err {may = is_caught} (List String) _ refl
IsSafe-text_list (some (Value.terms n)) = Raises-err {may = is_caught} (List String) _ refl
IsSafe-text_list (some (Value.counts n)) = Raises-err {may = is_caught} (List String) _ refl
IsSafe-text_list (some (Value.located n)) = Raises-err {may = is_caught} (List String) _ refl
