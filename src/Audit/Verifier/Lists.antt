-- ===== src/Audit/Verifier/Lists.antt =====
-- The tests of the verdict as tests on the whole lists, and what is kept of the texts.
use remedy_graph.Prelude.{
  ◌≡◌, refl, List, [], ◌∷◌, filter, any, all, is_empty, length, length-filter, not, Bool, ◌&&◌,
  ◌||◌, eqb, arith,
}

module _ {ℓ} {A : Type ℓ} where
  pub is_empty-filter : (p : A → Bool) (xs : List A) → is_empty (filter p xs) ≡ not (any p xs)
  is_empty-filter p [] = refl
  is_empty-filter p (x ∷ xs) = ground (arith, is_empty-filter p xs)

  pub any-filter : (p q : A → Bool) (xs : List A) → any p (filter q xs) ≡ any (λ x. q x && p x) xs
  any-filter p q [] = refl
  any-filter p q (x ∷ xs) = ground (arith, any-filter p q xs)

  pub filter-filter :
      (p q : A → Bool) (xs : List A) → filter p (filter q xs) ≡ filter (λ x. q x && p x) xs
  filter-filter p q [] = refl
  filter-filter p q (x ∷ xs) = ground (arith, filter-filter p q xs)

  pub filter_idem : (p : A → Bool) (xs : List A) → filter p (filter p xs) ≡ filter p xs
  filter_idem p [] = refl
  filter_idem p (x ∷ xs) = ground (arith, filter_idem p xs)

  pub eqb-length-filter :
      (p : A → Bool) (xs : List A) → eqb (length (filter p xs)) (length xs) ≡ all p xs
  eqb-length-filter p [] = refl
  eqb-length-filter p (x ∷ xs) = ground (arith, eqb-length-filter p xs, length-filter p xs)

  pub not-any : (p : A → Bool) (xs : List A) → not (any p xs) ≡ all (λ x. not (p x)) xs
  not-any p [] = refl
  not-any p (x ∷ xs) = ground (arith, not-any p xs)

  pub all-and : (p q : A → Bool) (xs : List A) → all (λ x. p x && q x) xs ≡ (all p xs && all q xs)
  all-and p q [] = refl
  all-and p q (x ∷ xs) = ground (arith, all-and p q xs)

  pub all-filter :
      (p q : A → Bool) (xs : List A) → all p (filter q xs) ≡ all (λ x. not (q x) || p x) xs
  all-filter p q [] = refl
  all-filter p q (x ∷ xs) = ground (arith, all-filter p q xs)
