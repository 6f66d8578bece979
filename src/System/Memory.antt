-- ===== src/System/Memory.antt =====
-- Objects in memory by their addresses.
use mfi_wrapper.Prelude.{
  ℕ, ◌≡◌, refl, List, [], ◌∷◌, Option, none, some, arith, ◌==◌, if◌then◌else◌,
}

abbrev pub Table : Type 0 → Type 0
Table A = List (ℕ × A)

module _ {A : Type 0} where
  unfoldable pub lookup : ℕ → Table A → Option A
  lookup i [] = none
  lookup i ((k, a) ∷ rest) = if k == i then some a else lookup i rest

  -- A new object, or new contents.
  unfoldable pub put : ℕ → A → Table A → Table A
  put i a [] = (i, a) ∷ []
  put i a ((k, b) ∷ rest) = if k == i then (k, a) ∷ rest else (k, b) ∷ put i a rest

  -- `delete`
  unfoldable pub remove : ℕ → Table A → Table A
  remove i [] = []
  remove i ((k, a) ∷ rest) = if k == i then remove i rest else (k, a) ∷ remove i rest

  pub lookup-put :
      (i k : ℕ) (a : A) (t : Table A)
      → lookup k (put i a t) ≡ (if i == k then some a else lookup k t)
  unfolding lookup put
  lookup-put i k a [] = refl
  lookup-put i k a ((j, b) ∷ rest) = ground (arith, lookup-put i k a rest)

  pub lookup-remove :
      (i k : ℕ) (t : Table A) → lookup k (remove i t) ≡ (if i == k then none else lookup k t)
  unfolding lookup remove
  lookup-remove i k [] = ground arith
  lookup-remove i k ((j, b) ∷ rest) = ground (arith, lookup-remove i k rest)
