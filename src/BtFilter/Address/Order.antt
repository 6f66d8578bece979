-- ===== src/BtFilter/Address/Order.antt =====
-- The comparisons of addresses are one total order, as the map's keys need.
use mfi_wrapper.Prelude.{ℕ, ◌≡◌, refl, List, [], ◌∷◌, arith, length}
use mfi_wrapper.BtFilter.Address.{Sign, less, equal, greater, memcmp}

abbrev pub flip : Sign → Sign
flip less = greater
flip equal = equal
flip greater = less

-- Swapping the arguments swaps the sign.
pub memcmp-flip : (xs ys : List ℕ) → memcmp ys xs ≡ flip (memcmp xs ys)
unfolding memcmp
memcmp-flip [] [] = refl
memcmp-flip [] (y ∷ ys) = refl
memcmp-flip (x ∷ xs) [] = refl
memcmp-flip (x ∷ xs) (y ∷ ys) = ground (arith, memcmp-flip xs ys)

pub memcmp_refl : (xs : List ℕ) → memcmp xs xs ≡ equal
unfolding memcmp
memcmp_refl [] = refl
memcmp_refl (x ∷ xs) = ground (arith, memcmp_refl xs)

-- Equal means the same bytes.
pub memcmp-equal : (xs ys : List ℕ) → length xs ≡ length ys → memcmp xs ys ≡ equal → xs ≡ ys
unfolding memcmp
memcmp-equal [] [] n e = refl
memcmp-equal [] (y ∷ ys) n e = absurd (omega arith)
memcmp-equal (x ∷ xs) [] n e = absurd (omega arith)
memcmp-equal (x ∷ xs) (y ∷ ys) n e = ground (arith, memcmp-equal xs ys (omega arith))

pub memcmp_trans :
    (xs ys zs : List ℕ)
    → length xs ≡ length ys
    → length ys ≡ length zs
    → memcmp xs ys ≡ less
    → memcmp ys zs ≡ less
    → memcmp xs zs ≡ less
unfolding memcmp
memcmp_trans [] ys zs n m e f = cc
memcmp_trans (x ∷ xs) [] zs n m e f = cc
memcmp_trans (x ∷ xs) (y ∷ ys) [] n m e f = cc
memcmp_trans (x ∷ xs) (y ∷ ys) (z ∷ zs) n m e f = ground (
  arith,
  memcmp_trans xs ys zs (omega arith) (omega arith),
  memcmp-equal xs ys (omega arith),
  memcmp-equal ys zs (omega arith),
)
