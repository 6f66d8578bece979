-- ===== src/HidPad/Float.antt =====
-- C's `float`, which no source file implements: a type with the operations that the controllers use,
-- and, apart from these, the facts of IEEE arithmetic that properties rest on. All of the facts are
-- about numbers: an order never holds of a NaN.
use mfi_wrapper.Prelude.{ℕ, ◌≡◌, Bool}
use mfi_wrapper.Prelude.Int.{ℤ, pos, ◌≤ℤ◌}

pub record FloatOps : Type 1 where
  pub Float : Type 0
  -- The conversion of an `int32_t`, and the literals of whole numbers.
  pub of_int : ℤ → Float
  pub neg : Float → Float
  pub sub : Float → Float → Float
  pub div : Float → Float → Float
  -- `x > 0`
  pub is_pos : Float → Bool
  -- The bits that a `float` has in memory.
  pub bits : Float → ℕ

module _ (F : FloatOps) where
  open F use {Float, of_int, neg, sub, div}

  pub record FloatLaws : Type 1 where
    pub Le : Float → Float → Type 0
    pub le_trans : {x y z : Float} → Le x y → Le y z → Le x z
    -- Rounding is monotone.
    pub of_int_mono : (m n : ℤ) → m ≤ℤ n → Le (of_int m) (of_int n)
    pub div_mono :
        (x y : Float) (n : ℤ) → pos 1 ≤ℤ n → Le x y → Le (div x (of_int n)) (div y (of_int n))
    pub sub_anti : (x y : Float) (n : ℤ) → Le x y → Le (sub (of_int n) y) (sub (of_int n) x)
    pub neg_anti : (x y : Float) → Le x y → Le (neg y) (neg x)
    -- Zero has two signs, and they are equal in the order.
    pub neg_zero-le : Le (neg (of_int (pos 0))) (of_int (pos 0))
    -- These results are exact.
    pub zero-div : (n : ℤ) → pos 1 ≤ℤ n → div (of_int (pos 0)) (of_int n) ≡ of_int (pos 0)
    pub div_self : (n : ℤ) → pos 1 ≤ℤ n → div (of_int n) (of_int n) ≡ of_int (pos 1)
    pub one-sub-zero : sub (of_int (pos 1)) (of_int (pos 0)) ≡ of_int (pos 1)
    pub one-sub-one : sub (of_int (pos 1)) (of_int (pos 1)) ≡ of_int (pos 0)
    pub zero-sub-zero : sub (of_int (pos 0)) (of_int (pos 0)) ≡ of_int (pos 0)
    pub zero-sub-one : sub (of_int (pos 0)) (of_int (pos 1)) ≡ neg (of_int (pos 1))
    pub zero-sub-neg : sub (of_int (pos 0)) (neg (of_int (pos 1))) ≡ of_int (pos 1)
