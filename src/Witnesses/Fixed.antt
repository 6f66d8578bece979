-- ===== src/Witnesses/Fixed.antt =====
-- Numbers in thousandths, an arithmetic in which the facts that the properties assume of `float` hold.
use native.Mathlib.Nat.{
  mul-div-mul_left, mul-div_cancel, div-le_of_le-mul, le-div_iff_mul-le, div-mul-le_self,
}
use mfi_wrapper.Prelude.{ℕ, suc, ◌+◌, ◌*◌, ◌/◌, ◌≤◌, ◌<◌, ◌≡◌, refl, ap, ◌∙◌, arith}
use mfi_wrapper.Prelude.Int.{
  ℤ, pos, negsuc, pos_part, neg_part, sub_ℕ, ◌-ℤ◌, ◌≤ℤ◌, -ℤ_parts, ltb_ℤ, wrap,
}
use mfi_wrapper.HidPad.Float.{FloatOps, FloatLaws}

-- The quotient for a positive divisor, rounded towards 0.
abbrev quot : ℤ → ℤ → ℤ
quot (pos a) k = pos (1000 * a / pos_part k)
quot (negsuc a) k = sub_ℕ 0 (1000 * suc a / pos_part k)

abbrev thousand : ℤ → ℤ
thousand (pos n) = pos (1000 * n)
thousand (negsuc n) = negsuc (1000 * n + 999)

abbrev negated : ℤ → ℤ
negated x = sub_ℕ (neg_part x) (pos_part x)

abbrev pub thousandths : FloatOps
thousandths = record {
  Float = ℤ;
  of_int = thousand;
  neg = negated;
  sub = ◌-ℤ◌;
  div = quot;
  is_pos = λ x. ltb_ℤ (pos 0) x;
  bits = wrap 0x100000000;
}

div_le : (a b k : ℕ) → 0 < k → a ≤ b → a / k ≤ b / k
div_le a b k h le = (le-div_iff_mul-le h).1 (omega (arith, div-mul-le_self a k))

scaled : (a k : ℕ) → 1000 * a / (1000 * k) ≡ a / k
scaled a k = mul-div-mul_left a k (omega arith)

quot_mono : (x y n : ℤ) → pos 1 ≤ℤ n → x ≤ℤ y → quot x (thousand n) ≤ℤ quot y (thousand n)
quot_mono (pos a) (pos b) (pos n) h le =
    omega (arith, div_le (1000 * a) (1000 * b) (1000 * n) (omega arith) (omega arith))
quot_mono (negsuc a) (negsuc b) (pos n) h le =
    ground (arith, div_le (1000 * suc b) (1000 * suc a) (1000 * n) (omega arith) (omega arith))
quot_mono (negsuc a) (pos b) (pos n) h le = ground arith
quot_mono (pos a) (negsuc b) (pos n) h le = absurd (omega arith)
quot_mono x y (negsuc n) h le = absurd (omega arith)

thousand_mono : (m n : ℤ) → m ≤ℤ n → thousand m ≤ℤ thousand n
thousand_mono (pos m) (pos n) h = omega arith
thousand_mono (pos m) (negsuc n) h = absurd (omega arith)
thousand_mono (negsuc m) (pos n) h = omega arith
thousand_mono (negsuc m) (negsuc n) h = omega arith

quot_self : (n : ℤ) → pos 1 ≤ℤ n → quot (thousand n) (thousand n) ≡ thousand (pos 1)
quot_self (pos n) h = ap pos (scaled (1000 * n) n ∙ mul-div_cancel 1000 (omega arith))
quot_self (negsuc n) h = absurd (omega arith)

zero_quot : (n : ℤ) → pos 1 ≤ℤ n → quot (pos 0) (thousand n) ≡ pos 0
zero_quot (pos n) h =
    ap pos (omega (arith, div-le_of_le-mul (1000 * n) {m = 0} {n = 0} (omega arith)))
zero_quot (negsuc n) h = absurd (omega arith)

negated_anti : (x y : ℤ) → x ≤ℤ y → negated y ≤ℤ negated x
negated_anti x y h = ground arith

pub thousandths_laws : FloatLaws thousandths
thousandths_laws = record {
  Le = ◌≤ℤ◌;
  le_trans = λ h k. omega arith;
  of_int_mono = thousand_mono;
  div_mono = quot_mono;
  sub_anti = λ x y n h. omega (arith, -ℤ_parts (thousand n) x, -ℤ_parts (thousand n) y);
  neg_anti = negated_anti;
  neg_zero-le = omega arith;
  zero-div = zero_quot;
  div_self = quot_self;
  one-sub-zero = unfold ◌-ℤ◌ in refl;
  one-sub-one = unfold ◌-ℤ◌ in refl;
  zero-sub-zero = unfold ◌-ℤ◌ in refl;
  zero-sub-one = unfold ◌-ℤ◌ in refl;
  zero-sub-neg = unfold ◌-ℤ◌ in refl;
}
