-- ===== src/HidPad/Axis/Laws.antt =====
-- The range of the axis values, and their order.
use mfi_wrapper.Prelude.{
  ◌≡◌, refl, true, inl, inr, Bool-cases, ltb→lt, leb→le, le→leb, ltb_false→le, leb_false→lt,
  leb-false, arith,
}
use mfi_wrapper.Prelude.Int.{ℤ, pos, ◌-ℤ◌, ◌≤ℤ◌, -ℤ_parts, ◌<ℤ◌, ltb_ℤ, leb_ℤ}
use mfi_wrapper.HidPad.Float.{FloatOps, FloatLaws}
use mfi_wrapper.HidPad.Axis.{Calibration, is_ordered, axis_value}

pub record IsOrdered (c : Calibration) : Type 0 where
  pub low : c.c0 <ℤ c.c1
  pub middle : c.c1 ≤ℤ c.c2
  pub high : c.c2 <ℤ c.c3

-- The assertions hold exactly of ordered calibrations.
pub is_ordered-true : (c : Calibration) → IsOrdered c → is_ordered c ≡ true
unfolding is_ordered
is_ordered-true c h = ground arith

pub true-IsOrdered : (c : Calibration) → is_ordered c ≡ true → IsOrdered c
unfolding is_ordered
true-IsOrdered c h = ground arith

module _ (F : FloatOps) where
  open F use {Float, of_int, neg, sub, div}

  -- The value of an axis by the part of the range that the input lies in.
  pub data Zone (v : ℤ) (c : Calibration) : Float → Type 0 where
    under : v <ℤ c.c0 → Zone v c (neg (of_int (pos 1)))
    left :
        c.c0 ≤ℤ v
        → v <ℤ c.c1
        → Zone v c (
            sub
              (of_int (pos 0))
              (sub (of_int (pos 1)) (div (of_int (v -ℤ c.c0)) (of_int (c.c1 -ℤ c.c0)))))
    dead : c.c1 ≤ℤ v → v ≤ℤ c.c2 → Zone v c (of_int (pos 0))
    right : c.c2 <ℤ v → v ≤ℤ c.c3 → Zone v c (div (of_int (v -ℤ c.c2)) (of_int (c.c3 -ℤ c.c2)))
    over : c.c3 <ℤ v → Zone v c (of_int (pos 1))

  pub axis_value-Zone : (v : ℤ) (c : Calibration) → IsOrdered c → Zone v c (axis_value F v c)
  unfolding axis_value
  axis_value-Zone v c h = elim (Bool-cases (ltb_ℤ v c.c0)) [
    | inl e₀ ↦ rw e₀ (under (ltb→lt _ _ e₀))
    | inr e₀ ↦ rw e₀ (elim (Bool-cases (ltb_ℤ c.c3 v)) [
      | inl e₃ ↦ rw e₃ (over (ltb→lt _ _ e₃))
      | inr e₃ ↦ rw e₃ (elim (Bool-cases (ltb_ℤ v c.c1)) [
        | inl e₁ ↦
            rw (leb-false _ _ (ltb→lt _ _ e₁), e₁) (left (ltb_false→le _ _ e₀) (ltb→lt _ _ e₁))
        | inr e₁ ↦ rw (le→leb _ _ (ltb_false→le _ _ e₁)) (elim (Bool-cases (leb_ℤ v c.c2)) [
          | inl e₂ ↦ rw e₂ (dead (ltb_false→le _ _ e₁) (leb→le _ _ e₂))
          | inr e₂ ↦ rw (e₂, e₁) (right (leb_false→lt _ _ e₂) (ltb_false→le _ _ e₃))
        ])
      ])
    ])
  ]

  Zone-dead :
      {v : ℤ} {c : Calibration} {x : Float}
      → IsOrdered c
      → c.c1 ≤ℤ v
      → v ≤ℤ c.c2
      → Zone v c x
      → x ≡ of_int (pos 0)
  Zone-dead h low high (under p) = absurd (omega arith)
  Zone-dead h low high (left p q) = absurd (omega arith)
  Zone-dead h low high (dead p q) = refl
  Zone-dead h low high (right p q) = absurd (omega arith)
  Zone-dead h low high (over p) = absurd (omega arith)

  -- For an ordered calibration, `CalculateAxis` is 0 in the dead zone, its ends included.
  pub axis_value_dead :
      (v : ℤ) (c : Calibration)
      → IsOrdered c
      → c.c1 ≤ℤ v
      → v ≤ℤ c.c2
      → axis_value F v c ≡ of_int (pos 0)
  axis_value_dead v c h low high = Zone-dead h low high (axis_value-Zone v c h)

  module _ (L : FloatLaws F) where
    open L use {Le, le_trans}

    abbrev pub zero_f : Float
    zero_f = of_int (pos 0)

    abbrev pub one_f : Float
    one_f = of_int (pos 1)

    abbrev pub minus_one : Float
    minus_one = neg (of_int (pos 1))

    -- The values of an axis.
    abbrev pub InRange : Float → Type 0
    InRange x = Le minus_one x × Le x one_f

    pub le_same : (n : ℤ) → Le (of_int n) (of_int n)
    le_same n = L.of_int_mono n n (omega arith)

    pub minus_one-le : Le minus_one zero_f
    minus_one-le =
        rw (L.zero-sub-one, L.zero-sub-zero) at
          (L.sub_anti zero_f one_f (pos 0) (L.of_int_mono (pos 0) (pos 1) (omega arith)))

    pub minus_one-refl : Le minus_one minus_one
    minus_one-refl = rw (L.zero-sub-one) at (L.sub_anti one_f one_f (pos 0) (le_same (pos 1)))

    pub zero-le-one : Le zero_f one_f
    zero-le-one = L.of_int_mono (pos 0) (pos 1) (omega arith)

    -- A quotient of whole numbers that lie in order lies between 0 and 1.
    pub ratio_bounds :
        (m n : ℤ)
        → pos 0 ≤ℤ m
        → m ≤ℤ n
        → pos 1 ≤ℤ n
        → Le zero_f (div (of_int m) (of_int n)) × Le (div (of_int m) (of_int n)) one_f
    ratio_bounds m n nonneg below some_n = (
      rw (L.zero-div n some_n) at
          (L.div_mono zero_f (of_int m) n some_n (L.of_int_mono (pos 0) m nonneg)),
      rw (L.div_self n some_n) at
          (L.div_mono (of_int m) (of_int n) n some_n (L.of_int_mono m n below)),
    )

    -- 0 - (1 - x) for x between 0 and 1.
    flipped_bounds :
        (x : Float)
        → Le zero_f x × Le x one_f
        → Le minus_one (sub zero_f (sub one_f x)) × Le (sub zero_f (sub one_f x)) zero_f
    flipped_bounds x (low, high) = (
      rw (L.zero-sub-one) at (
          L.sub_anti (sub one_f x) one_f (pos 0)
            (rw (L.one-sub-zero) at (L.sub_anti zero_f x (pos 1) low))),
      rw (L.zero-sub-zero) at (
          L.sub_anti zero_f (sub one_f x) (pos 0)
            (rw (L.one-sub-one) at (L.sub_anti x one_f (pos 1) high))),
    )

    left_bounds :
        (v : ℤ) (c : Calibration)
        → c.c0 ≤ℤ v
        → v <ℤ c.c1
        → let x = sub zero_f (sub one_f (div (of_int (v -ℤ c.c0)) (of_int (c.c1 -ℤ c.c0)))) in
          Le minus_one x × Le x zero_f
    left_bounds v c low high = flipped_bounds _ (
        ratio_bounds (v -ℤ c.c0) (c.c1 -ℤ c.c0) (omega (arith, -ℤ_parts v c.c0))
          (omega (arith, -ℤ_parts v c.c0, -ℤ_parts c.c1 c.c0)) (omega (arith, -ℤ_parts c.c1 c.c0)))

    right_bounds :
        (v : ℤ) (c : Calibration)
        → c.c2 <ℤ v
        → v ≤ℤ c.c3
        → let x = div (of_int (v -ℤ c.c2)) (of_int (c.c3 -ℤ c.c2)) in Le zero_f x × Le x one_f
    right_bounds v c low high =
        ratio_bounds (v -ℤ c.c2) (c.c3 -ℤ c.c2) (omega (arith, -ℤ_parts v c.c2))
          (omega (arith, -ℤ_parts v c.c2, -ℤ_parts c.c3 c.c2)) (omega (arith, -ℤ_parts c.c3 c.c2))

    Zone-InRange : {v : ℤ} {c : Calibration} {x : Float} → Zone v c x → InRange x
    Zone-InRange (under h) = (minus_one-refl, le_trans minus_one-le zero-le-one)
    Zone-InRange {v} {c} (left low high) =
        let b = left_bounds v c low high in (b.0, le_trans b.1 zero-le-one)
    Zone-InRange (dead low high) = (minus_one-le, zero-le-one)
    Zone-InRange {v} {c} (right low high) =
        let b = right_bounds v c low high in (le_trans minus_one-le b.0, b.1)
    Zone-InRange (over h) = (le_trans minus_one-le zero-le-one, le_same (pos 1))

    -- Under the laws assumed of `float` and for an ordered calibration, every value of
    -- `CalculateAxis` lies between -1 and 1.
    pub axis_value-InRange : (v : ℤ) (c : Calibration) → IsOrdered c → InRange (axis_value F v c)
    axis_value-InRange v c h = Zone-InRange (axis_value-Zone v c h)

    -- 0.0f - x keeps the range, as the Playstation controllers' vertical axes need.
    pub negated-InRange : (x : Float) → InRange x → InRange (sub zero_f x)
    negated-InRange x (low, high) = (
      rw (L.zero-sub-one) at (L.sub_anti x one_f (pos 0) high),
      rw (L.zero-sub-neg) at (L.sub_anti minus_one x (pos 0) low),
    )

    Zone-mono :
        {v w : ℤ} {c : Calibration} {x y : Float}
        → IsOrdered c
        → v ≤ℤ w
        → Zone v c x
        → Zone w c y
        → Le x y
    Zone-mono h le (under a) z = (Zone-InRange z).0
    Zone-mono {v} {w} {c} h le (left a b) (left a' b') = L.sub_anti _ _ (pos 0) (
        L.sub_anti _ _ (pos 1) (
          L.div_mono _ _ (c.c1 -ℤ c.c0) (omega (arith, -ℤ_parts c.c1 c.c0)) (
            L.of_int_mono (v -ℤ c.c0) (w -ℤ c.c0)
              (omega (arith, -ℤ_parts v c.c0, -ℤ_parts w c.c0)))))
    Zone-mono {v} {w} {c} h le (left a b) (dead a' b') = (left_bounds v c a b).1
    Zone-mono {v} {w} {c} h le (left a b) (right a' b') =
        le_trans (left_bounds v c a b).1 (right_bounds w c a' b').0
    Zone-mono h le (dead a b) (dead a' b') = le_same (pos 0)
    Zone-mono {v} {w} {c} h le (dead a b) (right a' b') = (right_bounds w c a' b').0
    Zone-mono {v} {w} {c} h le (right a b) (right a' b') =
        L.div_mono _ _ (c.c3 -ℤ c.c2) (omega (arith, -ℤ_parts c.c3 c.c2))
          (L.of_int_mono (v -ℤ c.c2) (w -ℤ c.c2) (omega (arith, -ℤ_parts v c.c2, -ℤ_parts w c.c2)))
    Zone-mono h le z (over a) = (Zone-InRange z).1
    Zone-mono h le (left a b) (under p) = absurd (omega arith)
    Zone-mono h le (dead a b) (under p) = absurd (omega arith)
    Zone-mono h le (dead a b) (left p q) = absurd (omega arith)
    Zone-mono h le (right a b) (under p) = absurd (omega arith)
    Zone-mono h le (right a b) (left p q) = absurd (omega arith)
    Zone-mono h le (right a b) (dead p q) = absurd (omega arith)
    Zone-mono h le (over a) (under p) = absurd (omega arith)
    Zone-mono h le (over a) (left p q) = absurd (omega arith)
    Zone-mono h le (over a) (dead p q) = absurd (omega arith)
    Zone-mono h le (over a) (right p q) = absurd (omega arith)

    -- Under the laws assumed of `float` and for an ordered calibration, `CalculateAxis` is monotone:
    -- a larger input never gives a smaller value.
    pub axis_value_mono :
        (v w : ℤ) (c : Calibration)
        → IsOrdered c
        → v ≤ℤ w
        → Le (axis_value F v c) (axis_value F w c)
    axis_value_mono v w c h le = Zone-mono h le (axis_value-Zone v c h) (axis_value-Zone w c h)
