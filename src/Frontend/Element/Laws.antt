-- ===== src/Frontend/Element/Laws.antt =====
-- What an update leaves in the elements of a controller: what they show, and that their parts agree.
use mfi_wrapper.Prelude.{
  ℕ, ◌≡◌, sym, ap, ◌∙◌, inl, inr, true, false, ◌&&◌, arith, if◌then◌else◌, Bool-cases,
}
use mfi_wrapper.Frontend.Value.{is_nan, equal, is_negative, is_positive, is_above_threshold, fabsf}
use mfi_wrapper.Frontend.Element.{
  ButtonInput, AxisInput, DirectionPad, set_button, set_axis, backward, forward, set_dpad,
}

pub equal_sym : (a b : ℕ) → equal a b ≡ equal b a
unfolding equal is_nan
equal_sym a b = ground arith

equal_self : (a : ℕ) → is_nan a ≡ false → equal a a ≡ true
unfolding equal
equal_self a h = ground arith

-- What the buttons of a pad show is the same for equal values, and has no sign.
backward_cong : (v w : ℕ) → equal v w ≡ true → backward v ≡ backward w
unfolding equal is_nan is_negative fabsf
backward_cong v w h = ground arith

forward_cong : (v w : ℕ) → equal v w ≡ true → forward v ≡ forward w
unfolding equal is_nan is_positive
forward_cong v w h = ground arith

backward-equal : (v w : ℕ) → equal (backward v) (backward w) ≡ true → backward v ≡ backward w
unfolding equal is_nan is_negative fabsf
backward-equal v w h = ground arith

forward-equal : (v w : ℕ) → equal (forward v) (forward w) ≡ true → forward v ≡ forward w
unfolding equal is_nan is_positive
forward-equal v w h = ground arith

-- A button is pressed when its value says so.
abbrev pub IsButton : ButtonInput → Type 0
IsButton b = b.pressed ≡ is_above_threshold b.value

pub set_button-IsButton : (b : ButtonInput) (v : ℕ) → IsButton b → IsButton (set_button b v).0
unfolding set_button
set_button-IsButton b v h = ground (arith, h)

-- What a button, or an axis, holds after an update.
abbrev pub kept : ℕ → ℕ → ℕ
kept old v = if equal v old then old else v

pub set_button-value : (b : ButtonInput) (v : ℕ) → (set_button b v).0.value ≡ kept b.value v
unfolding set_button
set_button-value b v = ground arith

pub set_axis-value : (a : AxisInput) (v : ℕ) → (set_axis a v).0.value ≡ kept a.value v
unfolding set_axis
set_axis-value a v = ground arith

pub kept-equal : (old v : ℕ) → is_nan v ≡ false → equal (kept old v) v ≡ true
kept-equal old v h = ground (arith, equal_sym v old, equal_self v h)

backward-kept : (x v : ℕ) → kept (backward x) (backward v) ≡ backward (kept x v)
backward-kept x v = elim (Bool-cases (equal v x)) [
  | inl e ↦ ground (arith, backward_cong v x e)
  | inr e ↦ ground (arith, backward-equal v x)
]

forward-kept : (x v : ℕ) → kept (forward x) (forward v) ≡ forward (kept x v)
forward-kept x v = elim (Bool-cases (equal v x)) [
  | inl e ↦ ground (arith, forward_cong v x e)
  | inr e ↦ ground (arith, forward-equal v x)
]

-- The four buttons of a pad show its two axes.
pub record IsDirectionPad (p : DirectionPad) : Type 0 where
  pub left : IsButton p.left × (p.left.value ≡ backward p.x_axis.value)
  pub right : IsButton p.right × (p.right.value ≡ forward p.x_axis.value)
  pub up : IsButton p.up × (p.up.value ≡ backward p.y_axis.value)
  pub down : IsButton p.down × (p.down.value ≡ forward p.y_axis.value)

shows_backward :
    (a : AxisInput) (b : ButtonInput) (v : ℕ)
    → b.value ≡ backward a.value
    → (set_button b (backward v)).0.value ≡ backward (set_axis a v).0.value
shows_backward a b v h =
    set_button-value b (backward v)
    ∙ ap (λ o. kept o (backward v)) h
    ∙ backward-kept a.value v
    ∙ ap backward (sym (set_axis-value a v))

shows_forward :
    (a : AxisInput) (b : ButtonInput) (v : ℕ)
    → b.value ≡ forward a.value
    → (set_button b (forward v)).0.value ≡ forward (set_axis a v).0.value
shows_forward a b v h =
    set_button-value b (forward v)
    ∙ ap (λ o. kept o (forward v)) h
    ∙ forward-kept a.value v
    ∙ ap forward (sym (set_axis-value a v))

pub set_dpad-IsDirectionPad :
    (p : DirectionPad) (vx vy : ℕ) → IsDirectionPad p → IsDirectionPad (set_dpad p vx vy).0
unfolding set_dpad
set_dpad-IsDirectionPad p vx vy h =
    elim (Bool-cases (equal p.x_axis.value vx && equal p.y_axis.value vy)) [
      | inl e ↦
          rw (set_dpad, e) (record { left = h.left; right = h.right; up = h.up; down = h.down })
      | inr e ↦
          rw (set_dpad, e)
            (record {
              left = (
                set_button-IsButton p.left _ h.left.0,
                shows_backward p.x_axis p.left vx h.left.1,
              );
              right = (
                set_button-IsButton p.right _ h.right.0,
                shows_forward p.x_axis p.right vx h.right.1,
              );
              up = (set_button-IsButton p.up _ h.up.0, shows_backward p.y_axis p.up vy h.up.1);
              down = (
                set_button-IsButton p.down _ h.down.0,
                shows_forward p.y_axis p.down vy h.down.1,
              );
            })
    ]
