-- ===== src/Frontend/Gamepad/Laws.antt =====
-- What a gamepad's properties show of a packet.
use mfi_wrapper.Prelude.{
  ℕ, zero, suc, ◌≡◌, refl, sym, ap, ap₂, ◌∙◌, true, ◌&&◌, List, [], ◌∷◌, arith, take, drop,
}
use mfi_wrapper.Protocol.{
  InputState, Button, dpad, a_button, b_button, x_button, y_button, left_shoulder, right_shoulder,
  left_thumbstick, right_thumbstick, left_trigger, right_trigger, select, start, left_stick_button,
  right_stick_button,
}
use mfi_wrapper.Protocol.Wire.{state_words}
use mfi_wrapper.Frontend.Value.{equal}
use mfi_wrapper.Frontend.Element.{Element, button}
use mfi_wrapper.Frontend.Element.Walk.{NoNan, sizes, values, same_values, ands}
use mfi_wrapper.Frontend.Controller.{Controller, tweak_update_buttons}
use mfi_wrapper.Frontend.Controller.Laws.{IsController, update-IsController, update_shows_packet}
use mfi_wrapper.Frontend.Gamepad.{extended_gamepad_for_controller, property, shown_at}

-- The fields of a packet for a control.
abbrev pub field : InputState ℕ → Button → List ℕ
field s dpad = s.dpad_x ∷ s.dpad_y ∷ []
field s a_button = s.a ∷ []
field s b_button = s.b ∷ []
field s x_button = s.x ∷ []
field s y_button = s.y ∷ []
field s left_shoulder = s.left_shoulder ∷ []
field s right_shoulder = s.right_shoulder ∷ []
field s left_thumbstick = s.left_stick_x ∷ s.left_stick_y ∷ []
field s right_thumbstick = s.right_stick_x ∷ s.right_stick_y ∷ []
field s left_trigger = s.left_trigger ∷ []
field s right_trigger = s.right_trigger ∷ []
field s select = s.select ∷ []
field s start = s.start ∷ []
field s left_stick_button = s.left_stick_button ∷ []
field s right_stick_button = s.right_stick_button ∷ []

-- A part of a list of floats, by the sizes of the elements.
abbrev slice : List ℕ → ℕ → List ℕ → List ℕ
slice [] i ws = []
slice (n ∷ ns) zero ws = take n ws
slice (n ∷ ns) (suc i) ws = slice ns i (drop n ws)

shown-slice : (es : List Element) (i : ℕ) → shown_at es i ≡ slice (sizes es) i (values es)
shown-slice [] i = refl
shown-slice (button b ∷ es) zero = refl
shown-slice (Element.dpad p ∷ es) zero = refl
shown-slice (button b ∷ es) (suc i) = shown-slice es i
shown-slice (Element.dpad p ∷ es) (suc i) = shown-slice es i

take-same :
    (n : ℕ) (vs ws : List ℕ) → same_values vs ws ≡ true → same_values (take n vs) (take n ws) ≡ true
take-same zero vs ws h = refl
take-same (suc n) [] [] h = refl
take-same (suc n) [] (w ∷ ws) h = absurd (ground (arith, h))
take-same (suc n) (v ∷ vs) [] h = absurd (ground (arith, h))
take-same (suc n) (v ∷ vs) (w ∷ ws) h =
    let (here, there) = ands (equal v w) (same_values vs ws) h in
    ap₂ (λ x y. x && y) here (take-same n vs ws there)

drop-same :
    (n : ℕ) (vs ws : List ℕ) → same_values vs ws ≡ true → same_values (drop n vs) (drop n ws) ≡ true
drop-same zero vs ws h = h
drop-same (suc n) [] [] h = refl
drop-same (suc n) [] (w ∷ ws) h = absurd (ground (arith, h))
drop-same (suc n) (v ∷ vs) [] h = absurd (ground (arith, h))
drop-same (suc n) (v ∷ vs) (w ∷ ws) h = drop-same n vs ws (ands (equal v w) (same_values vs ws) h).1

slice-same :
    (ns : List ℕ) (i : ℕ) (vs ws : List ℕ)
    → same_values vs ws ≡ true
    → same_values (slice ns i vs) (slice ns i ws) ≡ true
slice-same [] i vs ws h = refl
slice-same (n ∷ ns) zero vs ws h = take-same n vs ws h
slice-same (n ∷ ns) (suc i) vs ws h = slice-same ns i (drop n vs) (drop n ws) (drop-same n vs ws h)

abbrev layout : List ℕ
layout = 2 ∷ 1 ∷ 1 ∷ 1 ∷ 1 ∷ 1 ∷ 1 ∷ 2 ∷ 2 ∷ 1 ∷ 1 ∷ 1 ∷ 1 ∷ 1 ∷ 1 ∷ []

-- The slices of a packet are its fields.
slice-field :
    (s : InputState ℕ) (k : Button)
    → slice layout (property extended_gamepad_for_controller k) (state_words s) ≡ field s k
unfolding extended_gamepad_for_controller
slice-field s dpad = refl
slice-field s a_button = refl
slice-field s b_button = refl
slice-field s x_button = refl
slice-field s y_button = refl
slice-field s left_shoulder = refl
slice-field s right_shoulder = refl
slice-field s left_thumbstick = refl
slice-field s right_thumbstick = refl
slice-field s left_trigger = refl
slice-field s right_trigger = refl
slice-field s select = refl
slice-field s start = refl
slice-field s left_stick_button = refl
slice-field s right_stick_button = refl

-- For a controller with the layout of elements that the frontend gives it, a packet with no NaN
-- among its floats, and any control: after tweakUpdateButtons: the element that the extended
-- gamepad's property for this control points at has values equal as floats to the packet's fields
-- for this control.
pub properties_show_packet :
    (c : Controller) (s : InputState ℕ) (k : Button)
    → IsController c
    → NoNan (state_words s)
    → same_values
        (shown_at
          (tweak_update_buttons c s).0.tweak_elements
          (property extended_gamepad_for_controller k))
        (field s k)
      ≡ true
properties_show_packet c s k h n =
    let es = (tweak_update_buttons c s).0.tweak_elements in
    let i = property extended_gamepad_for_controller k in
    ap₂ same_values
      (shown-slice es i ∙ ap (λ ns. slice ns i (values es)) (update-IsController c s h).layout)
      (sym (slice-field s k))
    ∙ slice-same layout i (values es) (state_words s) (update_shows_packet c s h n)
