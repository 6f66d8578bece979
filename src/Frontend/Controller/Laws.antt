-- ===== src/Frontend/Controller/Laws.antt =====
-- A controller over the packets that it is given.
use mfi_wrapper.Prelude.{ℕ, ◌≡◌, refl, ap, ◌∙◌, Bool, true, [], ◌∷◌}
use mfi_wrapper.Protocol.{ConnectPacket, InputState}
use mfi_wrapper.Protocol.Wire.{state_words}
use mfi_wrapper.Frontend.Value.{is_nan, is_above_threshold, is_negative, is_positive}
use mfi_wrapper.Frontend.Element.{dpad_with}
use mfi_wrapper.Frontend.Element.Laws.{IsDirectionPad}
use mfi_wrapper.Frontend.Element.Walk.{
  NoNan, sizes, sum, values, same_values, AllAgree, sizes-update, update-AllAgree, update-shows,
  update-silent,
}
use mfi_wrapper.Frontend.Controller.{
  Controller, new_elements, controller_for_handle, tweak_update_buttons,
}

-- A controller has the fifteen elements, the pads among them in the places of the packet's pairs, and
-- the parts of each element agree.
pub record IsController (c : Controller) : Type 0 where
  pub layout :
      sizes c.tweak_elements ≡ 2 ∷ 1 ∷ 1 ∷ 1 ∷ 1 ∷ 1 ∷ 1 ∷ 2 ∷ 2 ∷ 1 ∷ 1 ∷ 1 ∷ 1 ∷ 1 ∷ 1 ∷ []
  pub agree : AllAgree c.tweak_elements

new_pad : (b : Bool) → IsDirectionPad (dpad_with b)
unfolding is_above_threshold is_nan is_negative is_positive
new_pad b = record {
  left = (refl, refl);
  right = (refl, refl);
  up = (refl, refl);
  down = (refl, refl);
}

pub controller_for_handle-IsController :
    (handle : ℕ) (p : ConnectPacket) → IsController (controller_for_handle handle p)
unfolding controller_for_handle new_elements is_above_threshold is_nan is_negative is_positive
controller_for_handle-IsController handle p = record { layout = refl; agree = search (new_pad) }

pub update-IsController :
    (c : Controller) (s : InputState ℕ) → IsController c → IsController (tweak_update_buttons c s).0
unfolding tweak_update_buttons
update-IsController c s h = record {
  layout = sizes-update c.tweak_elements (state_words s) ∙ h.layout;
  agree = update-AllAgree c.tweak_elements (state_words s) h.agree;
}

-- For a controller with the layout of elements that the frontend gives it, and a packet with no NaN
-- among its floats, tweakUpdateButtons: leaves elements whose values, read in the order of the
-- elements, are equal as floats to the packet's 18 floats in the order of the structure.
pub update_shows_packet :
    (c : Controller) (s : InputState ℕ)
    → IsController c
    → NoNan (state_words s)
    → same_values (values (tweak_update_buttons c s).0.tweak_elements) (state_words s) ≡ true
unfolding tweak_update_buttons
update_shows_packet c s h k = update-shows c.tweak_elements (state_words s) (ap sum h.layout) k

-- For a controller with the layout of elements that the frontend gives it, and a packet with no NaN
-- among its floats, a second update with the same packet changes nothing and calls no handler.
pub repeat_is_silent :
    (c : Controller) (s : InputState ℕ)
    → IsController c
    → NoNan (state_words s)
    → let after = (tweak_update_buttons c s).0 in tweak_update_buttons after s ≡ (after, [])
unfolding tweak_update_buttons
repeat_is_silent c s h k =
    let after = (tweak_update_buttons c s).0 in
    ap (λ r. (record after { tweak_elements = r.0 }, r.1))
      (update-silent after.tweak_elements (state_words s) (update_shows_packet c s h k))
