-- ===== src/Frontend/Element.antt =====
-- The elements of a controller: GCControllerButtonInput, GCControllerAxisInput and
-- GCControllerDirectionPad of src/frontend/MFiWrapper.mm. A `float` is its 32-bit pattern. A handler is
-- a block of the application: a number, and `none` if there is none. A call of a handler is a value.
-- `collection`, which no method reads, is left out.
pub mod Laws
pub mod Walk
use mfi_wrapper.Prelude.{
  ℕ, Bool, true, false, ◌&&◌, List, [], ◌∷◌, ◌++◌, Option, none, some, get_or, drop, if◌then◌else◌,
}
use mfi_wrapper.Frontend.Value.{equal, is_negative, is_positive, is_above_threshold, fabsf}

-- What the application sees: the calls of its blocks with their arguments, and the notifications, with
-- the controller's handle (`none` for a null controller).
pub data Call : Type 0 where
  button_changed : ℕ → ℕ → Bool → Call
  axis_changed : ℕ → ℕ → Call
  dpad_changed : ℕ → ℕ → ℕ → Call
  paused : ℕ → Call
  discovery_completed : ℕ → Call
  did_connect : ℕ → Call
  did_disconnect : Option ℕ → Call

pub record ButtonInput : Type 0 where
  pub analog : Bool
  pub value_changed_handler : Option ℕ
  pub value : ℕ
  pub pressed : Bool

pub record AxisInput : Type 0 where
  pub analog : Bool
  pub value_changed_handler : Option ℕ
  pub value : ℕ

pub record DirectionPad : Type 0 where
  pub analog : Bool
  pub value_changed_handler : Option ℕ
  pub x_axis : AxisInput
  pub y_axis : AxisInput
  pub up : ButtonInput
  pub down : ButtonInput
  pub left : ButtonInput
  pub right : ButtonInput

-- buttonWithParent:analog:, axisWithParent:analog: and dpadWithParent:analog:, all else zero.
abbrev pub button_with : Bool → ButtonInput
button_with is_analog = record {
  analog = is_analog;
  value_changed_handler = none;
  value = 0;
  pressed = false;
}

abbrev pub axis_with : Bool → AxisInput
axis_with is_analog = record { analog = is_analog; value_changed_handler = none; value = 0 }

abbrev pub dpad_with : Bool → DirectionPad
dpad_with is_analog = record {
  analog = is_analog;
  value_changed_handler = none;
  x_axis = axis_with is_analog;
  y_axis = axis_with is_analog;
  up = button_with is_analog;
  down = button_with is_analog;
  left = button_with is_analog;
  right = button_with is_analog;
}

-- A call of a handler, if there is one.
abbrev pub call : Option ℕ → (ℕ → Call) → List Call
call none f = []
call (some block) f = f block ∷ []

-- tweakSetValue: of a button.
unfoldable pub set_button : ButtonInput → ℕ → ButtonInput × List Call
set_button b v =
    let pressed_now = is_above_threshold v in
    if equal v b.value then (b, []) else (
      record b { value = v; pressed = pressed_now },
      call b.value_changed_handler (λ block. button_changed block v pressed_now),
    )

-- tweakSetValue: of an axis.
unfoldable pub set_axis : AxisInput → ℕ → AxisInput × List Call
set_axis a v =
    if equal v a.value
    then (a, [])
    else (record a { value = v }, call a.value_changed_handler (λ block. axis_changed block v))

-- What the buttons of a pad show of an axis.
abbrev pub backward : ℕ → ℕ
backward v = if is_negative v then fabsf v else 0

abbrev pub forward : ℕ → ℕ
forward v = if is_positive v then v else 0

-- tweakSetValues: of a pad.
unfoldable pub set_dpad : DirectionPad → ℕ → ℕ → DirectionPad × List Call
set_dpad p vx vy =
    let (x', x_calls) = set_axis p.x_axis vx in
    let (left', left_calls) = set_button p.left (backward vx) in
    let (right', right_calls) = set_button p.right (forward vx) in
    let (y', y_calls) = set_axis p.y_axis vy in
    let (up', up_calls) = set_button p.up (backward vy) in
    let (down', down_calls) = set_button p.down (forward vy) in
    if equal p.x_axis.value vx && equal p.y_axis.value vy then (p, []) else (
      record p { x_axis = x'; y_axis = y'; up = up'; down = down'; left = left'; right = right' },
      x_calls
          ++ left_calls
          ++ right_calls
          ++ y_calls
          ++ up_calls
          ++ down_calls
          ++ call p.value_changed_handler (λ block. dpad_changed block vx vy),
    )

pub data Element : Type 0 where
  button : ButtonInput → Element
  dpad : DirectionPad → Element

-- tweakSetValues: from the floats that the pointer is at: how many it took, the element, the calls.
unfoldable pub set_values : Element → List ℕ → ℕ × Element × List Call
set_values (button b) values =
    let (b', calls) = set_button b (get_or values 0 0) in (1, button b', calls)
set_values (dpad p) values =
    let (p', calls) = set_dpad p (get_or values 0 0) (get_or values 1 0) in (2, dpad p', calls)

-- The loop of tweakUpdateButtons:, the pointer at the floats of the list.
unfoldable pub update_elements : List Element → List ℕ → List Element × List Call
update_elements [] values = ([], [])
update_elements (e ∷ es) values =
    let (n, e', calls) = set_values e values in
    let (es', more) = update_elements es (drop n values) in (e' ∷ es', calls ++ more)
