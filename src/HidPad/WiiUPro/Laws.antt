-- ===== src/HidPad/WiiUPro/Laws.antt =====
-- The Wii U Pro controller: its calibrations stay usable whatever packets come, so no assertion
-- fails; the range of its input, and pauses.
use mfi_wrapper.Prelude.{◌==◌, ◌&&◌}
use mfi_wrapper.Prelude.{
  ℕ, ◌≡◌, refl, ◌∙◌, Bool, true, false, List, [], ◌∷◌, ◌++◌, map, Option, none, some, arith,
  has_bits, bit_xor, if◌then◌else◌, Bool-cases, inl, inr,
}
use mfi_wrapper.Prelude.Int.{
  ℤ, pos, negsuc, ◌≤ℤ◌, +ℤ_parts, -ℤ_parts, min_ℤ, max_ℤ, min_ℤ-le, max_ℤ-le,
}
use mfi_wrapper.Protocol.{InputState}
use mfi_wrapper.HidPad.Float.{FloatOps, FloatLaws}
use mfi_wrapper.HidPad.Axis.{Calibration, axis_value}
use mfi_wrapper.HidPad.Axis.Laws.{IsOrdered, axis_value-InRange, axis_value_dead}
use mfi_wrapper.HidPad.Effect.{states, Effect, Outcome, byte, pauses, presses, run}
use mfi_wrapper.HidPad.Pause.{
  no_state, one_state, pauses-append, end_effects, end_effects-pauses, press, held_after, Handles,
  run-pauses,
}
use mfi_wrapper.HidPad.Range.{
  calculate_axis-IsOrdered, AllInRange, pressed-InRange, neg_pressed-InRange, if-InRange,
}
use mfi_wrapper.HidPad.WiiUPro.{
  Calibrations, WiiUPro, initial_calibration, widen, recalibrate, fetch16, recalibrate_all,
  is_ignored, report_effects, input_of, read_input, handle_input, handle_packet,
}

initial_calibration-IsOrdered : (v : ℤ) → IsOrdered (initial_calibration v)
unfolding initial_calibration
initial_calibration-IsOrdered v = omega (
  arith,
  -ℤ_parts v (pos 0x100),
  -ℤ_parts v (pos 0x80),
  +ℤ_parts v (pos 0x80),
  +ℤ_parts v (pos 0x100),
)

widen-IsOrdered : (v : ℤ) (c : Calibration) → IsOrdered c → IsOrdered (widen v c)
unfolding widen
widen-IsOrdered v c h = omega (arith, min_ℤ-le v c.c0, max_ℤ-le v c.c3, h.low, h.middle, h.high)

-- The four calibrations can be used.
pub record AllOrdered (c : Calibrations) : Type 0 where
  pub left_x : IsOrdered c.left_x
  pub left_y : IsOrdered c.left_y
  pub right_x : IsOrdered c.right_x
  pub right_y : IsOrdered c.right_y

-- Once a packet was handled, the calibrations can be used. Before, they hold anything.
abbrev pub IsCalibrated : WiiUPro → Type 0
IsCalibrated s = s.calibration_initialized ≡ true → AllOrdered s.calibrations

recalibrate-IsOrdered :
    (initialized : Bool) (v : ℤ) (c : Calibration)
    → (initialized ≡ true → IsOrdered c)
    → IsOrdered (recalibrate initialized v c)
unfolding recalibrate
recalibrate-IsOrdered true v c h = widen-IsOrdered v c (h refl)
recalibrate-IsOrdered false v c h =
    widen-IsOrdered v (initial_calibration v) (initial_calibration-IsOrdered v)

recalibrate_all-AllOrdered :
    (initialized : Bool) (d : List ℕ) (c : Calibrations)
    → (initialized ≡ true → AllOrdered c)
    → AllOrdered (recalibrate_all initialized d c)
unfolding recalibrate_all
recalibrate_all-AllOrdered initialized d c h = record {
  left_x = recalibrate-IsOrdered initialized _ c.left_x (λ e. (h e).left_x);
  left_y = recalibrate-IsOrdered initialized _ c.left_y (λ e. (h e).left_y);
  right_x = recalibrate-IsOrdered initialized _ c.right_x (λ e. (h e).right_x);
  right_y = recalibrate-IsOrdered initialized _ c.right_y (λ e. (h e).right_y);
}

-- The home button's state in a packet that is not ignored. The controller sends a 0 for a button that
-- is down.
abbrev pub home_of : List ℕ × ℕ → Option Bool
home_of (d, size) =
    if size == 23 && byte d 1 == 0x34 then some (has_bits (bit_xor (byte d 12) 0xFF) 0x08) else none

home_of_lem :
    (d : List ℕ) (size : ℕ)
    → home_of (d, size)
      ≡ (if is_ignored d size then none else some (has_bits (bit_xor (byte d 12) 0xFF) 0x08))
unfolding is_ignored
home_of_lem d size = ground arith

module _ (F : FloatOps) where
  open F use {Float, of_int}

  abbrev pub input : Calibrations → List ℕ → InputState Float
  input c d =
      input_of F (bit_xor (byte d 12) 0xFF) (bit_xor (byte d 13) 0xFF) (bit_xor (byte d 14) 0xFF)
        (axis_value F (fetch16 d 4) c.left_x) (axis_value F (fetch16 d 8) c.left_y)
        (axis_value F (fetch16 d 6) c.right_x) (axis_value F (fetch16 d 10) c.right_y)

  read_input-input :
      (c : Calibrations) (d : List ℕ) → AllOrdered c → read_input F c d ≡ some (input c d)
  unfolding read_input
  read_input-input c d h = rw (
    calculate_axis-IsOrdered F (fetch16 d 4) c.left_x h.left_x,
    calculate_axis-IsOrdered F (fetch16 d 8) c.left_y h.left_y,
    calculate_axis-IsOrdered F (fetch16 d 6) c.right_x h.right_x,
    calculate_axis-IsOrdered F (fetch16 d 10) c.right_y h.right_y,
  )

  abbrev pub input_outcome : WiiUPro → List ℕ → ℕ → Outcome WiiUPro Float
  input_outcome s d size =
      let down = has_bits (bit_xor (byte d 12) 0xFF) 0x08 in
      let c = recalibrate_all s.calibration_initialized d s.calibrations in
      if is_ignored d size then record { state = s; effects = [] } else record {
        state = record s { calibrations = c; calibration_initialized = true; pause_held = down };
        effects = end_effects s.pause_held down (input c d);
      }

  handle_input_lem :
      (s : WiiUPro) (d : List ℕ) (size : ℕ)
      → IsCalibrated s
      → handle_input F s d size ≡ some (input_outcome s d size)
  unfolding handle_input
  handle_input_lem s d size h = elim (Bool-cases (is_ignored d size)) [
    | inl e ↦ rw e
    | inr e ↦ rw (
      e,
      read_input-input (recalibrate_all s.calibration_initialized d s.calibrations) d
          (recalibrate_all-AllOrdered s.calibration_initialized d s.calibrations h),
    )
  ]

  abbrev pub due_reports : WiiUPro → List (Effect Float)
  due_reports s = if s.need_set_report then report_effects F s else []

  abbrev pub packet_outcome : WiiUPro → List ℕ → ℕ → Outcome WiiUPro Float
  packet_outcome s d size =
      let r = input_outcome (record s { need_set_report = false }) d size in
      record r { effects = due_reports s ++ r.effects }

  -- From every calibrated state each packet is handled so: no assertion fails.
  pub handle_packet_lem :
      (s : WiiUPro) (d : List ℕ) (size : ℕ)
      → IsCalibrated s
      → handle_packet F s d size ≡ some (packet_outcome s d size)
  unfolding handle_packet
  handle_packet_lem s d size h =
      rw (handle_input_lem (record s { need_set_report = false }) d size h)

  pub packet_outcome-IsCalibrated :
      (s : WiiUPro) (d : List ℕ) (size : ℕ)
      → IsCalibrated s
      → IsCalibrated (packet_outcome s d size).state
  packet_outcome-IsCalibrated s d size h = elim (Bool-cases (is_ignored d size)) [
    | inl e ↦ rw e h
    | inr e ↦ rw e (λ _. recalibrate_all-AllOrdered s.calibration_initialized d s.calibrations h)
  ]

  due_reports-pauses : (s : WiiUPro) → pauses (due_reports s) ≡ 0
  unfolding report_effects
  due_reports-pauses s = ground arith

  input_outcome-pauses :
      (s : WiiUPro) (d : List ℕ) (size : ℕ)
      → (pauses (input_outcome s d size).effects ≡ press s.pause_held (home_of (d, size)))
        × ((input_outcome s d size).state.pause_held ≡ held_after s.pause_held (home_of (d, size)))
  input_outcome-pauses s d size = rw (home_of_lem d size) (elim (Bool-cases (is_ignored d size)) [
    | inl e ↦ rw e (refl, refl)
    | inr e ↦ rw e (end_effects-pauses s.pause_held _ _, refl)
  ])

  abbrev pub step : WiiUPro → List ℕ × ℕ → Option (Outcome WiiUPro Float)
  step s (d, size) = handle_packet F s d size

  one_packet :
      (s : WiiUPro) (p : List ℕ × ℕ)
      → IsCalibrated s
      → Handles IsCalibrated (λ r. r.pause_held) s (home_of p) (step s p)
  one_packet s (d, size) h =
      let s' = record s { need_set_report = false } in
      record {
        outcome = packet_outcome s d size;
        returns = handle_packet_lem s d size h;
        keeps = packet_outcome-IsCalibrated s d size h;
        sends =
            pauses-append (due_reports s) (input_outcome s' d size).effects
            ∙ omega (arith, due_reports-pauses s, (input_outcome-pauses s' d size).0);
        remembers = (input_outcome-pauses s' d size).1;
      }

  -- Over any history of packets from a state of the Wii U Pro controller that can be calibrated, no
  -- assertion fails, the state stays so, and a pause is sent for each time that the home button goes
  -- down in a packet of 23 bytes with 0x34 in byte 1, and for no other.
  pub wii_u_pro_pauses :
      (s : WiiUPro) (ps : List (List ℕ × ℕ))
      → IsCalibrated s
      → (r : Outcome WiiUPro Float) × (run step s ps ≡ some r)
        × IsCalibrated r.state
        × (pauses r.effects ≡ presses s.pause_held (map home_of ps))
  wii_u_pro_pauses s ps h =
      run-pauses IsCalibrated (λ r. r.pause_held) home_of step one_packet s ps h

  -- Every number sent lies between -1 and 1, whatever the packet holds.
  pub input-AllInRange :
      (L : FloatLaws F) (c : Calibrations) (d : List ℕ) → AllOrdered c → AllInRange F L (input c d)
  unfolding input_of
  input-AllInRange L c d h = record {
    dpad_x = if-InRange F L _ (neg_pressed-InRange F L _) (pressed-InRange F L _);
    dpad_y = if-InRange F L _ (neg_pressed-InRange F L _) (pressed-InRange F L _);
    a = pressed-InRange F L _;
    b = pressed-InRange F L _;
    x = pressed-InRange F L _;
    y = pressed-InRange F L _;
    left_shoulder = pressed-InRange F L _;
    right_shoulder = pressed-InRange F L _;
    left_stick_x = axis_value-InRange F L _ c.left_x h.left_x;
    left_stick_y = axis_value-InRange F L _ c.left_y h.left_y;
    right_stick_x = axis_value-InRange F L _ c.right_x h.right_x;
    right_stick_y = axis_value-InRange F L _ c.right_y h.right_y;
    left_trigger = pressed-InRange F L _;
    right_trigger = pressed-InRange F L _;
    select = pressed-InRange F L _;
    start = pressed-InRange F L _;
    left_stick_button = pressed-InRange F L _;
    right_stick_button = pressed-InRange F L _;
  }

  due_reports-states : (s : WiiUPro) → states (due_reports s) ≡ []
  unfolding report_effects
  due_reports-states s = ground arith

  -- From every state of the Wii U Pro controller that can be calibrated, each packet is handled
  -- without a failed assertion, and the state stays so. A packet that is ignored sends no input
  -- state; any other sends one, and under the laws assumed of `float` all its numbers lie between -1
  -- and 1, whatever the packet holds.
  pub wii_u_pro_in_range :
      (L : FloatLaws F) (s : WiiUPro) (d : List ℕ) (size : ℕ)
      → IsCalibrated s
      → (r : Outcome WiiUPro Float) × (i : InputState Float) × (handle_packet F s d size ≡ some r)
        × IsCalibrated r.state
        × (states r.effects ≡ (if is_ignored d size then [] else i ∷ []))
        × AllInRange F L i
  wii_u_pro_in_range L s d size h =
      let s' = record s { need_set_report = false } in
      let c = recalibrate_all s.calibration_initialized d s.calibrations in
      (
        packet_outcome s d size,
        input c d,
        handle_packet_lem s d size h,
        packet_outcome-IsCalibrated s d size h,
        elim (Bool-cases (is_ignored d size)) [
          | inl e ↦ rw e (no_state (due_reports s) (due_reports-states s))
          | inr e ↦ rw e (
              one_state (due_reports s) s.pause_held (has_bits (bit_xor (byte d 12) 0xFF) 0x08)
                (input c d) (due_reports-states s))
        ],
        input-AllInRange L c d
            (recalibrate_all-AllOrdered s.calibration_initialized d s.calibrations h),
      )

  first_value : (v : ℤ) (c : Calibration) → axis_value F v (recalibrate false v c) ≡ of_int (pos 0)
  unfolding recalibrate widen initial_calibration
  first_value v c =
      axis_value_dead F v (recalibrate false v c) (recalibrate-IsOrdered false v c (λ e. cc))
        (omega (arith, -ℤ_parts v (pos 0x80))) (omega (arith, +ℤ_parts v (pos 0x80)))

  -- Whatever the calibrations of a Wii U Pro controller held before its first packet, and wherever
  -- the sticks stand in that packet, it puts all four axes at 0.
  first_packet_at_rest :
      (c : Calibrations) (d : List ℕ)
      → let i = input (recalibrate_all false d c) d in
        (i.left_stick_x ≡ of_int (pos 0))
        × (i.left_stick_y ≡ of_int (pos 0))
        × (i.right_stick_x ≡ of_int (pos 0))
        × (i.right_stick_y ≡ of_int (pos 0))
  unfolding recalibrate_all input_of
  first_packet_at_rest c d = (
    first_value (fetch16 d 4) c.left_x,
    first_value (fetch16 d 8) c.left_y,
    first_value (fetch16 d 6) c.right_x,
    first_value (fetch16 d 10) c.right_y,
  )

-- Within 16-bit values the four numbers stay far inside `int32_t`.
pub record IsBounded (c : Calibration) : Type 0 where
  pub low : negsuc 0xFF ≤ℤ c.c0
  pub high : c.c3 ≤ℤ pos 0x100FF

-- A round of the calibration loop with a 16-bit value keeps the calibrated range between -0x100 and
-- 0x100FF, far inside `int32_t`, if it was there or is initialised by this round.
pub recalibrate-IsBounded :
    (initialized : Bool) (v : ℤ) (c : Calibration)
    → pos 0 ≤ℤ v
    → v ≤ℤ pos 0xFFFF
    → (initialized ≡ true → IsBounded c)
    → IsBounded (recalibrate initialized v c)
unfolding recalibrate widen initial_calibration min_ℤ max_ℤ
recalibrate-IsBounded true v c low high h = ground (arith, h refl)
recalibrate-IsBounded false v c low high h =
    ground (arith, -ℤ_parts v (pos 0x100), +ℤ_parts v (pos 0x100))
