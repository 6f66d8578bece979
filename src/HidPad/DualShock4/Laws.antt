-- ===== src/HidPad/DualShock4/Laws.antt =====
-- The DualShock 4: what each packet does, the range of its input, pauses, and the shared LED report.
use mathlib.Core.Option
use mfi_wrapper.Prelude.{◌==◌, ◌&&◌}
use mfi_wrapper.Prelude.{
  get_or-set_self, get_or-set_ne, ◌≢◌, ℕ, ◌%◌, ◌^◌, ◌<◌, ◌≡◌, refl, sym, ◌∙◌, inl, inr, Bool, false,
  List, [], ◌∷◌, ◌++◌, map, Option, none, some, arith, set, has_bits, lt→ltb, if◌then◌else◌,
  Bool-cases, length, length-set,
}
use mfi_wrapper.Prelude.Int.{pos}
use mfi_wrapper.Protocol.{InputState}
use mfi_wrapper.HidPad.Float.{FloatOps, FloatLaws}
use mfi_wrapper.HidPad.Axis.{axis_value}
use mfi_wrapper.HidPad.Axis.Laws.{IsOrdered, InRange, axis_value-InRange, negated-InRange}
use mfi_wrapper.HidPad.Effect.{
  states, Effect, set_report, Outcome, byte, stick_calibration, pauses, presses, run,
}
use mfi_wrapper.HidPad.Pause.{
  no_state, one_state, pauses-append, end_effects, end_effects-pauses, press, held_after, Handles,
  run-pauses,
}
use mfi_wrapper.HidPad.Range.{
  calculate_axis-IsOrdered, AllInRange, zero-InRange, one-InRange, minus-InRange, pressed-InRange,
  BothInRange, if-BothInRange,
}
use mfi_wrapper.HidPad.DualShock4.{
  DualShock4, rgb, fill_report, is_ignored, Result, dpad_state, input_of, read_input, handle_input,
  handle_packet,
}

stick-IsOrdered : IsOrdered stick_calibration
stick-IsOrdered = omega arith

-- The PS button's state in a packet that is not ignored.
abbrev pub ps_of : List ℕ × ℕ → Option Bool
ps_of (d, size) =
    if size == 79 && (byte d 2 == 0xC0 && byte d 3 == 0)
    then some (has_bits (byte d 10) 0x01)
    else none

ps_of_lem :
    (d : List ℕ) (size : ℕ)
    → ps_of (d, size) ≡ (if is_ignored d size then none else some (has_bits (byte d 10) 0x01))
unfolding is_ignored
ps_of_lem d size = ground arith

-- The shared buffer, and the report that a packet sends with it if one is due.
abbrev pub buffer_after : DualShock4 → List ℕ → List ℕ
buffer_after s buffer = if s.need_set_report then fill_report s buffer else buffer

module _ (F : FloatOps) where
  open F use {Float}

  abbrev pub stick : ℕ → Float
  stick n = axis_value F (pos n) stick_calibration

  abbrev pub input : List ℕ → InputState Float
  input d =
      input_of F (byte d 8) (byte d 9) (stick (byte d 4)) (stick (byte d 5)) (stick (byte d 6))
        (stick (byte d 7))

  read_input-input : (d : List ℕ) → read_input F d ≡ some (input d)
  unfolding read_input
  read_input-input d = rw (
    calculate_axis-IsOrdered F (pos (byte d 4)) stick_calibration stick-IsOrdered,
    calculate_axis-IsOrdered F (pos (byte d 5)) stick_calibration stick-IsOrdered,
    calculate_axis-IsOrdered F (pos (byte d 6)) stick_calibration stick-IsOrdered,
    calculate_axis-IsOrdered F (pos (byte d 7)) stick_calibration stick-IsOrdered,
  )

  -- What a packet does behind the LED report: nothing if it is ignored, and otherwise one state is
  -- sent, behind the pause if the PS button went down.
  abbrev pub input_outcome : DualShock4 → List ℕ → ℕ → Outcome DualShock4 Float
  input_outcome s d size =
      let down = has_bits (byte d 10) 0x01 in
      if is_ignored d size then record { state = s; effects = [] } else record {
        state = record s { pause_held = down };
        effects = end_effects s.pause_held down (input d);
      }

  abbrev pub led_effects : DualShock4 → List ℕ → List (Effect Float)
  led_effects s buffer =
      if s.need_set_report then set_report false 0x11 (buffer_after s buffer) ∷ [] else []

  handle_input_lem :
      (s : DualShock4) (d : List ℕ) (size : ℕ)
      → handle_input F s d size ≡ some (input_outcome s d size)
  unfolding handle_input
  handle_input_lem s d size = elim (Bool-cases (is_ignored d size)) [
    | inl e ↦ rw e
    | inr e ↦ rw (e, read_input-input d)
  ]

  abbrev pub packet_result : List ℕ → DualShock4 → List ℕ → ℕ → Result Float
  packet_result buffer s d size =
      let r = input_outcome (record s { need_set_report = false }) d size in
      record {
        report_buffer = buffer_after s buffer;
        outcome = record r { effects = led_effects s buffer ++ r.effects };
      }

  -- Every packet is handled so: no assertion fails.
  pub handle_packet_lem :
      (buffer : List ℕ) (s : DualShock4) (d : List ℕ) (size : ℕ)
      → handle_packet F buffer s d size ≡ some (packet_result buffer s d size)
  unfolding handle_packet
  handle_packet_lem buffer s d size =
      rw (handle_input_lem (record s { need_set_report = false }) d size)

  led_effects-states : (s : DualShock4) (buffer : List ℕ) → states (led_effects s buffer) ≡ []
  led_effects-states s buffer = ground arith

  module _ (L : FloatLaws F) where
    dpad_state-InRange : (i : ℕ) → BothInRange F L (dpad_state F i)
    unfolding dpad_state
    dpad_state-InRange i =
        let z = zero-InRange F L in
        let o = one-InRange F L in
        let m = minus-InRange F L in
        if-BothInRange F L _ _ _ (z, m)
          (if-BothInRange F L _ _ _ (o, m)
            (if-BothInRange F L _ _ _ (o, z)
              (if-BothInRange F L _ _ _ (o, o)
                (if-BothInRange F L _ _ _ (z, o)
                  (if-BothInRange F L _ _ _ (m, o)
                    (if-BothInRange F L _ _ _ (m, z) (if-BothInRange F L _ _ _ (m, m) (z, z))))))))

    stick-InRange : (n : ℕ) → InRange F L (stick n)
    stick-InRange n = axis_value-InRange F L (pos n) stick_calibration stick-IsOrdered

    -- Every number sent lies between -1 and 1, whatever the packet holds.
    pub input-AllInRange : (d : List ℕ) → AllInRange F L (input d)
    unfolding input_of
    input-AllInRange d = record {
      dpad_x = (dpad_state-InRange (byte d 8 % 2 ^ 4)).0;
      dpad_y = (dpad_state-InRange (byte d 8 % 2 ^ 4)).1;
      a = pressed-InRange F L _;
      b = pressed-InRange F L _;
      x = pressed-InRange F L _;
      y = pressed-InRange F L _;
      left_shoulder = pressed-InRange F L _;
      right_shoulder = pressed-InRange F L _;
      left_stick_x = stick-InRange _;
      left_stick_y = negated-InRange F L _ (stick-InRange _);
      right_stick_x = stick-InRange _;
      right_stick_y = negated-InRange F L _ (stick-InRange _);
      left_trigger = pressed-InRange F L _;
      right_trigger = pressed-InRange F L _;
      select = pressed-InRange F L _;
      start = pressed-InRange F L _;
      left_stick_button = pressed-InRange F L _;
      right_stick_button = pressed-InRange F L _;
    }

    -- Each packet is handled by the DualShock 4 without a failed assertion. A packet that is ignored
    -- sends no input state; any other sends one, and under the laws assumed of `float` all its
    -- numbers lie between -1 and 1, whatever the packet holds.
    pub dual_shock4_in_range :
        (buffer : List ℕ) (s : DualShock4) (d : List ℕ) (size : ℕ)
        → (r : Result Float) × (i : InputState Float) × (handle_packet F buffer s d size ≡ some r)
          × (states r.outcome.effects ≡ (if is_ignored d size then [] else i ∷ []))
          × AllInRange F L i
    dual_shock4_in_range buffer s d size =
        let s' = record s { need_set_report = false } in
        (
          packet_result buffer s d size,
          input d,
          handle_packet_lem buffer s d size,
          elim (Bool-cases (is_ignored d size)) [
            | inl e ↦ rw e (no_state (led_effects s buffer) (led_effects-states s buffer))
            | inr e ↦ rw e (
                one_state (led_effects s buffer) s.pause_held (has_bits (byte d 10) 0x01) (input d)
                  (led_effects-states s buffer))
          ],
          input-AllInRange d,
        )

  -- A packet's handling with the shared buffer in the state.
  abbrev pub step : List ℕ × DualShock4 → List ℕ × ℕ → Option (Outcome (List ℕ × DualShock4) Float)
  step (buffer, s) (d, size) =
      Option.map
        (λ r. record { state = (r.report_buffer, r.outcome.state); effects = r.outcome.effects })
        (handle_packet F buffer s d size)

  led_effects-pauses : (s : DualShock4) (buffer : List ℕ) → pauses (led_effects s buffer) ≡ 0
  led_effects-pauses s buffer = ground arith

  input_outcome-pauses :
      (s : DualShock4) (d : List ℕ) (size : ℕ)
      → (pauses (input_outcome s d size).effects ≡ press s.pause_held (ps_of (d, size)))
        × ((input_outcome s d size).state.pause_held ≡ held_after s.pause_held (ps_of (d, size)))
  input_outcome-pauses s d size = rw (ps_of_lem d size) (elim (Bool-cases (is_ignored d size)) [
    | inl e ↦ rw e (refl, refl)
    | inr e ↦ rw e (end_effects-pauses s.pause_held (has_bits (byte d 10) 0x01) (input d), refl)
  ])

  one_packet :
      (s : List ℕ × DualShock4) (p : List ℕ × ℕ)
      → Unit {0}
      → Handles (λ _. Unit {0}) (λ (r : List ℕ × DualShock4). r.1.pause_held) s (ps_of p) (step s p)
  one_packet (buffer, s) (d, size) _ =
      let s' = record s { need_set_report = false } in
      let r = packet_result buffer s d size in
      record {
        outcome = record {
          state = (r.report_buffer, r.outcome.state);
          effects = r.outcome.effects;
        };
        returns = rw (handle_packet_lem buffer s d size);
        keeps = tt;
        sends =
            pauses-append (led_effects s buffer) (input_outcome s' d size).effects
            ∙ omega (arith, led_effects-pauses s buffer, (input_outcome-pauses s' d size).0);
        remembers = (input_outcome-pauses s' d size).1;
      }

  -- Over any history of packets the DualShock 4 handles each without a failed assertion, and sends a
  -- pause for each time that the PS button goes down in a packet of 79 bytes with 0xC0 and 0 in
  -- bytes 2 and 3, and for no other.
  pub dual_shock4_pauses :
      (buffer : List ℕ) (s : DualShock4) (ps : List (List ℕ × ℕ))
      → (r : Outcome (List ℕ × DualShock4) Float) × (run step (buffer, s) ps ≡ some r)
        × (pauses r.effects ≡ presses s.pause_held (map ps_of ps))
  dual_shock4_pauses buffer s ps =
      let (r, returns, _, sends) =
        run-pauses (λ (_ : List ℕ × DualShock4). Unit {0}) (λ r. r.1.pause_held) ps_of step
          one_packet (buffer, s) ps tt in
      (r, returns, sends)

module _ (buffer : List ℕ) (r g b : ℕ) (n : length buffer ≡ 79) where
  abbrev coloured : List ℕ
  coloured = set (set (set buffer 9 r) 10 g) 11 b

  coloured_bytes :
      (byte coloured 9 ≡ r)
      × (byte coloured 10 ≡ g)
      × (byte coloured 11 ≡ b)
      × ((j : ℕ) → j ≢ 9 → j ≢ 10 → j ≢ 11 → byte coloured j ≡ byte buffer j)
  coloured_bytes =
      let one = set buffer 9 r in
      let two = set one 10 g in
      (
        get_or-set_ne two 11 9 b 0 (omega arith)
            ∙ get_or-set_ne one 10 9 g 0 (omega arith)
            ∙ get_or-set_self buffer 9 r 0 (omega (arith, n)),
        get_or-set_ne two 11 10 b 0 (omega arith)
            ∙ get_or-set_self one 10 g 0 (omega (arith, n, length-set buffer 9 r)),
        get_or-set_self two 11 b 0 (omega (arith, n, length-set buffer 9 r, length-set one 10 g)),
        λ j p q t.
            get_or-set_ne two 11 j b 0 (λ e. t (sym e))
            ∙ get_or-set_ne one 10 j g 0 (λ e. q (sym e))
            ∙ get_or-set_ne buffer 9 j r 0 (λ e. p (sym e)),
      )

-- For a player index below 4 and a buffer of 79 bytes, SetReport of the DualShock 4 puts the
-- player's red, green and blue into bytes 9 to 11 and changes no other byte.
pub fill_report-colour :
    (s : DualShock4) (buffer : List ℕ)
    → s.player_index < 4
    → length buffer ≡ 79
    → let out = fill_report s buffer in
      (byte out 9 ≡ (rgb s.player_index).0)
      × (byte out 10 ≡ (rgb s.player_index).1)
      × (byte out 11 ≡ (rgb s.player_index).2)
      × ((j : ℕ) → j ≢ 9 → j ≢ 10 → j ≢ 11 → byte out j ≡ byte buffer j)
unfolding fill_report
fill_report-colour s buffer h n =
    rw (lt→ltb s.player_index 4 h)
      (coloured_bytes buffer (rgb s.player_index).0 (rgb s.player_index).1 (rgb s.player_index).2 n)
