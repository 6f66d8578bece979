-- ===== src/HidPad/Playstation3/Laws.antt =====
-- The SixAxis: what each packet does, the range of its input, pauses and LEDs.
use mfi_wrapper.Prelude.{
  ℕ, ◌+◌, ◌^◌, ◌<◌, ◌≡◌, refl, ap, ap₂, ◌∙◌, ltb, Bool, false, List, [], ◌∷◌, ◌++◌, append-nil, map,
  Option, some, arith, set, if◌then◌else◌,
}
use mfi_wrapper.Prelude.Int.{ℤ, pos, negsuc}
use mfi_wrapper.Protocol.{InputState}
use mfi_wrapper.HidPad.Float.{FloatOps, FloatLaws}
use mfi_wrapper.HidPad.Axis.{axis_value}
use mfi_wrapper.HidPad.Axis.Laws.{
  IsOrdered, InRange, minus_one-le, axis_value-InRange, negated-InRange,
}
use mfi_wrapper.HidPad.Effect.{
  states, Effect, send_controller_state, Outcome, stick_calibration, pause_effects, pauses, presses,
  reports, run,
}
use mfi_wrapper.HidPad.Pause.{
  one_state, pauses-append, reports-append, end_effects, end_effects-pauses, end_effects-reports,
  Handles, run-pauses,
}
use mfi_wrapper.HidPad.Range.{
  IsBytes, calculate_axis-IsOrdered, AllInRange, pressed-InRange, neg-InRange, if-InRange,
  pressure_bounds,
}
use mfi_wrapper.HidPad.Playstation3.{
  Playstation3, Gamepad, gamepad_of, set_player_index, report_buffer, led_report, pressure,
  input_of, read_input, handle_packet,
}

stick-IsOrdered : IsOrdered stick_calibration
stick-IsOrdered = omega arith

module _ (F : FloatOps) where
  open F use {Float, neg}

  -- A stick's value.
  abbrev pub stick : ℕ → Float
  stick n = axis_value F (pos n) stick_calibration

  abbrev pub input : Gamepad → InputState Float
  input pad =
      input_of F pad (stick pad.left_analog.x) (stick pad.left_analog.y) (stick pad.right_analog.x)
        (stick pad.right_analog.y)

  abbrev pub led_effects : Playstation3 → List (Effect Float)
  led_effects s = if s.need_set_report then led_report F s ∷ [] else []

  read_input-input : (pad : Gamepad) → read_input F pad ≡ some (input pad)
  unfolding read_input
  read_input-input pad = rw (
    calculate_axis-IsOrdered F (pos pad.left_analog.x) stick_calibration stick-IsOrdered,
    calculate_axis-IsOrdered F (pos pad.left_analog.y) stick_calibration stick-IsOrdered,
    calculate_axis-IsOrdered F (pos pad.right_analog.x) stick_calibration stick-IsOrdered,
    calculate_axis-IsOrdered F (pos pad.right_analog.y) stick_calibration stick-IsOrdered,
  )

  -- What a packet does: one state is sent, behind the LED report if one is due and the pause if its
  -- button went down.
  abbrev pub packet_outcome : Playstation3 → List ℕ → Outcome Playstation3 Float
  packet_outcome s d =
      let pad = gamepad_of d in
      record {
        state = record s { pause_held = pad.buttons.ps; need_set_report = false };
        effects =
            led_effects s
            ++ (pause_effects s.pause_held pad.buttons.ps
                ++ send_controller_state (input pad) ∷ []);
      }

  -- Every packet is handled so: no assertion fails.
  pub handle_packet_lem :
      (s : Playstation3) (d : List ℕ) → handle_packet F s d ≡ some (packet_outcome s d)
  unfolding handle_packet
  handle_packet_lem s d = rw (read_input-input (gamepad_of d))

  led_effects-states : (s : Playstation3) → states (led_effects s) ≡ []
  unfolding led_report
  led_effects-states s = ground arith

  module _ (L : FloatLaws F) where
    pressure-InRange : (n : ℕ) → n < 256 → InRange F L (pressure F n)
    unfolding pressure
    pressure-InRange n h =
        let (low, high) = pressure_bounds F L n h in (L.le_trans (minus_one-le F L) low, high)

    neg_pressure-InRange : (n : ℕ) → n < 256 → InRange F L (neg (pressure F n))
    unfolding pressure
    neg_pressure-InRange n h =
        let (low, high) = pressure_bounds F L n h in neg-InRange F L (pressure F n) low high

    stick-InRange : (n : ℕ) → InRange F L (stick n)
    stick-InRange n = axis_value-InRange F L (pos n) stick_calibration stick-IsOrdered

    -- Every number of the input lies between -1 and 1.
    pub input-AllInRange : (d : List ℕ) → IsBytes d → AllInRange F L (input (gamepad_of d))
    unfolding input_of gamepad_of
    input-AllInRange d h = record {
      dpad_x = if-InRange F L _ (neg_pressure-InRange _ (h 18)) (pressure-InRange _ (h 16));
      dpad_y = if-InRange F L _ (neg_pressure-InRange _ (h 15)) (pressure-InRange _ (h 17));
      a = pressure-InRange _ (h 25);
      b = pressure-InRange _ (h 24);
      x = pressure-InRange _ (h 26);
      y = pressure-InRange _ (h 23);
      left_shoulder = pressure-InRange _ (h 21);
      right_shoulder = pressure-InRange _ (h 22);
      left_stick_x = stick-InRange _;
      left_stick_y = negated-InRange F L _ (stick-InRange _);
      right_stick_x = stick-InRange _;
      right_stick_y = negated-InRange F L _ (stick-InRange _);
      left_trigger = pressure-InRange _ (h 19);
      right_trigger = pressure-InRange _ (h 20);
      select = pressed-InRange F L _;
      start = pressed-InRange F L _;
      left_stick_button = pressed-InRange F L _;
      right_stick_button = pressed-InRange F L _;
    }

    -- Each packet of bytes is handled by the Playstation 3 controller without a failed assertion and
    -- sends one input state, and under the laws assumed of `float` all its numbers lie between -1
    -- and 1.
    pub playstation3_in_range :
        (s : Playstation3) (d : List ℕ)
        → IsBytes d
        → (r : Outcome Playstation3 Float) × (i : InputState Float) × (handle_packet F s d ≡ some r)
          × (states r.effects ≡ i ∷ [])
          × AllInRange F L i
    playstation3_in_range s d h =
        let pad = gamepad_of d in
        (
          packet_outcome s d,
          input pad,
          handle_packet_lem s d,
          one_state (led_effects s) s.pause_held pad.buttons.ps (input pad) (led_effects-states s),
          input-AllInRange d h,
        )

  led_effects-pauses : (s : Playstation3) → pauses (led_effects s) ≡ 0
  unfolding led_report
  led_effects-pauses s = ground arith

  -- The PS button's state in a packet.
  abbrev pub ps_of : List ℕ → Option Bool
  ps_of d = some (gamepad_of d).buttons.ps

  one_packet :
      (s : Playstation3) (d : List ℕ)
      → Unit {0}
      → Handles (λ _. Unit {0}) (λ r. r.pause_held) s (ps_of d) (handle_packet F s d)
  one_packet s d _ = record {
    outcome = _;
    returns = handle_packet_lem s d;
    keeps = tt;
    sends =
        pauses-append (led_effects s) _
        ∙ ap₂ ◌+◌ (led_effects-pauses s)
            (end_effects-pauses s.pause_held (gamepad_of d).buttons.ps (input (gamepad_of d)))
        ∙ omega arith;
    remembers = refl;
  }

  -- Over any history of packets the Playstation 3 controller handles each without a failed
  -- assertion, and sends a pause for each time that the PS button goes down, and for no other.
  pub playstation3_pauses :
      (s : Playstation3) (ds : List (List ℕ))
      → (r : Outcome Playstation3 Float) × (run (handle_packet F) s ds ≡ some r)
        × (pauses r.effects ≡ presses s.pause_held (map ps_of ds))
  playstation3_pauses s ds =
      let (r, returns, _, sends) =
        run-pauses (λ (_ : Playstation3). Unit {0}) (λ r. r.pause_held) ps_of (handle_packet F)
          one_packet s ds tt in
      (r, returns, sends)

-- What the LED report of a player's index holds at byte 11: the player's bit, or nothing for an index
-- out of range.
abbrev pub player_bit : ℤ → ℕ
player_bit (pos i) = if ltb i 4 then 2 ^ (i + 1) else 0
player_bit (negsuc i) = 0

led_byte-set_player_index :
    (s : Playstation3) (i : ℤ) → (set_player_index s i).led_byte ≡ player_bit i
unfolding set_player_index
led_byte-set_player_index s (pos i) = ground arith
led_byte-set_player_index s (negsuc i) = ground arith

module _ (F : FloatOps) where
  reports-packet :
      (s : Playstation3) (d : List ℕ)
      → reports (packet_outcome F s d).effects ≡ reports (led_effects F s)
  reports-packet s d =
      let pad = gamepad_of d in
      reports-append (led_effects F s) (end_effects s.pause_held pad.buttons.ps (input F pad))
      ∙ ap (◌++◌ (reports (led_effects F s)))
          (end_effects-reports s.pause_held pad.buttons.ps (input F pad))
      ∙ append-nil (reports (led_effects F s))

  reports-run :
      (s : Playstation3) (ds : List (List ℕ))
      → s.need_set_report ≡ false
      → (r : Outcome Playstation3 F.Float) × (run (handle_packet F) s ds ≡ some r)
        × (reports r.effects ≡ [])
  unfolding run
  reports-run s [] h = (record { state = s; effects = [] }, refl, refl)
  reports-run s (d ∷ ds) h =
      let first = packet_outcome F s d in
      let (r, returns, quiet) = reports-run first.state ds refl in
      (
        record r { effects = first.effects ++ r.effects },
        rw (handle_packet_lem F s d, returns),
        reports-append first.effects r.effects
            ∙ ap₂ ◌++◌ {y = []} (reports-packet s d ∙ rw h) quiet,
      )

  -- After SetPlayerIndex of the Playstation 3 controller, the next packet sends one report, the
  -- report that sets the LEDs with the player's bit in byte 11 (no bit for an index out of range),
  -- and the packets after it send none.
  pub reports-set_player_index :
      (s : Playstation3) (i : ℤ) (d : List ℕ) (ds : List (List ℕ))
      → (r : Outcome Playstation3 F.Float) × (run (handle_packet F) (set_player_index s i) (d ∷ ds)
          ≡ some r)
        × (reports r.effects ≡ set report_buffer 11 (player_bit i) ∷ [])
  unfolding run set_player_index led_report
  reports-set_player_index s i d ds =
      let first = packet_outcome F (set_player_index s i) d in
      let (r, returns, quiet) = reports-run first.state ds refl in
      (
        record r { effects = first.effects ++ r.effects },
        rw (handle_packet_lem F (set_player_index s i) d, returns),
        reports-append first.effects r.effects
            ∙ ap₂ ◌++◌
                (reports-packet (set_player_index s i) d
                  ∙ ap (λ b. set report_buffer 11 b ∷ []) (led_byte-set_player_index s i))
                quiet,
      )
