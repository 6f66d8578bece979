-- ===== src/HidPad/WiiMote/Handshake.antt =====
-- `wiimote_handshake` of src/backend/hidpad/wiimote.cpp: a loop over the state of the handshake.
use mathlib.Core.Option
use mfi_wrapper.Prelude.{
  ℕ, zero, suc, ◌+◌, Bool, true, false, List, [], ◌∷◌, ◌++◌, Option, none, some, has_bits, ◌==◌,
  ◌!=◌, if◌then◌else◌,
}
use mfi_wrapper.Prelude.Int.{pos}
use mfi_wrapper.HidPad.Float.{FloatOps}
use mfi_wrapper.HidPad.Effect.{Effect, sleep, byte}
use mfi_wrapper.HidPad.WiiMote.Constants.{
  rpt_ctrl_status, rpt_read, rpt_btn, rpt_btn_exp, exp_mem_calibr, led_none, status_attachment,
}
use mfi_wrapper.HidPad.WiiMote.Driver.{
  Axis, Wiimote, Round, classic_id, long_at, wiimote_read_data, wiimote_write_data, wiimote_status,
  wiimote_data_report, wiimote_set_leds, set_player_led,
}

module _ (F : FloatOps) where
  open F use {Float, of_int}

  -- An axis and a Classic Controller of zeros.
  abbrev pub zero_axis : Axis Float
  zero_axis = record {
    initialized = false;
    calibration = record { c0 = pos 0; c1 = pos 0; c2 = pos 0; c3 = pos 0 };
    value = of_int (pos 0);
  }

  -- classic_ctrl_handshake.
  unfoldable pub classic_ctrl_handshake : Wiimote Float → Wiimote Float
  classic_ctrl_handshake wm = record wm {
    exp = some (record {
      btns = 0;
      left_x = zero_axis;
      left_y = zero_axis;
      right_x = zero_axis;
      right_y = zero_axis;
    });
  }

module _ {Float : Type 0} where
  -- The device goes back from a complete handshake to one that is going on.
  unfoldable pub rehandshake : Wiimote Float → Wiimote Float
  rehandshake wm =
      if wm.is_handshake_complete
      then record wm { is_handshake_complete = false; is_handshake = true }
      else wm

  -- case 0
  unfoldable pub begin_round : Wiimote Float → Round Float
  begin_round wm =
      let (wm', leds) = wiimote_set_leds (record wm { is_handshake = true }) led_none in
      record {
        state = record wm' { handshake_state = 1 };
        effects = leds ++ wiimote_status wm';
        returned = some 0;
      }

  -- What case 1 sends to a new attachment.
  unfoldable pub attach_effects : Wiimote Float → List (Effect Float)
  attach_effects wm =
      wiimote_write_data wm 0x04A400F0 (0x55 ∷ [])
      ++ (sleep 100000
          ∷ (wiimote_write_data wm 0x04A400FB (0 ∷ [])
              ++ (sleep 100000 ∷ wiimote_read_data wm (exp_mem_calibr + 220) 4)))

  -- The end of case 1, with no attachment.
  unfoldable pub no_attachment_round : Wiimote Float → Round Float
  no_attachment_round wm =
      if wm.is_handshake
      then record { state = record wm { handshake_state = 2 }; effects = []; returned = none }
      else record { state = wm; effects = []; returned = some 0 }

  -- case 1, for a status report.
  unfoldable pub status_round : Wiimote Float → Bool → Round Float
  status_round wm true =
      if wm.is_expansion
      then record { state = wm; effects = []; returned = some 0 }
      else let wm' = rehandshake (record wm { is_expansion = true }) in
        record {
          state = record wm' { handshake_state = 4 };
          effects = attach_effects wm';
          returned = some 0;
        }
  status_round wm false =
      no_attachment_round (
        if wm.is_expansion
        then rehandshake (record wm { is_expansion = false; exp = none })
        else wm)

  -- case 2 and case 3
  unfoldable pub report_round : Wiimote Float → ℕ → Round Float
  report_round wm type = record {
    state = record wm { handshake_state = 6 };
    effects = wiimote_data_report wm type;
    returned = none;
  }

  -- case 4, for a read.
  unfoldable pub identify_round : Wiimote Float → List ℕ → Round Float
  identify_round wm data' =
      if long_at data' != classic_id
      then record { state = record wm { handshake_state = 2 }; effects = []; returned = none }
      else record {
        state = record wm { handshake_state = 5 };
        effects = sleep 100000 ∷ wiimote_read_data wm exp_mem_calibr 16;
        returned = some 0;
      }

  -- case 6
  unfoldable pub complete_round : Wiimote Float → Round Float
  complete_round wm =
      let (wm', leds) =
        set_player_led
          (record wm { is_handshake = false; is_handshake_complete = true; handshake_state = 1 }) in
      record { state = wm'; effects = leds; returned = some 1 }

  -- A case that waits for another event.
  abbrev pub wait : Wiimote Float → Round Float
  wait wm = record { state = wm; effects = []; returned = some 0 }

module _ (F : FloatOps) where
  open F use {Float}

  -- The switch. In a state above 6 the loop goes on for ever.
  unfoldable pub round : Wiimote Float → ℕ → List ℕ → Round Float
  round wm event data' =
      if wm.handshake_state == 0
      then begin_round wm
      else if wm.handshake_state == 1
      then (if event != rpt_ctrl_status
          then wait wm
          else status_round wm (has_bits (byte data' 2) status_attachment))
      else if wm.handshake_state == 2
      then report_round wm rpt_btn
      else if wm.handshake_state == 3
      then report_round wm rpt_btn_exp
      else if wm.handshake_state == 4
      then (if event != rpt_read then wait wm else identify_round wm data')
      else if wm.handshake_state == 5
      then (if event != rpt_read then wait wm else record {
        state = record (classic_ctrl_handshake F wm) { handshake_state = 3 };
        effects = [];
        returned = none;
      })
      else if wm.handshake_state == 6
      then complete_round wm
      else record { state = wm; effects = []; returned = none }

  -- What a call of `wiimote_handshake` leaves, sends and returns.
  pub record Handshake : Type 0 where
    pub state : Wiimote Float
    pub effects : List (Effect Float)
    pub returned : ℕ

  -- A round, and then the rest of the loop if it goes on.
  unfoldable pub after_round : Round Float → Option Handshake → Option Handshake
  after_round r rest = elim r.returned [
    | some n ↦ some (record { state = r.state; effects = r.effects; returned = n })
    | none ↦ Option.map {A = Handshake} (λ h. record h { effects = r.effects ++ h.effects }) rest
  ]

  -- The loop on fuel; `none` is a loop that has not returned.
  unfoldable pub wiimote_handshake : ℕ → Wiimote Float → ℕ → List ℕ → Option Handshake
  wiimote_handshake zero wm event data' = none
  wiimote_handshake (suc fuel) wm event data' =
      let r = round wm event data' in after_round r (wiimote_handshake fuel r.state event data')
