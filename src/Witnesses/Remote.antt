-- ===== src/Witnesses/Remote.antt =====
-- Reports of the Wii Remote.
use mfi_wrapper.Prelude.{ℕ, ◌≡◌, refl, inl, true, false, List, [], ◌∷◌, ◌++◌, none, some, arith}
use mfi_wrapper.Prelude.Int.{ℤ, negsuc}
use mfi_wrapper.HidPad.Effect.{Effect, send_controller_state, Outcome}
use mfi_wrapper.HidPad.Range.{AllInRange}
use mfi_wrapper.HidPad.WiiMote.Driver.{Wiimote}
use mfi_wrapper.HidPad.WiiMote.Handshake.{Handshake, wiimote_handshake}
use mfi_wrapper.HidPad.WiiMote.Termination.{Returned, wiimote_handshake_returns}
use mfi_wrapper.HidPad.WiiMote.Pad.{process_buttons, handle_packet}
use mfi_wrapper.HidPad.WiiMote.Life.{IsRemote, wii_mote_in_range}
use mfi_wrapper.Witnesses.Fixed.{thousandths, thousandths_laws}

-- The device behind its constructor: it waits for a status report.
abbrev opened : Wiimote ℤ
opened = record {
  unid = negsuc 0;
  is_connected = true;
  is_handshake = true;
  is_handshake_complete = false;
  is_expansion = false;
  leds = 0;
  handshake_state = 1;
  exp = none;
  btns = 0;
}

opened-IsRemote : IsRemote thousandths thousandths_laws opened
opened-IsRemote = record { waits = inl refl; expansion = tt }

-- A status report with no attachment, behind the two bytes of the header.
abbrev status : List ℕ
status = 0xA1 ∷ 0x20 ∷ 0 ∷ 0 ∷ 0x10 ∷ 0 ∷ 0 ∷ 100 ∷ []

wiimote_handshake_returns_example :
    (h : Handshake thousandths) × (wiimote_handshake thousandths 3 opened 0x20 (0 ∷ 0 ∷ 0x10 ∷ [])
      ≡ some h)
    × Returned thousandths h
wiimote_handshake_returns_example =
    wiimote_handshake_returns thousandths opened 0x20 (0 ∷ 0 ∷ 0x10 ∷ []) (omega arith)

wii_mote_in_range_example :
    (r : Outcome (Wiimote ℤ) ℤ) × (es : List (Effect ℤ)) × (handle_packet thousandths opened status
      ≡ some r)
    × IsRemote thousandths thousandths_laws r.state
    × (r.effects ≡ es ++ send_controller_state (process_buttons thousandths r.state) ∷ [])
    × AllInRange thousandths thousandths_laws (process_buttons thousandths r.state)
wii_mote_in_range_example =
    wii_mote_in_range thousandths thousandths_laws opened status opened-IsRemote
