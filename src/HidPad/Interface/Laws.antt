-- ===== src/HidPad/Interface/Laws.antt =====
-- The laws of HIDPad::Interface, over the five classes.
use mfi_wrapper.Prelude.{
  ℕ, ◌≡◌, refl, Bool, true, List, [], ◌∷◌, ◌++◌, some, arith, if◌then◌else◌, ◌≢◌,
}
use mfi_wrapper.Prelude.Int.{ℤ}
use mfi_wrapper.HidPad.Float.{FloatOps, FloatLaws}
use mfi_wrapper.HidPad.Effect.{Effect, set_report, get_report, finalize_connection, Outcome}
use mfi_wrapper.HidPad.Quiet.{AllQuiet, AllQuiet-append, end_effects-AllQuiet}
use mfi_wrapper.HidPad.Playstation3
use mfi_wrapper.HidPad.Playstation3.Laws as Playstation3Laws
use mfi_wrapper.HidPad.DualShock4
use mfi_wrapper.HidPad.DualShock4.Laws as DualShock4Laws
use mfi_wrapper.HidPad.WiiUPro
use mfi_wrapper.HidPad.WiiUPro.Laws as WiiUProLaws
use mfi_wrapper.HidPad.WiiMote.Life.{
  IsRemote, handle_packet-IsRemote, set_player_index-IsRemote, open_pad_enters,
}
use mfi_wrapper.HidPad.Interface.{
  PadClass, playstation3, wii_u_pro, wii_mote, dual_shock4, dummy, Pad, ps3, ds4, pro, remote,
  other, Shared, with_state, open_pad, handle_packet, set_player_index,
}

module _ (F : FloatOps) (L : FloatLaws F) where
  open F use {Float}

  -- A controller between two packets.
  abbrev pub IsPad : Pad Float → Type 0
  IsPad (pro s) = WiiUProLaws.IsCalibrated s
  IsPad (remote s) = IsRemote F L s
  IsPad (ps3 s) = Unit {0}
  IsPad (ds4 s) = Unit {0}
  IsPad other = Unit {0}

  ps3_quiet :
      (s : Playstation3.Playstation3) (d : List ℕ)
      → AllQuiet (Playstation3Laws.packet_outcome F s d).effects
  unfolding Playstation3.led_report
  ps3_quiet s d =
      AllQuiet-append (Playstation3Laws.led_effects F s) _ (ground arith)
        (end_effects-AllQuiet s.pause_held _ _)

  ds4_quiet :
      (buffer : List ℕ) (s : DualShock4.DualShock4) (d : List ℕ) (size : ℕ)
      → AllQuiet (DualShock4Laws.packet_result F buffer s d size).outcome.effects
  ds4_quiet buffer s d size =
      AllQuiet-append (DualShock4Laws.led_effects F s buffer) _ (ground arith)
        (ground (arith, end_effects-AllQuiet s.pause_held))

  pro_quiet :
      (s : WiiUPro.WiiUPro) (d : List ℕ) (size : ℕ)
      → AllQuiet (WiiUProLaws.packet_outcome F s d size).effects
  unfolding WiiUPro.report_effects
  pro_quiet s d size =
      AllQuiet-append (WiiUProLaws.due_reports F s) _ (ground arith)
        (ground (arith, end_effects-AllQuiet s.pause_held))

  -- One packet.
  abbrev pub Serves : List ℕ → Pad Float → List ℕ → ℕ → Type 0
  Serves buffer pad d size =
      (r : Outcome (Shared Float) Float) × (handle_packet F buffer pad d size ≡ some r)
      × IsPad r.state.1
      × AllQuiet r.effects

  pub handle_packet-Serves :
      (buffer : List ℕ) (pad : Pad Float) (d : List ℕ) (size : ℕ)
      → IsPad pad
      → Serves buffer pad d size
  unfolding handle_packet
  handle_packet-Serves buffer (ps3 s) d size h = (
    with_state (λ t. (buffer, ps3 t)) (Playstation3Laws.packet_outcome F s d),
    rw (Playstation3Laws.handle_packet_lem F s d),
    tt,
    ps3_quiet s d,
  )
  handle_packet-Serves buffer (ds4 s) d size h = (
    with_state (λ t. (DualShock4Laws.buffer_after s buffer, ds4 t))
        (DualShock4Laws.packet_result F buffer s d size).outcome,
    rw (DualShock4Laws.handle_packet_lem F buffer s d size),
    tt,
    ds4_quiet buffer s d size,
  )
  handle_packet-Serves buffer (pro s) d size h = (
    with_state (λ t. (buffer, pro t)) (WiiUProLaws.packet_outcome F s d size),
    rw (WiiUProLaws.handle_packet_lem F s d size h),
    WiiUProLaws.packet_outcome-IsCalibrated F s d size h,
    pro_quiet s d size,
  )
  handle_packet-Serves buffer (remote s) d size h =
      let (r, returns, good, quiet) = handle_packet-IsRemote F L s d h in
      (with_state (λ t. (buffer, remote t)) r, rw returns, good, quiet)
  handle_packet-Serves buffer other d size h = (_, refl, tt, tt)

  -- A player's index.
  pub set_player_index-IsPad :
      (pad : Pad Float) (i : ℤ)
      → IsPad pad
      → IsPad (set_player_index F pad i).state × AllQuiet (set_player_index F pad i).effects
  unfolding set_player_index WiiUPro.set_player_index
  set_player_index-IsPad (ps3 s) i h = (tt, tt)
  set_player_index-IsPad (ds4 s) i h = (tt, tt)
  set_player_index-IsPad (pro s) i h = (h, tt)
  set_player_index-IsPad (remote s) i h = set_player_index-IsRemote F L s i h
  set_player_index-IsPad other i h = (tt, tt)

  -- What `new` of a class leaves.
  abbrev pub Opens : Bool → WiiUPro.Calibrations → PadClass → Type 0
  Opens ios garbage class =
      (r : Outcome (Pad Float) Float) × (before : List (Effect Float)) × (after : List
        (Effect Float))
      × (open_pad F ios garbage class ≡ some r)
      × IsPad r.state
      × (r.effects ≡ before ++ finalize_connection ∷ after)
      × AllQuiet before
      × AllQuiet after

  -- The constructor of each class but the base class returns, and enters its object once.
  pub open_pad-Opens :
      (ios : Bool) (garbage : WiiUPro.Calibrations) (class : PadClass)
      → class ≢ dummy
      → Opens ios garbage class
  unfolding open_pad Playstation3.open_pad DualShock4.open_pad WiiUPro.open_pad
  open_pad-Opens ios garbage playstation3 h = (
    with_state ps3 (Playstation3.open_pad F ios),
    if ios then set_report true 0 Playstation3.start_reports ∷ [] else [],
    [],
    refl,
    tt,
    refl,
    ground arith,
    tt,
  )
  open_pad-Opens ios garbage dual_shock4 h = (
    with_state ds4 (DualShock4.open_pad F),
    get_report true 0x2 0x25 ∷ [],
    [],
    refl,
    tt,
    refl,
    (tt, tt),
    tt,
  )
  open_pad-Opens ios garbage wii_u_pro h = (
    with_state pro (WiiUPro.open_pad F garbage),
    [],
    _,
    refl,
    (λ e. ground arith),
    refl,
    tt,
    (tt, tt),
  )
  open_pad-Opens ios garbage wii_mote h =
      let (r, es, returns, good, ends, quiet) = open_pad_enters F L in
      (with_state remote r, es, [], rw returns, good, ends, quiet, tt)
  open_pad-Opens ios garbage dummy h = absurd (h refl)
