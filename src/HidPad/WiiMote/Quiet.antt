-- ===== src/HidPad/WiiMote/Quiet.antt =====
-- Which calls the driver of wiimote.cpp makes.
use mfi_wrapper.Prelude.{
  ℕ, zero, suc, ◌≡◌, ap, inl, inr, Bool, true, false, List, ◌++◌, Option, none, some, arith,
  has_bits, Option-cases,
}
use mfi_wrapper.HidPad.Float.{FloatOps}
use mfi_wrapper.HidPad.Effect.{Effect, byte}
use mfi_wrapper.HidPad.Quiet.{AllQuiet, AllQuiet-append}
use mfi_wrapper.HidPad.WiiMote.Constants.{exp_mem_calibr, rpt_btn, rpt_btn_exp}
use mfi_wrapper.HidPad.WiiMote.Driver.{
  Wiimote, Round, wiimote_send, wiimote_read_data, wiimote_write_data, wiimote_status,
  wiimote_data_report, wiimote_set_leds, player_led, set_player_led,
}
use mfi_wrapper.HidPad.WiiMote.Handshake.{
  rehandshake, begin_round, attach_effects, no_attachment_round, status_round, report_round,
  identify_round, complete_round, round, Handshake, after_round, wiimote_handshake,
}

module _ {Float : Type 0} where
  set_leds-AllQuiet : (wm : Wiimote Float) (n : ℕ) → AllQuiet (wiimote_set_leds wm n).1
  unfolding wiimote_set_leds wiimote_send
  set_leds-AllQuiet wm n = ground arith

  pub set_player_led-AllQuiet : (wm : Wiimote Float) → AllQuiet (set_player_led wm).1
  unfolding set_player_led
  set_player_led-AllQuiet wm = elim (Option-cases (player_led wm.unid)) [
    | inl e ↦ rw (set_player_led, e) tt
    | inr (led, e) ↦ rw (set_player_led, e) (set_leds-AllQuiet wm led)
  ]

  status-AllQuiet : (wm : Wiimote Float) → AllQuiet (wiimote_status wm)
  unfolding wiimote_status wiimote_send
  status-AllQuiet wm = ground arith

  read_data-AllQuiet : (wm : Wiimote Float) (a n : ℕ) → AllQuiet (wiimote_read_data wm a n)
  unfolding wiimote_read_data wiimote_send
  read_data-AllQuiet wm a n = ground arith

  write_data-AllQuiet :
      (wm : Wiimote Float) (a : ℕ) (d : List ℕ) → AllQuiet (wiimote_write_data wm a d)
  unfolding wiimote_write_data wiimote_send
  write_data-AllQuiet wm a d = ground arith

  data_report-AllQuiet : (wm : Wiimote Float) (n : ℕ) → AllQuiet (wiimote_data_report wm n)
  unfolding wiimote_data_report wiimote_send
  data_report-AllQuiet wm n = ground arith

  attach_effects-AllQuiet : (wm : Wiimote Float) → AllQuiet (attach_effects wm)
  unfolding attach_effects
  attach_effects-AllQuiet wm =
      AllQuiet-append _ _ (write_data-AllQuiet wm _ _)
        (tt, AllQuiet-append _ _ (write_data-AllQuiet wm _ _) (tt, read_data-AllQuiet wm _ _))

  begin-AllQuiet : (wm : Wiimote Float) → AllQuiet (begin_round wm).effects
  unfolding begin_round
  begin-AllQuiet wm =
      AllQuiet-append _ _ (set_leds-AllQuiet (record wm { is_handshake = true }) 0)
        (status-AllQuiet _)

  status_round-AllQuiet : (wm : Wiimote Float) (t : Bool) → AllQuiet (status_round wm t).effects
  unfolding status_round no_attachment_round
  status_round-AllQuiet wm true =
      ground (arith, attach_effects-AllQuiet (rehandshake (record wm { is_expansion = true })))
  status_round-AllQuiet wm false = ground arith

  identify-AllQuiet : (wm : Wiimote Float) (d : List ℕ) → AllQuiet (identify_round wm d).effects
  unfolding identify_round
  identify-AllQuiet wm d = ground (arith, read_data-AllQuiet wm exp_mem_calibr 16)

  complete-AllQuiet : (wm : Wiimote Float) → AllQuiet (complete_round wm).effects
  unfolding complete_round
  complete-AllQuiet wm =
      set_player_led-AllQuiet
        (record wm { is_handshake = false; is_handshake_complete = true; handshake_state = 1 })

  report-AllQuiet : (wm : Wiimote Float) (n : ℕ) → AllQuiet (report_round wm n).effects
  unfolding report_round
  report-AllQuiet wm n = data_report-AllQuiet wm n

module _ (F : FloatOps) where
  open F use {Float}

  round-AllQuiet :
      (wm : Wiimote Float) (event : ℕ) (d : List ℕ) → AllQuiet (round F wm event d).effects
  unfolding round
  round-AllQuiet wm event d = ground (
    arith,
    begin-AllQuiet wm,
    status_round-AllQuiet wm (has_bits (byte d 2) 0x02),
    report-AllQuiet wm rpt_btn,
    report-AllQuiet wm rpt_btn_exp,
    identify-AllQuiet wm d,
    complete-AllQuiet wm,
  )

  effects_or : List (Effect Float) → Option (Handshake F) → List (Effect Float)
  effects_or es none = es
  effects_or es (some h) = h.effects

  after_round-AllQuiet :
      (r : Round Float) (rest : Option (Handshake F)) (h : Handshake F)
      → AllQuiet r.effects
      → ((h' : Handshake F) → rest ≡ some h' → AllQuiet h'.effects)
      → after_round F r rest ≡ some h
      → AllQuiet h.effects
  unfolding after_round effects_or
  after_round-AllQuiet r rest h now later e = elim (Option-cases r.returned) [
    | inr (n, done) ↦
        let same : r.effects ≡ h.effects =
          ap (effects_or r.effects) (rw (after_round, done) at e) in
        rw same at now
    | inl on ↦ elim (Option-cases rest) [
      | inr (h', found) ↦
          let same : r.effects ++ h'.effects ≡ h.effects =
            ap (effects_or r.effects) (rw (after_round, on, found) at e) in
          rw same at (AllQuiet-append r.effects h'.effects now (later h' found))
      | inl never ↦ absurd (none-some (rw (after_round, on, never) at e))
    ]
  ]
    where
      none-some : {x : Handshake F} → none ≡ some x → ⊥
      none-some e = cc

  pub handshake-AllQuiet :
      (fuel : ℕ) (wm : Wiimote Float) (event : ℕ) (d : List ℕ) (h : Handshake F)
      → wiimote_handshake F fuel wm event d ≡ some h
      → AllQuiet h.effects
  unfolding wiimote_handshake
  handshake-AllQuiet zero wm event d h e = cc
  handshake-AllQuiet (suc fuel) wm event d h e =
      let r = round F wm event d in
      after_round-AllQuiet r (wiimote_handshake F fuel r.state event d) h
        (round-AllQuiet wm event d) (λ h' e'. handshake-AllQuiet fuel r.state event d h' e') e
