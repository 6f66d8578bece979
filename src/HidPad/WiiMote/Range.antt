-- ===== src/HidPad/WiiMote/Range.antt =====
-- The Classic Controller's axes: their calibrations stay ordered, and their values between -1 and 1.
use mfi_wrapper.Prelude.{
  ℕ, zero, suc, ◌≡◌, refl, ap, ◌⊎◌, inl, inr, Bool, true, false, List, Option, none, some, arith,
  bit_and, bit_xor, Option-cases,
}
use mfi_wrapper.Prelude.Int.{ℤ, pos, +ℤ_parts, -ℤ_parts, min_ℤ-le, max_ℤ-le}
use mfi_wrapper.HidPad.Float.{FloatOps, FloatLaws}
use mfi_wrapper.HidPad.Axis.{Calibration, axis_value}
use mfi_wrapper.HidPad.Axis.Laws.{IsOrdered, InRange, axis_value-InRange}
use mfi_wrapper.HidPad.Range.{calculate_axis-IsOrdered, zero-InRange}
use mfi_wrapper.HidPad.WiiMote.Driver.{
  Axis, ClassicCtrl, Wiimote, Round, wiimote_set_leds, player_led, set_player_led, short_at,
}
use mfi_wrapper.HidPad.WiiMote.Handshake.{
  zero_axis, classic_ctrl_handshake, rehandshake, begin_round, no_attachment_round, status_round,
  report_round, identify_round, complete_round, round, Handshake, after_round, wiimote_handshake,
}
use mfi_wrapper.HidPad.WiiMote.Classic.{
  first_calibration, learn, process_axis, classic_ctrl_event, raw_left_x, raw_left_y, raw_right_x,
  raw_right_y,
}

first_calibration-IsOrdered : (raw : ℤ) → IsOrdered (first_calibration raw)
unfolding first_calibration
first_calibration-IsOrdered raw =
    omega (
      arith,
      -ℤ_parts raw (pos 3),
      -ℤ_parts raw (pos 2),
      +ℤ_parts raw (pos 2),
      +ℤ_parts raw (pos 3),
    )

learn-IsOrdered :
    (initialized : Bool) (c : Calibration) (raw : ℤ)
    → (initialized ≡ true → IsOrdered c)
    → IsOrdered (learn initialized c raw)
unfolding learn
learn-IsOrdered true c raw h =
    let o = h refl in omega (arith, min_ℤ-le c.c0 raw, max_ℤ-le c.c3 raw, o.low, o.middle, o.high)
learn-IsOrdered false c raw h =
    let c' = first_calibration raw in
    let o = first_calibration-IsOrdered raw in
    omega (arith, min_ℤ-le c'.c0 raw, max_ℤ-le c'.c3 raw, o.low, o.middle, o.high)

module _ (F : FloatOps) (L : FloatLaws F) where
  open F use {Float, of_int}

  -- A calibration in use is ordered, and the value is one of an axis.
  pub record IsAxis (a : Axis Float) : Type 0 where
    pub calibrated : a.initialized ≡ true → IsOrdered a.calibration
    pub in_range : InRange F L a.value

  pub record IsClassic (cc : ClassicCtrl Float) : Type 0 where
    pub left_x : IsAxis cc.left_x
    pub left_y : IsAxis cc.left_y
    pub right_x : IsAxis cc.right_x
    pub right_y : IsAxis cc.right_y

  abbrev pub IsExpansion : Option (ClassicCtrl Float) → Type 0
  IsExpansion none = Unit {0}
  IsExpansion (some cc) = IsClassic cc

  process_axis-IsAxis :
      (a : Axis Float) (raw : ℤ)
      → IsAxis a
      → (a' : Axis Float) × (process_axis F a raw ≡ some a') × IsAxis a'
  unfolding process_axis
  process_axis-IsAxis a raw h =
      let o = learn-IsOrdered a.initialized a.calibration raw h.calibrated in
      let c = learn a.initialized a.calibration raw in
      (
        record { initialized = true; calibration = c; value = axis_value F raw c },
        rw (calculate_axis-IsOrdered F raw c o),
        record { calibrated = λ _. o; in_range = axis_value-InRange F L raw c o },
      )

  pub classic_ctrl_event-IsClassic :
      (cc : ClassicCtrl Float) (msg : List ℕ)
      → IsClassic cc
      → (cc' : ClassicCtrl Float) × (classic_ctrl_event F cc msg ≡ some cc') × IsClassic cc'
  unfolding classic_ctrl_event
  classic_ctrl_event-IsClassic cc msg h =
      let (a, ea, ha) = process_axis-IsAxis cc.left_x (raw_left_x msg) h.left_x in
      let (b, eb, hb) = process_axis-IsAxis cc.left_y (raw_left_y msg) h.left_y in
      let (c, ec, hc) = process_axis-IsAxis cc.right_x (raw_right_x msg) h.right_x in
      let (e, ee, he) = process_axis-IsAxis cc.right_y (raw_right_y msg) h.right_y in
      (
        record {
          btns = bit_and (bit_xor (short_at msg 4) 0xFFFF) 0xFEFF;
          left_x = a;
          left_y = b;
          right_x = c;
          right_y = e;
        },
        rw (ea, eb, ec, ee),
        record { left_x = ha; left_y = hb; right_x = hc; right_y = he },
      )

  zero-IsExpansion : (wm : Wiimote Float) → IsExpansion (classic_ctrl_handshake F wm).exp
  unfolding classic_ctrl_handshake
  zero-IsExpansion wm =
      let z : IsAxis (zero_axis F) = record { calibrated = λ e. cc; in_range = zero-InRange F L } in
      record { left_x = z; left_y = z; right_x = z; right_y = z }

  set_leds-exp : (wm : Wiimote Float) (n : ℕ) → (wiimote_set_leds wm n).0.exp ≡ wm.exp
  unfolding wiimote_set_leds
  set_leds-exp wm n = ground arith

  set_player_led-exp : (wm : Wiimote Float) → (set_player_led wm).0.exp ≡ wm.exp
  unfolding set_player_led
  set_player_led-exp wm = elim (Option-cases (player_led wm.unid)) [
    | inl e ↦ rw (set_player_led, e)
    | inr (led, e) ↦ rw (set_player_led, e) (set_leds-exp wm led)
  ]

  -- Where a round leaves the expansion.
  round-exp :
      (wm : Wiimote Float) (event : ℕ) (d : List ℕ)
      → let e = (round F wm event d).state.exp in
        (e ≡ wm.exp) ⊎ ((e ≡ none) ⊎ (e ≡ (classic_ctrl_handshake F wm).exp))
  unfolding round begin_round no_attachment_round status_round report_round identify_round
      complete_round rehandshake
  round-exp wm event d = ground (
    arith,
    set_leds-exp (record wm { is_handshake = true }) 0,
    set_player_led-exp
        (record wm { is_handshake = false; is_handshake_complete = true; handshake_state = 1 }),
  )

  -- What a loop leaves, if what every round leaves is `IsExpansion`.
  round-IsExpansion :
      (wm : Wiimote Float) (event : ℕ) (d : List ℕ)
      → IsExpansion wm.exp
      → IsExpansion (round F wm event d).state.exp
  round-IsExpansion wm event d h = elim (round-exp wm event d) [
    | inl same ↦ rw same h
    | inr (inl gone) ↦ rw gone tt
    | inr (inr zeros) ↦ rw zeros (zero-IsExpansion wm)
  ]

  abbrev state_or : Wiimote Float → Option (Handshake F) → Wiimote Float
  state_or wm none = wm
  state_or wm (some h) = h.state

  -- A loop ends in this round, or in a later one.
  after_round-cases :
      (r : Round Float) (rest : Option (Handshake F)) (h : Handshake F)
      → after_round F r rest ≡ some h
      → (r.state ≡ h.state) ⊎ ((h' : Handshake F) × (rest ≡ some h') × (h'.state ≡ h.state))
  unfolding after_round
  after_round-cases r rest h e = elim (Option-cases r.returned) [
    | inr (n, now) ↦ inl (ap (state_or r.state) (rw (after_round, now) at e))
    | inl on ↦ elim (Option-cases rest) [
      | inr (h', later) ↦ inr (h', later, ap (state_or r.state) (rw (after_round, on, later) at e))
      | inl never ↦ absurd (none-some (rw (after_round, on, never) at e))
    ]
  ]
    where
      none-some : {x : Handshake F} → none ≡ some x → ⊥
      none-some e = cc

  pub handshake-IsExpansion :
      (fuel : ℕ) (wm : Wiimote Float) (event : ℕ) (d : List ℕ) (h : Handshake F)
      → IsExpansion wm.exp
      → wiimote_handshake F fuel wm event d ≡ some h
      → IsExpansion h.state.exp
  unfolding wiimote_handshake
  handshake-IsExpansion zero wm event d h ok e = cc
  handshake-IsExpansion (suc fuel) wm event d h ok e =
      let r = round F wm event d in
      elim (after_round-cases r (wiimote_handshake F fuel r.state event d) h e) [
        | inl here ↦ rw here at (round-IsExpansion wm event d ok)
        | inr (h', later, there) ↦
            rw there at (
              handshake-IsExpansion fuel r.state event d h' (round-IsExpansion wm event d ok) later)
      ]
