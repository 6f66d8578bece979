-- ===== src/HidPad/WiiMote/Life.antt =====
-- The Wii Remote of HIDPad_WiiMote.cpp from its constructor on, packet by packet.
use mfi_wrapper.Prelude.{
  ℕ, ◌≡◌, refl, inl, inr, List, [], ◌∷◌, ◌++◌, some, arith, drop, ◌==◌, Bool-cases, Option-cases,
}
use mfi_wrapper.Prelude.Int.{ℤ}
use mfi_wrapper.HidPad.Float.{FloatOps, FloatLaws}
use mfi_wrapper.HidPad.Effect.{Effect, finalize_connection, send_controller_state, Outcome, byte}
use mfi_wrapper.HidPad.Range.{AllInRange}
use mfi_wrapper.HidPad.WiiMote.Constants.{rpt_btn, rpt_read, rpt_ctrl_status, rpt_btn_exp}
use mfi_wrapper.HidPad.WiiMote.Driver.{
  Wiimote, wiimote_set_leds, player_led, set_player_led, wiimote_pressed_buttons,
}
use mfi_wrapper.HidPad.WiiMote.Handshake.{Handshake, wiimote_handshake}
use mfi_wrapper.HidPad.WiiMote.Classic.{wiimote_handle_expansion}
use mfi_wrapper.HidPad.WiiMote.Termination.{Waits, wiimote_handshake_returns}
use mfi_wrapper.HidPad.WiiMote.Pad.{
  process_buttons, take_report, handle_packet, rounds, blank, open_pad, set_player_index,
}
use mfi_wrapper.HidPad.Quiet.{AllQuiet, AllQuiet-append}
use mfi_wrapper.HidPad.WiiMote.Quiet.{handshake-AllQuiet, set_player_led-AllQuiet}
use mfi_wrapper.HidPad.WiiMote.Inputs.{process_buttons-AllInRange}
use mfi_wrapper.HidPad.WiiMote.Range.{
  IsExpansion, classic_ctrl_event-IsClassic, handshake-IsExpansion,
}

module _ (F : FloatOps) (L : FloatLaws F) where
  open F use {Float, of_int}

  -- A device between two packets.
  pub record IsRemote (wm : Wiimote Float) : Type 0 where
    pub waits : Waits wm.handshake_state
    pub expansion : IsExpansion F L wm.exp

  abbrev Taken : Wiimote Float → List ℕ → Type 0
  Taken wm d =
      (r : Outcome (Wiimote Float) Float) × (take_report F wm d ≡ some r)
      × IsRemote r.state
      × AllQuiet r.effects

  pressed-IsRemote :
      (wm : Wiimote Float) (msg : List ℕ) → IsRemote wm → IsRemote (wiimote_pressed_buttons wm msg)
  unfolding wiimote_pressed_buttons
  pressed-IsRemote wm msg h = record { waits = h.waits; expansion = h.expansion }

  handshake-IsRemote :
      (wm : Wiimote Float) (event : ℕ) (d : List ℕ)
      → IsRemote wm
      → (h : Handshake F) × (wiimote_handshake F rounds wm event d ≡ some h)
        × IsRemote h.state
        × AllQuiet h.effects
  handshake-IsRemote wm event d remote =
      let (h, returns, good) =
        wiimote_handshake_returns F wm event d (omega (arith, remote.waits)) in
      (
        h,
        returns,
        record {
          waits = good.0;
          expansion = handshake-IsExpansion F L rounds wm event d h remote.expansion returns;
        },
        handshake-AllQuiet F rounds wm event d h returns,
      )

  expansion-IsRemote :
      (wm : Wiimote Float) (msg : List ℕ)
      → IsRemote wm
      → (wm' : Wiimote Float) × (wiimote_handle_expansion F wm msg ≡ some wm') × IsRemote wm'
  unfolding wiimote_handle_expansion
  expansion-IsRemote wm msg remote = elim (Option-cases wm.exp) [
    | inl e ↦ (wm, simp (wiimote_handle_expansion, e), remote)
    | inr (cc, e) ↦
        let (cc', returns, classic) =
          classic_ctrl_event-IsClassic F L cc msg (rw e at remote.expansion) in
        (
          record wm { exp = some cc' },
          rw (wiimote_handle_expansion, e, returns),
          record { waits = remote.waits; expansion = classic },
        )
  ]

  take_report-IsRemote : (wm : Wiimote Float) (d : List ℕ) → IsRemote wm → Taken wm d
  unfolding take_report
  take_report-IsRemote wm d remote =
      let msg = drop 2 d in
      let p = wiimote_pressed_buttons wm msg in
      let ok = pressed-IsRemote wm msg remote in
      let (h, returns, good, quiet) = handshake-IsRemote p rpt_read (drop 5 msg) ok in
      let (h', returns', good', quiet') = handshake-IsRemote p rpt_ctrl_status msg ok in
      let (wm', returns'', good'') = expansion-IsRemote p (drop 2 msg) ok in
      elim (Bool-cases (byte d 1 == rpt_btn)) [
        | inl e ↦ (record { state = p; effects = [] }, rw e, ok, tt)
        | inr e₀ ↦ elim (Bool-cases (byte d 1 == rpt_read)) [
          | inl e ↦
              (record { state = h.state; effects = h.effects }, rw (e₀, e, returns), good, quiet)
          | inr e₁ ↦ elim (Bool-cases (byte d 1 == rpt_ctrl_status)) [
            | inl e ↦ (
              record { state = h'.state; effects = h'.effects },
              rw (e₀, e₁, e, returns'),
              good',
              quiet',
            )
            | inr e₂ ↦ elim (Bool-cases (byte d 1 == rpt_btn_exp)) [
              | inl e ↦
                  (record { state = wm'; effects = [] }, rw (e₀, e₁, e₂, e, returns''), good'', tt)
              | inr e₃ ↦ (record { state = wm; effects = [] }, rw (e₀, e₁, e₂, e₃), remote, tt)
            ]
          ]
        ]
      ]

  -- Under the laws assumed of `float`: from every state of the Wii Remote that waits for a report,
  -- with a Classic Controller (if it has one) whose axes in use have ordered calibrations and values
  -- between -1 and 1, each packet is handled without a failed assertion and without an endless
  -- handshake, leaves such a state, and as its last call sends one input state, the one of
  -- ProcessButtons, whose numbers all lie between -1 and 1.
  pub wii_mote_in_range :
      (wm : Wiimote Float) (d : List ℕ)
      → IsRemote wm
      → (r : Outcome (Wiimote Float) Float) × (es : List (Effect Float)) × (handle_packet F wm d
          ≡ some r)
        × IsRemote r.state
        × (r.effects ≡ es ++ send_controller_state (process_buttons F r.state) ∷ [])
        × AllInRange F L (process_buttons F r.state)
  unfolding handle_packet
  wii_mote_in_range wm d remote =
      let (r, returns, good, _) = take_report-IsRemote wm d remote in
      (
        record r { effects = r.effects ++ send_controller_state (process_buttons F r.state) ∷ [] },
        r.effects,
        rw returns,
        good,
        refl,
        process_buttons-AllInRange F L r.state good.expansion,
      )

  -- One packet, with the calls that it makes.
  pub handle_packet-IsRemote :
      (wm : Wiimote Float) (d : List ℕ)
      → IsRemote wm
      → (r : Outcome (Wiimote Float) Float) × (handle_packet F wm d ≡ some r)
        × IsRemote r.state
        × AllQuiet r.effects
  unfolding handle_packet
  handle_packet-IsRemote wm d remote =
      let (r, returns, good, quiet) = take_report-IsRemote wm d remote in
      (
        record r { effects = r.effects ++ send_controller_state (process_buttons F r.state) ∷ [] },
        rw returns,
        good,
        AllQuiet-append r.effects _ quiet (tt, tt),
      )

  set_leds-IsRemote :
      (wm : Wiimote Float) (n : ℕ) → IsRemote wm → IsRemote (wiimote_set_leds wm n).0
  unfolding wiimote_set_leds
  set_leds-IsRemote wm n h = elim (Bool-cases wm.is_connected) [
    | inl e ↦ rw (wiimote_set_leds, e) (record { waits = h.waits; expansion = h.expansion })
    | inr e ↦ rw (wiimote_set_leds, e) (record { waits = h.waits; expansion = h.expansion })
  ]

  -- The player's index.
  pub set_player_index-IsRemote :
      (wm : Wiimote Float) (i : ℤ)
      → IsRemote wm
      → IsRemote (set_player_index wm i).state × AllQuiet (set_player_index wm i).effects
  unfolding set_player_index set_player_led
  set_player_index-IsRemote wm i h =
      let wm' = record wm { unid = i } in
      let h' : IsRemote wm' = record { waits = h.waits; expansion = h.expansion } in
      (
        elim (Option-cases (player_led i)) [
          | inl e ↦ rw (set_player_index, set_player_led, e) h'
          | inr (led, e) ↦ rw (set_player_index, set_player_led, e) (set_leds-IsRemote wm' led h')
        ],
        set_player_led-AllQuiet wm',
      )

  -- The constructor enters the device into the registry as its last call.
  pub open_pad_enters :
      (r : Outcome (Wiimote Float) Float) × (es : List (Effect Float)) × (open_pad F ≡ some r)
      × IsRemote r.state
      × (r.effects ≡ es ++ finalize_connection ∷ [])
      × AllQuiet es
  unfolding open_pad
  open_pad_enters =
      let (h, returns, good) = wiimote_handshake_returns F (blank F) 255 [] (omega arith) in
      (
        record { state = h.state; effects = h.effects ++ finalize_connection ∷ [] },
        h.effects,
        rw returns,
        record {
          waits = good.0;
          expansion = handshake-IsExpansion F L rounds (blank F) 255 [] h tt returns;
        },
        refl,
        handshake-AllQuiet F rounds (blank F) 255 [] h returns,
      )

  -- Under the laws assumed of `float`, the constructor of the Wii Remote returns, and leaves a state
  -- that waits for a report, with a Classic Controller (if it has one) whose axes in use have
  -- ordered calibrations and values between -1 and 1.
  open_pad-IsRemote : (r : Outcome (Wiimote Float) Float) × (open_pad F ≡ some r) × IsRemote r.state
  open_pad-IsRemote = let (r, es, returns, good, _, _) = open_pad_enters in (r, returns, good)
