-- ===== src/HidPad/WiiMote/Termination.antt =====
-- The handshake's loop ends.
use mfi_wrapper.Prelude.{
  ℕ, suc, ◌≤◌, ◌≡◌, refl, ap, ◌∙◌, ◌⊎◌, inl, inr, Bool, true, false, List, [], ◌++◌, none, some,
  arith, has_bits, ◌!=◌, if◌then◌else◌, ℕ_discrete, Bool-cases, Option-cases,
}
use mfi_wrapper.HidPad.Float.{FloatOps}
use mfi_wrapper.HidPad.Effect.{byte}
use mfi_wrapper.HidPad.WiiMote.Constants.{rpt_ctrl_status, rpt_read, rpt_btn, rpt_btn_exp}
use mfi_wrapper.HidPad.WiiMote.Driver.{
  Wiimote, Round, classic_id, long_at, wiimote_set_leds, player_led, set_player_led,
}
use mfi_wrapper.HidPad.WiiMote.Handshake.{
  classic_ctrl_handshake, rehandshake, begin_round, no_attachment_round, status_round, report_round,
  identify_round, complete_round, wait, round, Handshake, after_round, wiimote_handshake,
}

-- The states in which the handshake waits for a report.
abbrev pub Waits : ℕ → Type 0
Waits n = (n ≡ 1) ⊎ ((n ≡ 4) ⊎ (n ≡ 5))

-- What a finished handshake has: it returned 1, and the device is marked so.
pub record IsComplete {Float : Type 0} (wm : Wiimote Float) : Type 0 where
  pub complete : wm.is_handshake_complete ≡ true
  pub over : wm.is_handshake ≡ false
  pub at_rest : wm.handshake_state ≡ 1

module _ (F : FloatOps) where
  open F use {Float}

  -- It waits for a report, and returned 0, or 1 with the handshake complete.
  abbrev pub Returned : Handshake F → Type 0
  Returned h =
      Waits h.state.handshake_state × ((h.returned ≡ 0) ⊎ ((h.returned ≡ 1) × IsComplete h.state))

  abbrev Returns : ℕ → Wiimote Float → ℕ → List ℕ → Type 0
  Returns fuel wm event d =
      (h : Handshake F) × (wiimote_handshake F fuel wm event d ≡ some h) × Returned h

  module _ (wm : Wiimote Float) (event : ℕ) (d : List ℕ) where
    -- A round that returns, and one that goes on.
    settles :
        (fuel : ℕ) (r : Round Float) (n : ℕ)
        → round F wm event d ≡ r
        → r.returned ≡ some n
        → Waits r.state.handshake_state
        → (n ≡ 0) ⊎ ((n ≡ 1) × IsComplete r.state)
        → Returns (suc fuel) wm event d
    unfolding wiimote_handshake after_round
    settles fuel r n e now waits done = (
      record { state = r.state; effects = r.effects; returned = n },
      ap (λ (x : Round Float). after_round F x (wiimote_handshake F fuel x.state event d)) e
          ∙ rw (after_round, now),
      (waits, done),
    )

    goes_on :
        (fuel : ℕ) (r : Round Float)
        → round F wm event d ≡ r
        → r.returned ≡ none
        → Returns fuel r.state event d
        → Returns (suc fuel) wm event d
    unfolding wiimote_handshake after_round
    goes_on fuel r e on (h, returns, good) = (
      record h { effects = r.effects ++ h.effects },
      ap (λ (x : Round Float). after_round F x (wiimote_handshake F fuel x.state event d)) e
          ∙ rw (after_round, on, returns),
      good,
    )

  leds_keep : (wm : Wiimote Float) (n : ℕ) → IsComplete wm → IsComplete (wiimote_set_leds wm n).0
  unfolding wiimote_set_leds
  leds_keep wm n h = record {
    complete = ground (arith, h.complete);
    over = ground (arith, h.over);
    at_rest = ground (arith, h.at_rest);
  }

  keeps_flags : (wm : Wiimote Float) → IsComplete wm → IsComplete (set_player_led wm).0
  unfolding set_player_led
  keeps_flags wm h = elim (Option-cases (player_led wm.unid)) [
    | inl e ↦ rw (set_player_led, e) h
    | inr (led, e) ↦ rw (set_player_led, e) (leds_keep wm led h)
  ]

  from6 :
      (fuel : ℕ) (wm : Wiimote Float) (event : ℕ) (d : List ℕ)
      → wm.handshake_state ≡ 6
      → Returns (suc fuel) wm event d
  unfolding round complete_round
  from6 fuel wm event d h =
      let done =
        keeps_flags
          (record wm { is_handshake = false; is_handshake_complete = true; handshake_state = 1 })
          (record { complete = refl; over = refl; at_rest = refl }) in
      settles wm event d fuel (complete_round wm) 1 (rw h) refl (inl done.at_rest)
        (inr (refl, done))

  from2 :
      (fuel : ℕ) (wm : Wiimote Float) (event : ℕ) (d : List ℕ)
      → wm.handshake_state ≡ 2
      → Returns (suc (suc fuel)) wm event d
  unfolding round report_round
  from2 fuel wm event d h =
      goes_on wm event d (suc fuel) (report_round wm rpt_btn) (rw h) refl
        (from6 fuel (record wm { handshake_state = 6 }) event d refl)

  from3 :
      (fuel : ℕ) (wm : Wiimote Float) (event : ℕ) (d : List ℕ)
      → wm.handshake_state ≡ 3
      → Returns (suc (suc fuel)) wm event d
  unfolding round report_round
  from3 fuel wm event d h =
      goes_on wm event d (suc fuel) (report_round wm rpt_btn_exp) (rw h) refl
        (from6 fuel (record wm { handshake_state = 6 }) event d refl)

  from0 :
      (fuel : ℕ) (wm : Wiimote Float) (event : ℕ) (d : List ℕ)
      → wm.handshake_state ≡ 0
      → Returns (suc fuel) wm event d
  unfolding round begin_round
  from0 fuel wm event d h =
      settles wm event d fuel (begin_round wm) 0 (rw h) refl (inl refl) (inl refl)

  from4 :
      (wm : Wiimote Float) (event : ℕ) (d : List ℕ) → wm.handshake_state ≡ 4 → Returns 3 wm event d
  unfolding round identify_round
  from4 wm event d h = elim (Bool-cases (event != rpt_read)) [
    | inl e ↦ settles wm event d 2 (wait wm) 0 (rw (h, e)) refl (inr (inl h)) (inl refl)
    | inr e ↦ elim (Bool-cases (long_at d != classic_id)) [
      | inl other ↦
          goes_on wm event d 2 (identify_round wm d) (rw (h, e)) (rw other)
            (rw other (from2 0 (record wm { handshake_state = 2 }) event d refl))
      | inr same ↦
          settles wm event d 2 (identify_round wm d) 0 (rw (h, e)) (rw same)
            (rw same (inr (inr refl))) (inl refl)
    ]
  ]

  from5 :
      (wm : Wiimote Float) (event : ℕ) (d : List ℕ) → wm.handshake_state ≡ 5 → Returns 3 wm event d
  unfolding round
  from5 wm event d h = elim (Bool-cases (event != rpt_read)) [
    | inl e ↦ settles wm event d 2 (wait wm) 0 (rw (h, e)) refl (inr (inr h)) (inl refl)
    | inr e ↦
        goes_on wm event d 2
          (record {
            state = record (classic_ctrl_handshake F wm) { handshake_state = 3 };
            effects = [];
            returned = none;
          })
          (rw (h, e)) refl
          (from3 0 (record (classic_ctrl_handshake F wm) { handshake_state = 3 }) event d refl)
  ]

  rehandshake-state : (wm : Wiimote Float) → (rehandshake wm).handshake_state ≡ wm.handshake_state
  unfolding rehandshake
  rehandshake-state wm = ground arith

  unattached :
      (wm w : Wiimote Float) (event : ℕ) (d : List ℕ)
      → round F wm event d ≡ no_attachment_round w
      → w.handshake_state ≡ 1
      → Returns 3 wm event d
  unfolding no_attachment_round
  unattached wm w event d e h = elim (Bool-cases w.is_handshake) [
    | inl busy ↦
        goes_on wm event d 2
          (record { state = record w { handshake_state = 2 }; effects = []; returned = none })
          (e
            ∙ ap
                (λ (b : Bool).
                  if b
                  then record {
                    state = record w { handshake_state = 2 };
                    effects = [];
                    returned = none;
                  }
                  else wait w)
                busy)
          refl (from2 0 (record w { handshake_state = 2 }) event d refl)
    | inr idle ↦
        settles wm event d 2 (wait w) 0
          (e
            ∙ ap
                (λ (b : Bool).
                  if b
                  then record {
                    state = record w { handshake_state = 2 };
                    effects = [];
                    returned = none;
                  }
                  else wait w)
                idle)
          refl (inl h) (inl refl)
  ]

  attached :
      (wm : Wiimote Float) (event : ℕ) (d : List ℕ)
      → round F wm event d ≡ status_round wm true
      → wm.handshake_state ≡ 1
      → Returns 3 wm event d
  unfolding status_round
  attached wm event d e h = elim (Bool-cases wm.is_expansion) [
    | inl known ↦
        settles wm event d 2 (status_round wm true) 0 e (rw (status_round, known))
          (rw (status_round, known) (inl h)) (inl refl)
    | inr fresh ↦
        settles wm event d 2 (status_round wm true) 0 e (rw (status_round, fresh))
          (rw (status_round, fresh) (inr (inl refl))) (inl refl)
  ]

  from1 :
      (wm : Wiimote Float) (event : ℕ) (d : List ℕ) → wm.handshake_state ≡ 1 → Returns 3 wm event d
  unfolding round status_round
  from1 wm event d h = elim (Bool-cases (event != rpt_ctrl_status)) [
    | inl e ↦ settles wm event d 2 (wait wm) 0 (rw (h, e)) refl (inl h) (inl refl)
    | inr e ↦ elim (Bool-cases (has_bits (byte d 2) 0x02)) [
      | inl on ↦ attached wm event d (rw (h, e, on)) h
      | inr off ↦
          unattached wm
            (if wm.is_expansion
              then rehandshake (record wm { is_expansion = false; exp = none })
              else wm)
            event d (rw (h, e, off))
            (ground (arith, h, rehandshake-state (record wm { is_expansion = false; exp = none })))
    ]
  ]

  -- For a handshake state of at most 6, any event and any data, `wiimote_handshake` returns within
  -- three rounds of its loop and leaves the device waiting for a report (in state 1, 4 or 5); it
  -- returns 0, or it returns 1 and the device is marked as complete, as not in a handshake, and is
  -- in state 1.
  pub wiimote_handshake_returns :
      (wm : Wiimote Float) (event : ℕ) (d : List ℕ)
      → wm.handshake_state ≤ 6
      → (h : Handshake F) × (wiimote_handshake F 3 wm event d ≡ some h) × Returned h
  wiimote_handshake_returns wm event d h = elim (ℕ_discrete wm.handshake_state 0) [
    | yes e ↦ from0 2 wm event d e
    | no n₀ ↦ elim (ℕ_discrete wm.handshake_state 1) [
      | yes e ↦ from1 wm event d e
      | no n₁ ↦ elim (ℕ_discrete wm.handshake_state 2) [
        | yes e ↦ from2 1 wm event d e
        | no n₂ ↦ elim (ℕ_discrete wm.handshake_state 3) [
          | yes e ↦ from3 1 wm event d e
          | no n₃ ↦ elim (ℕ_discrete wm.handshake_state 4) [
            | yes e ↦ from4 wm event d e
            | no n₄ ↦ elim (ℕ_discrete wm.handshake_state 5) [
              | yes e ↦ from5 wm event d e
              | no n₅ ↦ from6 2 wm event d (omega arith)
            ]
          ]
        ]
      ]
    ]
  ]
