-- ===== src/Witnesses/Sixaxis.antt =====
-- Reports of the Playstation 3 controller.
use mfi_wrapper.Prelude.{
  ℕ, zero, suc, ◌<◌, ◌≡◌, true, false, List, [], ◌∷◌, map, some, arith, set, replicate,
}
use mfi_wrapper.Prelude.Int.{ℤ, pos}
use mfi_wrapper.Protocol.{InputState}
use mfi_wrapper.HidPad.Effect.{Outcome, states, pauses, reports, presses, run}
use mfi_wrapper.HidPad.Range.{IsBytes, AllInRange}
use mfi_wrapper.Witnesses.Fixed.{thousandths, thousandths_laws}
use mfi_wrapper.HidPad.Playstation3.{Playstation3, handle_packet, set_player_index, report_buffer}
use mfi_wrapper.HidPad.Playstation3.Laws.{
  ps_of, playstation3_in_range, playstation3_pauses, player_bit, reports-set_player_index,
}

-- A report with the left stick at the left, and the PS button down.
abbrev left_and_ps : List ℕ
left_and_ps = 0 ∷ 1 ∷ 0 ∷ 0 ∷ 0 ∷ 1 ∷ 0 ∷ 20 ∷ 128 ∷ 128 ∷ 128 ∷ replicate 38 0

abbrev EachByte : List ℕ → Type 0
EachByte [] = Unit {0}
EachByte (x ∷ xs) = (x < 256) × EachByte xs

EachByte-IsBytes : (d : List ℕ) → EachByte d → IsBytes d
EachByte-IsBytes [] h i = omega arith
EachByte-IsBytes (x ∷ xs) h zero = h.0
EachByte-IsBytes (x ∷ xs) h (suc i) = EachByte-IsBytes xs h.1 i

left_and_ps-IsBytes : IsBytes left_and_ps
left_and_ps-IsBytes = EachByte-IsBytes left_and_ps (omega arith)

abbrev playing : Playstation3
playing = record { pause_held = false; led_byte = 2; need_set_report = true }

playstation3_in_range_example :
    (r : Outcome Playstation3 ℤ) × (i : InputState ℤ) × (handle_packet thousandths playing
        left_and_ps
      ≡ some r)
    × (states r.effects ≡ i ∷ [])
    × AllInRange thousandths thousandths_laws i
playstation3_in_range_example =
    playstation3_in_range thousandths thousandths_laws playing left_and_ps left_and_ps-IsBytes

playstation3_pauses_example :
    (r : Outcome Playstation3 ℤ) × (run
        (handle_packet thousandths)
        playing
        (left_and_ps ∷ left_and_ps ∷ [])
      ≡ some r)
    × (pauses r.effects ≡ presses false (map (ps_of thousandths) (left_and_ps ∷ left_and_ps ∷ [])))
playstation3_pauses_example =
    playstation3_pauses thousandths playing (left_and_ps ∷ left_and_ps ∷ [])

reports-set_player_index_example :
    (r : Outcome Playstation3 ℤ) × (run
        (handle_packet thousandths)
        (set_player_index playing (pos 2))
        (left_and_ps ∷ [])
      ≡ some r)
    × (reports r.effects ≡ set report_buffer 11 (player_bit (pos 2)) ∷ [])
reports-set_player_index_example =
    reports-set_player_index thousandths playing (pos 2) left_and_ps []
