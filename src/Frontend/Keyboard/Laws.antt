-- ===== src/Frontend/Keyboard/Laws.antt =====
-- The iCade over the keys that it types.
use mfi_wrapper.Prelude.{ℕ, ◌≡◌, Bool, true, ◌||◌, List, [], ◌∷◌, ◌==◌}
use mfi_wrapper.Protocol.{local_handle}
use mfi_wrapper.Frontend.Value.{one, minus_one}
use mfi_wrapper.Frontend.Manager.{Frontend, handle_packet_pause_pressed}
use mfi_wrapper.Frontend.Keyboard.{Keyboard, key, icade_map, initialize, act, event}

abbrev pub IsStick : ℕ → Type 0
IsStick w = ((w == 0) || ((w == one) || (w == minus_one))) ≡ true

abbrev pub AllSticks : List ℕ → Type 0
AllSticks [] = Unit {0}
AllSticks (w ∷ ws) = IsStick w × AllSticks ws

-- The events of a history, with the frontend in between as `event` leaves it.
abbrev pub typed : Keyboard → Frontend → List (Bool × ℕ) → Keyboard
typed k f [] = k
typed k f ((down, code) ∷ rest) = let r = event k f down code in typed r.keyboard r.frontend rest

-- Once the iCade is connected, the key that START types when it goes down and the key that it types
-- when it goes up each press pause on the iCade's controller.
start_pauses_twice :
    (k : Keyboard) (f : Frontend)
    → k.initialized ≡ true
    → let pressed = event k f true 0x18 in
      (pressed.calls ≡ handle_packet_pause_pressed f local_handle)
      × ((event pressed.keyboard pressed.frontend true 0x09).calls
          ≡ handle_packet_pause_pressed f local_handle)
unfolding event initialize act key icade_map
start_pauses_twice k f ready = (rw ready, rw ready)
