-- ===== src/HidPad/Effect.antt =====
-- What the methods of a controller ask of the HID manager and of the backend, and the parts that the
-- controllers share.
use mfi_wrapper.Prelude.{
  ℕ, suc, ◌+◌, Bool, not, ◌&&◌, List, [], ◌∷◌, ◌++◌, get_or, if◌then◌else◌, Option, none, some,
  ◌>>=◌,
}
use mfi_wrapper.Prelude.Int.{pos}
use mfi_wrapper.Protocol.{InputState}
use mfi_wrapper.HidPad.Float.{FloatOps}
use mfi_wrapper.HidPad.Axis.{Calibration}

-- HIDManager::SetReport and GetReport with their arguments (feature report or not, the report's ID,
-- the bytes or their number), Interface::FinalizeConnection, and the two senders of the backend.
pub data Effect (Float : Type 0) : Type 0 where
  set_report : Bool → ℕ → List ℕ → Effect Float
  get_report : Bool → ℕ → ℕ → Effect Float
  finalize_connection : Effect Float
  send_pause_pressed : Effect Float
  send_controller_state : InputState Float → Effect Float
  -- usleep, in microseconds.
  sleep : ℕ → Effect Float

-- A method's new state and its calls, in order.
pub record Outcome (State Float : Type 0) : Type 0 where
  pub state : State
  pub effects : List (Effect Float)

-- A byte of a report. Reports stand in a buffer of 2048 bytes, past which no controller reads.
abbrev pub byte : List ℕ → ℕ → ℕ
byte d i = get_or d i 0

-- The calibration of the Playstation controllers' sticks.
abbrev pub stick_calibration : Calibration
stick_calibration = record { c0 = pos 0; c1 = pos 100; c2 = pos 155; c3 = pos 255 }

module _ (F : FloatOps) where
  open F use {Float, of_int}

  -- A button that is pressed or not.
  abbrev pub pressed : Bool → Float
  pressed b = if b then of_int (pos 1) else of_int (pos 0)

-- SendPausePressed at the press of the pause button, not while it is held.
abbrev pub pause_effects : {Float : Type 0} → Bool → Bool → List (Effect Float)
pause_effects held down = if not held && down then send_pause_pressed ∷ [] else []

-- How often a pause was sent.
abbrev pub pauses : {Float : Type 0} → List (Effect Float) → ℕ
pauses [] = 0
pauses (send_pause_pressed ∷ es) = suc (pauses es)
pauses (_ ∷ es) = pauses es

-- The bytes of the output reports that were sent.
abbrev pub reports : {Float : Type 0} → List (Effect Float) → List (List ℕ)
reports [] = []
reports (set_report feature id d ∷ es) = d ∷ reports es
reports (_ ∷ es) = reports es

-- The input states that were sent.
abbrev pub states : {Float : Type 0} → List (Effect Float) → List (InputState Float)
states [] = []
states (send_controller_state i ∷ es) = i ∷ states es
states (_ ∷ es) = states es

-- How often a button goes down in a history after the state `held`. A packet that says nothing of the
-- button is a `none`.
abbrev pub presses : Bool → List (Option Bool) → ℕ
presses held [] = 0
presses held (none ∷ rest) = presses held rest
presses held (some down ∷ rest) = (if not held && down then 1 else 0) + presses down rest

-- A controller's packets in turn, and all that it asked for.
unfoldable pub run :
    {S P Float : Type 0}
    → (S → P → Option (Outcome S Float))
    → S
    → List P
    → Option (Outcome S Float)
run step s [] = some (record { state = s; effects = [] })
run step s (p ∷ ps) = do
  r ← step s p
  rest ← run step r.state ps
  some (record rest { effects = r.effects ++ rest.effects })
