-- ===== src/Frontend/Discovery.antt =====
-- StartWirelessControllerDiscovery and StopWirelessControllerDiscovery of src/frontend/frontend.mm, with the
-- references that they own and the handlers that they run. A handler of the application is a block, a
-- number; what it does is a script of calls back into the frontend.
pub mod Ownership
pub mod Ending
use mfi_wrapper.Prelude.{
  ℕ, zero, suc, ◌+◌, ◌-◌, List, [], ◌∷◌, ◌++◌, Option, none, some, ◌==◌, if◌then◌else◌,
}
use mfi_wrapper.Frontend.Manager.{Frontend, startup}

-- What a program calls.
pub data Action : Type 0 where
  start_discovery : Option ℕ → Action
  stop_discovery : Action
  get_controllers : Action

pub record Discovery : Type 0 where
  pub frontend : Frontend
  -- How many references to a block the frontend owns.
  pub references : ℕ → ℕ
  -- The blocks that were copied, and those that were called, in order.
  pub copied : List ℕ
  pub called : List ℕ

-- `fault` is a release of a block that the frontend does not own, or a call of such a block.
pub data Run : Type 0 where
  ok : Discovery → Run
  fault : Run
  out_of_fuel : Run

infixl 5 ◌>>=◌
abbrev pub ◌>>=◌ : Run → (Discovery → Run) → Run
ok s >>= f = f s
fault >>= f = fault
out_of_fuel >>= f = out_of_fuel

abbrev pub start_up : Discovery → Discovery
start_up s = record s { frontend = startup s.frontend }

abbrev pub hold : Option ℕ → Discovery → Discovery
hold handler s = record s {
  frontend = record s.frontend { discovery_completion_handler = handler };
}

-- `[block release]`; a message to nil does nothing.
unfoldable pub release : Option ℕ → Discovery → Run
release none s = ok s
release (some b) s =
    if s.references b == 0
    then fault
    else ok (record s { references = λ k. if b == k then s.references k - 1 else s.references k })

-- `[block copy]`
unfoldable pub copy : Option ℕ → Discovery → Discovery
copy none s = s
copy (some b) s = record s {
  references = λ k. if b == k then s.references k + 1 else s.references k;
  copied = s.copied ++ b ∷ [];
}

-- StartWirelessControllerDiscovery
unfoldable pub start : Option ℕ → Discovery → Run
unfolding startup
start handler s = release s.frontend.discovery_completion_handler (start_up s) >>= λ released.
    ok (hold handler (copy handler released))

-- `gch()`, if `body` is how a block runs.
unfoldable pub call_block : (ℕ → Discovery → Run) → ℕ → Discovery → Run
call_block body b s =
    if s.references b == 0 then fault else body b (record s { called = s.called ++ b ∷ [] })

-- StopWirelessControllerDiscovery: the handler is consumed, called, and released.
unfoldable pub stop : (ℕ → Discovery → Run) → Discovery → Run
unfolding startup call_block
stop body s = elim s.frontend.discovery_completion_handler [
  | none ↦ ok (start_up s)
  | some b ↦ call_block body b (hold none (start_up s)) >>= release (some b)
]

-- A script of calls.
unfoldable pub perform : (ℕ → Discovery → Run) → List Action → Discovery → Run
perform body [] s = ok s
perform body (start_discovery handler ∷ rest) s = start handler s >>= perform body rest
perform body (stop_discovery ∷ rest) s = stop body s >>= perform body rest
perform body (get_controllers ∷ rest) s = perform body rest (start_up s)

-- A block does what its script says. The fuel is how deep handlers may run inside of one another.
module _ (bodies : ℕ → List Action) where
  unfoldable pub handle : ℕ → ℕ → Discovery → Run
  handle zero b s = out_of_fuel
  handle (suc fuel) b s = perform (handle fuel) (bodies b) s

  unfoldable pub run : ℕ → List Action → Discovery → Run
  unfolding handle
  run fuel script = perform (handle fuel) script
