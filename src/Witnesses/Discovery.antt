-- ===== src/Witnesses/Discovery.antt =====
-- An application's discovery handlers, and its calls through the hooks.
use mfi_wrapper.Prelude.{ℕ, zero, suc, ◌≡◌, refl, true, false, List, [], ◌∷◌, some, arith, ◌!=◌}
use mfi_wrapper.Prelude.Int.{pos}
use mfi_wrapper.Frontend.Manager.{initial}
use mfi_wrapper.Frontend.Keyboard.{blank}
use mfi_wrapper.Frontend.Discovery.{
  Action, start_discovery, stop_discovery, get_controllers, Discovery, ok, out_of_fuel, run,
}
use mfi_wrapper.Frontend.Discovery.Ownership.{IsOwned, Sound, held, occurrences, run-Sound}
use mfi_wrapper.Frontend.Discovery.Ending.{AllBelow, discovery_returns, self_restart_never_returns}
use mfi_wrapper.Frontend.Hooks.{UiEvent, Keys, key_commands}
use mfi_wrapper.Frontend.Hooks.Exchange.{
  Selector, Runtime, gc_controller, gc_controller_hook, load, load_exchanges,
}
use mfi_wrapper.Frontend.Hooks.Repeats.{Delivery, delivered, type_all, repeats_are_ignored}

-- Block 0 starts block 1 and stops; block 1 asks for the controllers; block 2 starts itself and stops.
abbrev scripts : ℕ → List Action
scripts zero = start_discovery (some 1) ∷ stop_discovery ∷ []
scripts (suc zero) = get_controllers ∷ []
scripts (suc (suc n)) = start_discovery (some 2) ∷ stop_discovery ∷ []

abbrev idle_state : Discovery
idle_state = record { frontend = initial; references = λ b. 0; copied = []; called = [] }

idle_state-IsOwned : IsOwned (λ _. 0) idle_state
unfolding occurrences
idle_state-IsOwned = record { owned = λ b. omega arith; once = λ b. omega arith }

abbrev both_handlers : List Action
both_handlers = start_discovery (some 0) ∷ stop_discovery ∷ []

run-Sound_example : Sound (λ _. 0) (run scripts 5 both_handlers idle_state)
run-Sound_example = run-Sound scripts 5 both_handlers (λ _. 0) idle_state idle_state-IsOwned

-- Without block 2 the ranks fall.
abbrev nested : ℕ → List Action
nested zero = start_discovery (some 1) ∷ stop_discovery ∷ []
nested (suc n) = get_controllers ∷ []

abbrev height : ℕ → ℕ
height zero = 1
height (suc n) = 0

nested-falls : (b : ℕ) → AllBelow height (height b) (nested b)
nested-falls zero = (omega arith, tt)
nested-falls (suc n) = tt

discovery_returns_example :
    (s : Discovery) × (run nested 2 both_handlers idle_state ≡ ok s) × IsOwned (λ _. 0) s
discovery_returns_example =
    discovery_returns height nested nested-falls 2 both_handlers idle_state idle_state-IsOwned tt
      (omega arith, tt)

-- A frontend that holds block 2.
abbrev holding : Discovery
holding = record {
  frontend = record initial { discovery_completion_handler = some 2 };
  references = held (some 2);
  copied = 2 ∷ [];
  called = [];
}

holding-IsOwned : IsOwned (λ _. 0) holding
unfolding occurrences
holding-IsOwned = record { owned = λ b. omega arith; once = λ b. ground arith }

self_restart_never_returns_example : run scripts 9 (stop_discovery ∷ []) holding ≡ out_of_fuel
self_restart_never_returns_example =
    self_restart_never_returns scripts 2 [] [] refl 9 (λ _. 0) holding holding-IsOwned refl

-- A key that iOS delivers twice, and one with no event behind it.
abbrev pressed : UiEvent ℕ
pressed = record { timestamp = 5; has_hid_event = true; is_key_down = true; key_code = pos 0x1A }

abbrev on_screen : UiEvent ℕ
on_screen = record { timestamp = 6; has_hid_event = false; is_key_down = true; key_code = pos 0 }

abbrev deliveries : Delivery ℕ
deliveries = (pressed, 1) ∷ (on_screen, 0) ∷ []

abbrev silent_keys : Keys ℕ
silent_keys = record {
  last_time_stamp = 0;
  keyboard = blank;
  frontend = initial;
  calls = [];
  sent = [];
}

repeats_are_ignored_example :
    key_commands (λ a b. a != b) silent_keys (delivered deliveries)
    ≡ type_all silent_keys deliveries
repeats_are_ignored_example =
    repeats_are_ignored (λ a b. a != b) (λ t. ground arith) silent_keys deliveries
      (refl, (refl, tt))

-- The methods by numbers; the hook has the method that load looks for.
abbrev system : Runtime ℕ
system = record {
  has_gc_controller = true;
  method = λ c s. elim c [ gc_controller ↦ some 10 | gc_controller_hook ↦ some 20 ];
}

load_exchanges_example : (load system).method gc_controller Selector.get_controllers ≡ some 20
load_exchanges_example = load_exchanges system gc_controller Selector.get_controllers
