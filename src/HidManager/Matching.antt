-- ===== src/HidManager/Matching.antt =====
-- StartUp, ShutDown and append_matching_dictionary of src/backend/hidmanager/HIDManager.cpp. What IOKit
-- does with the manager is given by its answers.
use mfi_wrapper.Prelude.{
  ℕ, Bool, true, false, List, [], ◌∷◌, ◌++◌, Option, none, some, if◌then◌else◌,
}

-- kIOHIDDeviceUsagePageKey and kIOHIDDeviceUsageKey
pub data Key : Type 0 where
  usage_page usage : Key

abbrev pub Dictionary : Type 0
Dictionary = List (Key × ℕ)

-- What the HID manager was told.
pub record Manager : Type 0 where
  pub matching : List Dictionary
  pub has_matching_callback : Bool
  pub is_scheduled : Bool
  pub is_open : Bool

-- `g_hid_manager`
pub data ManagerRef : Type 0 where
  null released : ManagerRef
  live : Manager → ManagerRef

-- The constants of IOKit: the page of generic desktop controls, and its usages.
pub record Usages : Type 0 where
  pub generic_desktop : ℕ
  pub joystick : ℕ
  pub game_pad : ℕ

unfoldable pub append_matching_dictionary : List Dictionary → ℕ → ℕ → List Dictionary
append_matching_dictionary array page use' = array ++ ((usage_page, page) ∷ (usage, use') ∷ []) ∷ []

abbrev pub created : Manager
created = record {
  matching = [];
  has_matching_callback = false;
  is_scheduled = false;
  is_open = false;
}

-- What IOKit answers to StartUp: whether IOHIDManagerCreate gave a manager, and whether IOHIDManagerOpen
-- opened it, which StartUp does not look at.
pub record ManagerAnswers : Type 0 where
  pub is_made : Bool
  pub opens : Bool

-- StartUp: what the manager is told, and what is left in the variable. `none` is a null manager in the calls
-- behind IOHIDManagerCreate.
unfoldable pub started : Usages → Bool → Manager
unfolding append_matching_dictionary
started u opens =
    let joysticks = append_matching_dictionary [] u.generic_desktop u.joystick in
    let matcher = append_matching_dictionary joysticks u.generic_desktop u.game_pad in
    let told = record created { matching = matcher } in
    let registered = record told { has_matching_callback = true } in
    let scheduled = record registered { is_scheduled = true } in
    record scheduled { is_open = opens }

unfoldable pub start_up : Usages → ManagerAnswers → Option ManagerRef
start_up u a = if a.is_made then some (live (started u a.opens)) else none

-- ShutDown: the manager is closed, taken off the run loop, and released. `none` is a manager that is not there.
-- The variable keeps its pointer.
unfoldable pub shut_down : ManagerRef → Option ManagerRef
shut_down null = none
shut_down released = none
shut_down (live m) = some released
