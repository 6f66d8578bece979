-- ===== src/Witnesses/Radio.antt =====
-- The Bluetooth server's packets.
use mfi_wrapper.Prelude.{
  ℕ, ◌≡◌, refl, List, [], ◌∷◌, ◌++◌, none, some, arith, set, take, drop, replicate,
}
use mfi_wrapper.Prelude.Int.{ℤ, pos}
use mfi_wrapper.Text.{codes, c_string, contains}
use mfi_wrapper.BtFilter.Address.{address_of}
use mfi_wrapper.BtFilter.Defs.{Globals, entry_filters}
use mfi_wrapper.BtFilter.Hooks.{ReadDone, filter_read, new_write}
use mfi_wrapper.BtFilter.Read.{holding, idle, inquiry_patched, inquiry_out_of_bounds}
use mfi_wrapper.BtFilter.Pairing.{IsPinReply, wii_pin_pairs}

-- After `entry`, with a socket.
abbrev started : Globals
started = record {
  bluetooth_socket = pos 5;
  device_names = [];
  local_address = replicate 6 0;
  read_filters = entry_filters;
  context = [];
}

-- The system takes every packet.
abbrev taken : ℕ → ℤ
taken k = pos 1

abbrev local_address_answer : List ℕ
local_address_answer = 0x04 ∷ 0x0E ∷ 10 ∷ 1 ∷ 0x09 ∷ 0x10 ∷ 0 ∷ 11 ∷ 12 ∷ 13 ∷ 14 ∷ 15 ∷ 16 ∷ []

abbrev device : List ℕ
device = 1 ∷ 2 ∷ 3 ∷ 4 ∷ 5 ∷ 6 ∷ []

-- "Nintendo RVL-CNT-01-UC".
abbrev device_name : List ℕ
device_name = codes "Nintendo RVL-CNT-01-UC"

abbrev name_answer : List ℕ
name_answer = 0x04 ∷ 0x07 ∷ 255 ∷ 0 ∷ (device ++ (device_name ++ replicate 226 0))

abbrev pin_command : List ℕ
pin_command = 0x01 ∷ 0x0D ∷ 0x04 ∷ 23 ∷ (device ++ (4 ∷ replicate 16 48))

-- A joystick of class 0x002504.
abbrev inquiry_answer : List ℕ
inquiry_answer = 0x04 ∷ 0x22 ∷ 15 ∷ 1 ∷ (device ++ (1 ∷ 0 ∷ 0x04 ∷ 0x25 ∷ 0 ∷ 0 ∷ 0 ∷ 200 ∷ []))

wii_pin_pairs_example :
    (r r' : ReadDone) × (p : List ℕ) × (filter_read (idle started) local_address_answer ≡ some r)
    × (filter_read r.globals name_answer ≡ some r')
    × (new_write r'.globals taken r'.globals.bluetooth_socket pin_command
        ≡ record { result = pos 27; calls = p ∷ [] })
    × IsPinReply pin_command (take 6 (drop 7 local_address_answer)) p
unfolding entry_filters address_of contains c_string
wii_pin_pairs_example =
    wii_pin_pairs started taken local_address_answer name_answer pin_command tt refl refl
      (omega arith) (omega arith) (omega arith) refl (omega arith) refl refl (omega arith)

-- The first eight bytes come with one read, the others with a second.
inquiry_patched_example :
    filter_read (holding (take 8 inquiry_answer) started) (drop 8 inquiry_answer)
    ≡ some (record { globals = idle started; bytes = set (drop 8 inquiry_answer) 4 0x40 })
unfolding entry_filters
inquiry_patched_example =
    inquiry_patched started (take 8 inquiry_answer) (drop 8 inquiry_answer) 0x22 (omega arith)
      (omega arith) refl (omega arith)

-- The first thirteen bytes come with one read, the others with a second.
inquiry_out_of_bounds_example :
    filter_read (holding (take 13 inquiry_answer) started) (drop 13 inquiry_answer) ≡ none
unfolding entry_filters
inquiry_out_of_bounds_example =
    inquiry_out_of_bounds started (take 13 inquiry_answer) (drop 13 inquiry_answer) 0x22
      (omega arith) refl refl refl (omega arith)
