-- ===== src/HidManager.antt =====
-- src/backend/hidmanager/HIDManager.cpp: what it makes of a device's identity, of a report that arrives
-- and of a report to send. Its callbacks are steps of System.
pub mod Laws
pub mod Matching
use mfi_wrapper.Prelude.{
  ℕ, ◌+◌, ◌-◌, ◌%◌, ◌^◌, Bool, ◌&&◌, List, [], ◌∷◌, ◌++◌, length, take, drop, replicate, ◌==◌,
  if◌then◌else◌,
}
use mfi_wrapper.Text.{codes}

-- The name for a device on iOS, by its vendor and its product.
unfoldable pub ios_device_name : ℕ → ℕ → List ℕ
ios_device_name vendor product =
    if vendor == 0x57E && product == 0x306
    then codes "Nintendo RVL-CNT-01"
    else if vendor == 0x57E && product == 0x330
    then codes "Nintendo RVL-CNT-01-UC"
    else if vendor == 0x54C && product == 0x5C4
    then codes "Wireless Controller"
    else codes "Unrecognized Device"

-- `data` of a new Connection.
abbrev pub blank_data : List ℕ
blank_data = replicate 2048 0

-- IOKit stores a report at `data + 1`, in the 2047 bytes that it was given, before DeviceReport is called.
unfoldable pub stored : List ℕ → List ℕ → List ℕ
stored data_bytes report =
    let part = take 2047 report in take 1 data_bytes ++ part ++ drop (1 + length part) data_bytes

-- `reportLength + 1` as the `uint16_t` of HandlePacket.
unfoldable pub packet_size : List ℕ → ℕ
packet_size report = (length (take 2047 report) + 1) % 2 ^ 16

-- The calls of IOHIDDeviceSetReport and IOHIDDeviceGetReport: whether a feature report, its ID, and the
-- bytes, or their number, as a CFIndex.
pub data IoCall : Type 0 where
  io_set_report : Bool → ℕ → List ℕ → IoCall
  io_get_report : Bool → ℕ → ℕ → IoCall

-- SetReport and GetReport pass on all but the first byte.
unfoldable pub set_report : Bool → ℕ → List ℕ → ℕ → IoCall
set_report feature id bytes size = io_set_report feature id (take (size - 1) (drop 1 bytes))

unfoldable pub get_report : Bool → ℕ → ℕ → IoCall
get_report feature id size = io_get_report feature id (size - 1)
