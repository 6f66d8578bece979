-- ===== src/HidPad.antt =====
-- src/backend/hidpad: the controllers. Each class keeps its state in a record; its methods return
-- the new state and the calls that they make of the backend and of the HID manager.
pub mod Float
pub mod Axis
pub mod Effect
pub mod Pause
pub mod Range
pub mod Quiet
pub mod Playstation3
pub mod DualShock4
pub mod WiiMote
pub mod WiiUPro
pub mod Interface
