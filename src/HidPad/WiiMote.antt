-- ===== src/HidPad/WiiMote.antt =====
-- src/backend/hidpad/wiimote.h, wiimote.cpp and HIDPad_WiiMote.cpp: the Wii Remote and the Classic
-- Controller that it may carry.
pub mod Constants
pub mod Driver
pub mod Handshake
pub mod Termination
pub mod Classic
pub mod Pad
pub mod Range
pub mod Quiet
pub mod Inputs
pub mod Life
