-- ===== src/BtFilter.antt =====
-- btserverfilter/src: the hooks on `socket`, `read` and `write` that inspect and change the packets
-- between the Bluetooth server and the radio.
pub mod Address
pub mod Defs
pub mod Hooks
pub mod Write
pub mod Read
pub mod Pairing
pub mod Logger
