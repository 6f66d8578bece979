-- ===== src/Connection.antt =====
-- src/common.h and src/common.cpp: the `Connection` that both ends of the socket pair use. The
-- senders are what they hand to `write`; the reader is the loop of `Parse` around `Read`.
pub mod Defs
pub mod Endpoint
pub mod Sync
pub mod Framing
pub mod RoundTrip
