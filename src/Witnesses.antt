-- ===== src/Witnesses.antt =====
-- The properties at concrete inputs, and runs of the definitions.
mod Fixed
mod Streams
mod Axes
mod Sixaxis
mod LightBar
mod WiiPad
mod Remote
mod Registry
mod Radio
mod Program
mod Reports
mod Application
mod Listener
mod Startup
mod Discovery
