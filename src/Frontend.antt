-- ===== src/Frontend.antt =====
-- src/frontend: the controllers as the application sees them, and the keyboard that plays one.
pub mod Value
pub mod Element
pub mod Controller
pub mod Gamepad
pub mod Manager
pub mod Keyboard
pub mod Discovery
pub mod Hooks
