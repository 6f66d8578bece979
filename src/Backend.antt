-- ===== src/Backend.antt =====
-- src/backend/backend.h and backend.cpp: the registry of controllers, and what crosses the socket to
-- the frontend.
pub mod Defs
pub mod Registry
pub mod Lifecycle
