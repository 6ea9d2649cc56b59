-- ===== src/Collections.antt =====
-- main.go: the handlers of the collections.
pub mod Crs
pub mod Handlers
pub mod Atomic
pub mod Read
