-- ===== src/Properties.antt =====
-- main.go: the handlers of the stored temporal properties.
pub mod Form
pub mod Table
pub mod Create
pub mod Remove
pub mod Read
pub mod Atomic
