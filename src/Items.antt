-- ===== src/Items.antt =====
-- main.go: the handlers of the moving features and of their temporal geometry.
pub mod Writes
pub mod Geometry
pub mod Refusals
pub mod Listing
pub mod Export
pub mod Single
pub mod Links
pub mod Paging
pub mod Walk
