-- ===== src/Canvas.antt =====
-- crates/murald/src/transitions/canvas/layout.rs: which wallpapers stand on the canvas, and where.
pub mod Slots
pub mod Placed
pub mod Tiles
pub mod Changed
pub mod Shown
mod Examples
