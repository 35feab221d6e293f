-- ===== src/Wallpaper.antt =====
-- mural-core/src/wallpaper.rs
pub mod Rng
pub mod Shuffle
pub mod Layout
pub mod Control
pub mod Bag
pub mod Actions
pub mod Storage
pub mod Change
pub mod Preview
pub mod Examples
