-- ===== src/Plist.antt =====
-- crates/perun-cli/src/store/plist.rs: property lists.
pub mod Base64
pub mod Escape
pub mod Values
mod Tests
