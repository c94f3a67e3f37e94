-- ===== src/Ipa.antt =====
-- crates/perun-cli/src/store/ipa.rs: reading the entries of a package.
pub mod Bits
pub mod Huffman
pub mod Inflate
pub mod Crc32
pub mod Fetch
pub mod Names
pub mod Replicate
pub mod Sinf
pub mod Zip
mod Tests
