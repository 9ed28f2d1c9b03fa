-- ===== src/Utf.antt =====
-- hw2: translation of files between UTF-8, UTF-16LE and UTF-16BE.
pub mod Glyph
pub mod Spec
pub mod Utf8
pub mod Utf16
pub mod Files
pub mod Convert
pub mod Program
pub mod Args
mod Tests
