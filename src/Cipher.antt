-- ===== src/Cipher.antt =====
-- hw1: the Polybius cipher and the fractionated Morse cipher.
pub mod Tables
pub mod Args
pub mod Polybius
pub mod Morse
pub mod Program
mod Tests
