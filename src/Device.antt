-- ===== src/Device.antt =====
-- The simulated SATA device: bench/cpp/satasim.h and bench/cpp/satasim.cpp.
pub mod Scrambler
pub mod Crc
pub mod State
pub mod Phy
pub mod Primitive
pub mod Words
pub mod Link
pub mod Frame
pub mod Session
