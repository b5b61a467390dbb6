-- ===== src/Radio.antt =====
-- insteonrf/radio/: the backends that turn what a radio delivers into lines of bits.
mod Tests
pub mod File
pub mod Mqtt
pub mod Rfcat
