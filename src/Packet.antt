-- ===== src/Packet.antt =====
-- insteonrf/packet.py: the packet codec, one child for each of its parts. `Crc`, `Address`,
-- `Flags`, `Fields`, `Build` and `Frames` hold the definitions; the proofs stand below them.
pub mod Crc
pub mod Address
pub mod Flags
pub mod Fields
pub mod Build
pub mod Frames
pub mod Samples
mod Tests
