-- ===== src/Cli.antt =====
-- insteonrf/cli.py: what the commands do between their arguments and their output.
mod Tests
pub mod Build
pub mod Decode
