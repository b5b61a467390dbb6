-- ===== src/Inject.antt =====
-- insteonrf/inject.py: what the modem heard (`Memory`), which messages may be injected
-- (`Classify`), and the decision (`Consider`).
mod Tests
pub mod Memory
pub mod Classify
pub mod Consider
