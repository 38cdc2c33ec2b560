-- ===== src/Broker.antt =====
-- server/broker.cpp: the broker's own thread. `State` is what it keeps, `Dialing` the links of
-- discovery, `Session` the control messages of its clients, `Route` the way of a message through
-- it, `Intake` where messages come in, `Upkeep` what runs on a timer.
pub mod State
pub mod Dialing
pub mod Session
pub mod Route
pub mod Intake
pub mod Upkeep
pub mod Invariant
pub mod Caps
pub mod Loops
pub mod Reach
pub mod Recipients
