-- ===== src/Socket.antt =====
-- common/zmqworker.cpp: the thread that owns a DEALER socket. `State` is what the worker keeps, `Loop`
-- its loop in steps, one for each access to what other threads share, `Run` the interleavings of
-- those steps with the calls of other threads. `Order`, `Accounted`, `Drained` and `Flush` follow them.
pub mod State
pub mod Loop
pub mod Run
pub mod Order
pub mod Drained
pub mod Accounted
pub mod Flush
