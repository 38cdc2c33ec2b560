-- ===== src/Client.antt =====
-- common/connectionmanager.cpp: the client of a broker. `State` is what it keeps and how it sends,
-- `Registration` the callbacks and the subscriptions they make, `Dispatch` what a received message
-- triggers, `Requests` publishing and request/reply, `Library` the instance and what waits for it.
pub mod State
pub mod Registration
pub mod Dispatch
pub mod Requests
pub mod Library
pub mod Announced
pub mod Told
pub mod Served
pub mod Counted
pub mod Shortcut
pub mod Replies
