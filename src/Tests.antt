-- ===== src/Tests.antt =====
-- The properties at concrete inputs: a codec, a broker with clients and a link, a client and its
-- worker, datagrams, records.
pub mod Fixtures
pub mod Serving
pub mod Interests
pub mod Components
pub mod Clients
pub mod Workers
pub mod Tools
