-- ===== src/Tool.antt =====
-- The command-line client, cli/: `Options` has what it reads off its arguments, `Reasons`, `Checked` and
-- `Parsed` are about that; `Payload` has how it prints a payload, `Shown` is about the bytes of it;
-- `Replay` has how it replays a capture, `Replayed` is about what that sends.
pub mod Options
pub mod Reasons
pub mod Checked
pub mod Parsed
pub mod Payload
pub mod Shown
pub mod Replay
pub mod Replayed
