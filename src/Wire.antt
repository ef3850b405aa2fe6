-- ===== src/Wire.antt =====
-- The formats of datagrams and stream messages that clients and servers share.
pub mod Limits
pub mod Video
pub mod Voice
pub mod Frame
mod Runs
