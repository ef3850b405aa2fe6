-- ===== src/Gateway.antt =====
-- The state that the gateway's tasks share: server/gateway/src/state.rs, and shared/route-hash/src/lib.rs,
-- which it uses; Share is server/gateway/src/screenshare.rs. Users, channels, streams and session ids
-- are numbers; a DashMap's operation is one step.
pub mod Sessions
pub mod Streams
pub mod RouteHash
pub mod Membership
pub mod Push
pub mod Share
mod Runs
