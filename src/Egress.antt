-- ===== src/Egress.antt =====
-- client/src/net/egress.rs: the client's scheduler of outgoing voice and video. FrameQueue is its queue
-- of video frames, Scheduler the scheduler itself.
pub mod FrameQueue
pub mod Scheduler
mod Runs
