-- ===== src/VideoTransport.antt =====
-- client/src/net/video_transport.rs: the sender that cuts an encoded frame into datagrams, the
-- reassembly slot of a frame and the receiver that keeps a bounded number of them.
pub mod Sender
pub mod Slot
pub mod Receiver
pub mod Delivery
mod Runs
