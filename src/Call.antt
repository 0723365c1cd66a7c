-- ===== src/Call.antt =====
-- backend/src/call.rs: the parts of a group call.
pub mod Intervals
pub mod Owned
pub mod Speaker
pub mod KeyFrames
pub mod Tick
pub mod Life
pub mod SendRate
pub mod Activity
pub mod Dispatch
pub mod Incoming
pub mod Media
pub mod Requests
pub mod Hands
pub mod Messages
pub mod Single
pub mod Ids
pub mod Simulcast
pub mod Allocation
pub mod Ssrc
pub mod State
pub mod Layers
pub mod Members
mod Examples
