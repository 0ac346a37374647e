-- ===== src/Receiver.antt =====
-- FMTPv3/receiver/fmtpRecvv3.{h,cpp}: the receiver.
pub mod State
pub mod Requests
pub mod Product
pub mod Multicast
pub mod Unicast
pub mod Threads
pub mod Missing
pub mod Wanted
pub mod Bops
pub mod Paired
pub mod Invariant
pub mod Rounds
pub mod RetxRounds
pub mod Delivery
pub mod Receiving
pub mod Transfer
pub mod Repair
pub mod Limits
pub mod EndToEnd
