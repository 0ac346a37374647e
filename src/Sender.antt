-- ===== src/Sender.antt =====
-- FMTPv3/sender/fmtpSendv3.{h,cpp}.
pub mod State
pub mod Multicast
pub mod Unicast
pub mod UdpSerializer
pub mod Segments
pub mod Product
pub mod Answers
pub mod Rounds
