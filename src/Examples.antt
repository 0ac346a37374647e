-- ===== src/Examples.antt =====
-- Tests: the theorems at concrete inputs.
mod Segments
mod Packets
mod Sending
mod Receiving
mod Files
mod Memory
mod Threads
mod Retransmission
mod Serializing
