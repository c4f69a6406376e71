-- ===== src/Rtp.antt =====
-- rtp.h and rtp.c: the packets, and the thread that sends the frames.
pub mod Packet
pub mod Sender
pub mod Thread
pub mod Receiver
pub mod Streaming
