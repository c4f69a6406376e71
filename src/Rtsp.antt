-- ===== src/Rtsp.antt =====
-- rtsp.c: the answers to the RTSP requests and what they are made of.
pub mod Encode
pub mod Search
pub mod Handlers
