-- ===== src/VideoServer.antt =====
-- video_server.c: the RTSP session of one client, and the loop over the clients.
pub mod Session
pub mod Serving
