-- ===== src/Video.antt =====
-- video.h and video.c: the thread that reads the camera.
pub mod Header
pub mod Image
pub mod Encoder
pub mod Device
pub mod Stream
pub mod Snapshot
pub mod Results
pub mod Thread
pub mod Start
