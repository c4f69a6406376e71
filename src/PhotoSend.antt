-- ===== src/PhotoSend.antt =====
-- photo_send.c: the process that sends photographs to the phone.
pub mod File
pub mod Requests
