-- ===== src/Public.antt =====
-- public.h and public.c: the error codes, their messages, the two reporters and the IPC keys.
pub mod ErrorCode
mod Messages
pub mod Report
