-- ===== src/CmdServer.antt =====
-- cmd_server.h and cmd_server.c: the commands of the phone and their answers.
pub mod Commands
pub mod Results
pub mod Serving
pub mod Running
