-- ===== src/NetTrans.antt =====
-- net_trans.c: sockets, and the loops that send and receive whole buffers.
pub mod Sockets
pub mod Send
pub mod Recv
pub mod Packets
