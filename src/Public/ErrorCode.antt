-- ===== src/Public/ErrorCode.antt =====
-- `enum error_code_list` of public.h: every function of the program returns one of these numbers.
mod Transport
mod Rtsp
mod Services
mod Camera
pub use Transport.*
pub use Rtsp.*
pub use Services.*
pub use Camera.*
